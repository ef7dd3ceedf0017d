-- ===== src/Config/Validation/Actions.antt =====
-- config/validation.go: `validateActions` and `validateCommandAction`.
use mqtt_raspberry_controlle.Base.{
  ℕ, ◌+◌, Bool, true, false, not, ◌||◌, Option, none, some, List, [], ◌∷◌, Bytes, codes, same,
  is_empty, contains_byte, ltb, if◌then◌else◌, sort_strings,
}
use mqtt_raspberry_controlle.Base.Dict.{Dict, keys, lookup, has}
use mqtt_raspberry_controlle.Base.Result.{ok, err}
use mqtt_raspberry_controlle.Base.Space.{trim_space}
use mqtt_raspberry_controlle.Base.Checks.{Check, fail_if, first_error}
use mqtt_raspberry_controlle.Config.{Config, Action}
use mqtt_raspberry_controlle.Config.Outside.{Outside, is_executable}
use mqtt_raspberry_controlle.Config.Paths.{is_abs}
use mqtt_raspberry_controlle.Config.Validation.Names.{
  env_name_pattern, validate_positive_duration, optional_duration, validate_publish_topic,
}
use mqtt_raspberry_controlle.Config.Validation.Errors.{
  Place, action_at, field, element, ConfigError, unknown_action_output, unsupported_action,
  missing_value, missing_duration, invalid_action_qos, missing_command, nul_byte, not_absolute,
  cannot_stat, not_executable, not_a_directory, invalid_environment_name,
}

-- The value of a name that is not in the map reads as "".
value_of : Option Bytes → Bytes
value_of none = []
value_of (some value) = value

unfoldable pub is_nil : {A : Type 0} → Option A → Bool
is_nil none = true
is_nil (some _) = false

unfoldable pub bad_qos : Option ℕ → Bool
bad_qos none = false
bad_qos (some qos) = ltb 2 qos

module _ (o : Outside) (place : Place) where
  unfoldable pub check_executable : Bytes → Check ConfigError
  check_executable path = elim (o.stat path) [
    | none ↦ err (cannot_stat (field place (codes "command")))
    | some info ↦ fail_if (not info.is_regular || not (is_executable info)) (not_executable place)
  ]

  check_arguments : ℕ → List Bytes → Check ConfigError
  check_arguments i [] = ok tt
  check_arguments i (argument ∷ arguments) = first_error (
      fail_if (contains_byte argument 0) (nul_byte (element (field place (codes "args")) i))
      ∷ check_arguments (i + 1) arguments
      ∷ [])

  check_directory : Bytes → Check ConfigError
  check_directory path = elim (o.stat path) [
    | none ↦ err (cannot_stat (field place (codes "working_dir")))
    | some info ↦ fail_if (not info.is_dir) (not_a_directory place)
  ]

  check_working_dir : Bytes → Check ConfigError
  unfolding check_directory
  check_working_dir path =
      if is_empty path
      then ok tt
      else first_error (
          fail_if (contains_byte path 0) (nul_byte (field place (codes "working_dir")))
          ∷ fail_if (not (is_abs path)) (not_absolute (field place (codes "working_dir")))
          ∷ check_directory path
          ∷ [])

  check_environment : Dict Bytes → List Bytes → Check ConfigError
  unfolding value_of
  check_environment env [] = ok tt
  check_environment env (key ∷ names) = first_error (
      fail_if (not (env_name_pattern key)) (invalid_environment_name place key)
      ∷ fail_if (contains_byte (value_of (lookup key env)) 0)
          (nul_byte (field (field place (codes "env")) key))
      ∷ check_environment env names
      ∷ [])

  unfoldable pub validate_command_action : Action → Check ConfigError
  unfolding check_arguments check_working_dir check_environment
  validate_command_action action = first_error (
      fail_if (is_empty (trim_space action.command)) (missing_command place)
      ∷ fail_if (contains_byte action.command 0) (nul_byte (field place (codes "command")))
      ∷ fail_if (not (is_abs action.command)) (not_absolute (field place (codes "command")))
      ∷ check_executable action.command
      ∷ check_arguments 0 action.args
      ∷ check_working_dir action.working_dir
      ∷ check_environment action.env (sort_strings (keys action.env))
      ∷ [])

  unfoldable pub gpio_check : Config → Action → Check ConfigError
  gpio_check c action = first_error (
      fail_if (not (has action.gpio c.gpio.outputs)) (unknown_action_output place action.gpio)
      ∷ fail_if (is_nil action.value) (missing_value place)
      ∷ [])

  unfoldable pub validate_action : Config → Action → Check ConfigError
  validate_action c action =
      if same action.kind (codes "gpio")
      then gpio_check c action
      else if same action.kind (codes "command")
      then first_error (
          validate_command_action action
          ∷ optional_duration o (field place (codes "timeout")) action.timeout
          ∷ [])
      else if same action.kind (codes "delay")
      then first_error (
          fail_if (is_empty action.duration) (missing_duration place)
          ∷ validate_positive_duration o (field place (codes "duration")) action.duration
          ∷ [])
      else if same action.kind (codes "mqtt")
      then first_error (
          validate_publish_topic (field place (codes "topic")) action.topic
          ∷ fail_if (bad_qos action.qos) (invalid_action_qos place)
          ∷ [])
      else err (unsupported_action place action.kind)

module _ (o : Outside) (c : Config) where
  -- The loop from the index `i` on.
  unfoldable pub validate_actions_from : Bytes → ℕ → List Action → Check ConfigError
  validate_actions_from context i [] = ok tt
  validate_actions_from context i (action ∷ actions) = first_error (
      validate_action o (action_at context i) c action
      ∷ validate_actions_from context (i + 1) actions
      ∷ [])

  unfoldable pub validate_actions : Bytes → List Action → Check ConfigError
  validate_actions context actions = validate_actions_from context 0 actions
