-- ===== src/Config/Validation/Entities.antt =====
-- config/validation.go: `validateSwitch`, `validateButton`, `validateBinarySensor` and the loop of
-- `Validate` over the entities.
use mqtt_raspberry_controlle.Base.{
  ℕ, ◌+◌, not, List, [], ◌∷◌, ◌++◌, Bytes, codes, same, is_empty, contains, if◌then◌else◌,
}
use mqtt_raspberry_controlle.Base.Dict.{has}
use mqtt_raspberry_controlle.Base.Result.{ok, err}
use mqtt_raspberry_controlle.Base.Space.{trim_space}
use mqtt_raspberry_controlle.Base.Checks.{Check, fail_if, first_error}
use mqtt_raspberry_controlle.Config.{Config, Entity}
use mqtt_raspberry_controlle.Config.Outside.{Outside}
use mqtt_raspberry_controlle.Config.Validation.Names.{id_pattern}
use mqtt_raspberry_controlle.Config.Validation.Actions.{validate_actions}
use mqtt_raspberry_controlle.Config.Validation.Errors.{
  ConfigError, invalid_entity_id, duplicate_entity, missing_entity_name, missing_actions,
  missing_state, unused_state_gpio, unsupported_state, invalid_source, unknown_output,
  unknown_input, unsupported_kind,
}

module _ (o : Outside) (c : Config) where
  unfoldable pub state_check : Entity → Check ConfigError
  state_check entity =
      if is_empty entity.state.kind
      then err (missing_state entity.id)
      else if same entity.state.kind (codes "memory")
      then fail_if (not (is_empty entity.state.gpio)) (unused_state_gpio entity.id)
      else if same entity.state.kind (codes "gpio")
      then fail_if (not (has entity.state.gpio c.gpio.outputs))
          (unknown_output entity.id entity.state.gpio)
      else err (unsupported_state entity.id entity.state.kind)

  unfoldable pub validate_switch : Entity → Check ConfigError
  validate_switch entity = first_error (
      state_check entity
      ∷ fail_if (is_empty entity.on) (missing_actions entity.id (codes "on"))
      ∷ fail_if (is_empty entity.off) (missing_actions entity.id (codes "off"))
      ∷ validate_actions o c (entity.id ++ codes ".on") entity.on
      ∷ validate_actions o c (entity.id ++ codes ".off") entity.off
      ∷ [])

  unfoldable pub validate_button : Entity → Check ConfigError
  validate_button entity = first_error (
      fail_if (is_empty entity.press) (missing_actions entity.id (codes "press"))
      ∷ validate_actions o c (entity.id ++ codes ".press") entity.press
      ∷ [])

  unfoldable pub validate_binary_sensor : Entity → Check ConfigError
  validate_binary_sensor entity = first_error (
      fail_if (not (same entity.source.kind (codes "gpio"))) (invalid_source entity.id)
      ∷ fail_if (not (has entity.source.gpio c.gpio.inputs))
          (unknown_input entity.id entity.source.gpio)
      ∷ [])

  unfoldable pub validate_kind : Entity → Check ConfigError
  validate_kind entity =
      if same entity.kind (codes "switch")
      then validate_switch entity
      else if same entity.kind (codes "button")
      then validate_button entity
      else if same entity.kind (codes "binary_sensor")
      then validate_binary_sensor entity
      else err (unsupported_kind entity.id entity.kind)

  -- One round of the loop; `seen` holds the ids before.
  unfoldable pub validate_entity : ℕ → List Bytes → Entity → Check ConfigError
  validate_entity i seen entity = first_error (
      fail_if (not (id_pattern entity.id)) (invalid_entity_id i entity.id)
      ∷ fail_if (contains seen entity.id) (duplicate_entity entity.id)
      ∷ fail_if (is_empty (trim_space entity.name)) (missing_entity_name entity.id)
      ∷ validate_kind entity
      ∷ [])

  unfoldable pub validate_entities : ℕ → List Bytes → List Entity → Check ConfigError
  validate_entities i seen [] = ok tt
  validate_entities i seen (entity ∷ entities) =
      first_error
        (validate_entity i seen entity ∷ validate_entities (i + 1) (entity.id ∷ seen) entities ∷ [])
