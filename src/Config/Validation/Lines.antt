-- ===== src/Config/Validation/Lines.antt =====
-- config/validation.go: `validateGPIO`. The key of a line is the pair of its chip and its number, whose
-- print "chip:number" tells two pairs apart, since a number has no colon. The map `usedLines` is the list
-- of its keys.
pub mod Distinct
pub mod Accepting
pub mod Order
use mqtt_raspberry_controlle.Base.{
  ℕ, Bool, true, false, not, ◌&&◌, ◌||◌, List, [], ◌∷◌, Bytes, codes, same, contains, ◌==◌,
  if◌then◌else◌,
}
use mqtt_raspberry_controlle.Base.Int.{ℤ, pos, negsuc, is_negative}
use mqtt_raspberry_controlle.Base.Dict.{Dict}
use mqtt_raspberry_controlle.Base.Result.{Result, ok, err, ◌>>=◌}
use mqtt_raspberry_controlle.Base.Checks.{Check, fail_if, first_error}
use mqtt_raspberry_controlle.Config.{GpioOutput, GpioInput, Gpio}
use mqtt_raspberry_controlle.Config.Outside.{Outside}
use mqtt_raspberry_controlle.Config.Validation.Names.{id_pattern, optional_duration}
use mqtt_raspberry_controlle.Config.Validation.Errors.{
  Place, named, field, ConfigError, invalid_output_key, invalid_input_key, negative_line,
  invalid_bias, line_used_twice,
}

abbrev pub LineKey : Type 0
LineKey = Bytes × ℤ

unfoldable pub same_number : ℤ → ℤ → Bool
same_number (pos a) (pos b) = a == b
same_number (negsuc a) (negsuc b) = a == b
same_number _ _ = false

unfoldable pub same_line : LineKey → LineKey → Bool
same_line (chip, line) (chip', line') = same chip chip' && same_number line line'

unfoldable pub is_used : LineKey → List LineKey → Bool
is_used key [] = false
is_used key (used ∷ others) = same_line used key || is_used key others

unfoldable pub output_key : GpioOutput → LineKey
output_key output = (output.chip, output.line)

unfoldable pub input_key : GpioInput → LineKey
input_key input = (input.chip, input.line)

unfoldable pub check_output : Bytes → GpioOutput → List LineKey → Check ConfigError
check_output name output used = first_error (
    fail_if (not (id_pattern name)) (invalid_output_key name)
    ∷ fail_if (is_negative output.line) (negative_line (field (named (codes "gpio.outputs")) name))
    ∷ fail_if (is_used (output_key output) used) (line_used_twice name)
    ∷ [])

unfoldable pub is_bias : Bytes → Bool
is_bias = contains (codes "disabled" ∷ codes "pull_up" ∷ codes "pull_down" ∷ [])

unfoldable pub input_place : Bytes → Place
input_place name = field (named (codes "gpio.inputs")) name

module _ (o : Outside) where
  unfoldable pub check_input : Bytes → GpioInput → List LineKey → Check ConfigError
  check_input name input used = first_error (
      fail_if (not (id_pattern name)) (invalid_input_key name)
      ∷ fail_if (is_negative input.line) (negative_line (input_place name))
      ∷ fail_if (not (is_bias input.bias)) (invalid_bias (input_place name))
      ∷ optional_duration o (field (input_place name) (codes "debounce")) input.debounce
      ∷ fail_if (is_used (input_key input) used) (line_used_twice name)
      ∷ [])

  -- The loops over the two maps; the result is the list of the used lines.
  unfoldable pub check_outputs : List LineKey → Dict GpioOutput → Result ConfigError (List LineKey)
  check_outputs used [] = ok used
  check_outputs used ((name, output) ∷ outputs) =
      let rest = check_outputs (output_key output ∷ used) outputs in
      do _ ← check_output name output used; rest

  unfoldable pub check_inputs : List LineKey → Dict GpioInput → Result ConfigError (List LineKey)
  check_inputs used [] = ok used
  check_inputs used ((name, input) ∷ inputs) =
      let rest = check_inputs (input_key input ∷ used) inputs in
      do _ ← check_input name input used; rest

  unfoldable pub validate_gpio : Gpio → Check ConfigError
  validate_gpio gpio = do
    used ← check_outputs [] gpio.outputs
    _ ← check_inputs used gpio.inputs
    ok tt
