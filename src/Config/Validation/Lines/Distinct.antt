-- ===== src/Config/Validation/Lines/Distinct.antt =====
-- No GPIO line is used twice.
use mqtt_raspberry_controlle.Base.{false, List, [], ◌∷◌, Bytes, ◌≡◌, sym, subst}
use mqtt_raspberry_controlle.Base.Dict.{Dict}
use mqtt_raspberry_controlle.Base.Result.{ok}
use mqtt_raspberry_controlle.Base.Checks.{
  Passed, first_error-Passed, not_failed, then-Passed, bound_then, ok_injective,
}
use mqtt_raspberry_controlle.Config.{GpioOutput, GpioInput, Gpio}
use mqtt_raspberry_controlle.Config.Outside.{Outside}
use mqtt_raspberry_controlle.Config.Validation.Lines.{
  LineKey, is_used, output_key, input_key, check_output, check_input, check_outputs, check_inputs,
  validate_gpio,
}

-- The lines of the outputs and the inputs, in front of those that are used before.
abbrev pub output_lines : Dict GpioOutput → List LineKey → List LineKey
output_lines [] used = used
output_lines ((name, output) ∷ outputs) used = output_lines outputs (output_key output ∷ used)

abbrev pub input_lines : Dict GpioInput → List LineKey → List LineKey
input_lines [] used = used
input_lines ((name, input) ∷ inputs) used = input_lines inputs (input_key input ∷ used)

abbrev pub AllDistinct : List LineKey → Type 0
AllDistinct [] = Unit {0}
AllDistinct (key ∷ keys) = (is_used key keys ≡ false) × AllDistinct keys

check_output_fresh :
    (name : Bytes) (output : GpioOutput) (used : List LineKey)
    → Passed (check_output name output used)
    → is_used (output_key output) used ≡ false
unfolding check_output
check_output_fresh name output used passed = not_failed _ _ (first_error-Passed _ passed).1.1.0

check_outputs-AllDistinct :
    (o : Outside) (outputs : Dict GpioOutput) (used result : List LineKey)
    → check_outputs o used outputs ≡ ok result
    → AllDistinct used
    → (result ≡ output_lines outputs used) × AllDistinct result
unfolding check_outputs
check_outputs-AllDistinct o [] used result h d =
    let same_list = ok_injective used result h in (sym same_list, subst AllDistinct same_list d)
check_outputs-AllDistinct o ((name, output) ∷ outputs) used result h d =
    let (passed, rest) = then-Passed (check_output name output used) _ h in
    check_outputs-AllDistinct o outputs (output_key output ∷ used) result rest
      (check_output_fresh name output used passed, d)

check_input_fresh :
    (o : Outside) (name : Bytes) (input : GpioInput) (used : List LineKey)
    → Passed (check_input o name input used)
    → is_used (input_key input) used ≡ false
unfolding check_input
check_input_fresh o name input used passed = not_failed _ _ (first_error-Passed _ passed).1.1.1.1.0

check_inputs-AllDistinct :
    (o : Outside) (inputs : Dict GpioInput) (used result : List LineKey)
    → check_inputs o used inputs ≡ ok result
    → AllDistinct used
    → AllDistinct (input_lines inputs used)
unfolding check_inputs
check_inputs-AllDistinct o [] used result h d = d
check_inputs-AllDistinct o ((name, input) ∷ inputs) used result h d =
    let (passed, rest) = then-Passed (check_input o name input used) _ h in
    check_inputs-AllDistinct o inputs (input_key input ∷ used) result rest
      (check_input_fresh o name input used passed, d)

-- Where `validateGPIO` passes, no two lines of outputs and inputs have both the same chip and the same
-- number, in whatever order the maps are read.
pub validate_gpio-AllDistinct :
    (o : Outside) (gpio : Gpio)
    → Passed (validate_gpio o gpio)
    → AllDistinct (input_lines gpio.inputs (output_lines gpio.outputs []))
unfolding validate_gpio
validate_gpio-AllDistinct o gpio h =
    let (used, outputs, h1) = bound_then (check_outputs o [] gpio.outputs) _ h in
    let (all, inputs, _) = bound_then (check_inputs o used gpio.inputs) _ h1 in
    let (listed, distinct) = check_outputs-AllDistinct o gpio.outputs [] used outputs tt in
    rw (← listed) (check_inputs-AllDistinct o gpio.inputs used all inputs distinct)
