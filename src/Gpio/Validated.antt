-- ===== src/Gpio/Validated.antt =====
-- gpio/manager.go with a configuration that config/validation.go accepts.
use mqtt_raspberry_controlle.Base.{Bool, true, some, Bytes, codes, same, ◌≡◌, arith, ◌⊎◌}
use mqtt_raspberry_controlle.Base.Dict.{has, lookup-has}
use mqtt_raspberry_controlle.Base.Result.{ok, err}
use mqtt_raspberry_controlle.Base.Checks.{Passed, first_error-Passed, not_failed}
use mqtt_raspberry_controlle.Config.{Config, Action}
use mqtt_raspberry_controlle.Config.Outside.{Outside}
use mqtt_raspberry_controlle.Config.Validation.Actions.{gpio_check, validate_action}
use mqtt_raspberry_controlle.Config.Validation.Errors.{Place}
use mqtt_raspberry_controlle.Gpio.Lines.{Library}
use mqtt_raspberry_controlle.Gpio.{Manager, cannot_set, open_outputs, set_output, set_line}
use mqtt_raspberry_controlle.Gpio.Opening.{open_outputs_opened}

known_output :
    (o : Outside) (name : Place) (c : Config) (action : Action)
    → Passed (validate_action o name c action)
    → same action.kind (codes "gpio") ≡ true
    → has action.gpio c.gpio.outputs ≡ true
unfolding validate_action gpio_check
known_output o name c action h gpio =
    let known = not_failed _ _ (first_error-Passed _ (rw gpio at h)).0 in ground (arith, known)

module _ {B L H : Type 0} (library : Library B L H) where
  set_line_cases :
      (l : L) (name : Bytes) (state : Bool) (hw : H)
      → ((set_line library (some l) name state hw).0 ≡ ok tt)
        ⊎ ((set_line library (some l) name state hw).0 ≡ err (cannot_set name))
  unfolding set_line
  set_line_cases l name state hw = ground arith

  -- Behind an OpenOutputs that succeeds, the output of a gpio action that `validateActions` accepts has a
  -- line: setting it works, or fails because the line does, but never for want of a line.
  pub validated_set_output :
      (o : Outside) (name : Place) (c : Config) (action : Action) (m m' : Manager L)
      (hw hw' hw2 : H) (state : Bool)
      → Passed (validate_action o name c action)
      → same action.kind (codes "gpio") ≡ true
      → m.config ≡ c.gpio
      → open_outputs library m hw ≡ (ok tt, m', hw')
      → ((set_output library action.gpio state m' hw2).0 ≡ ok tt)
        ⊎ ((set_output library action.gpio state m' hw2).0 ≡ err (cannot_set action.gpio))
  unfolding set_output
  validated_set_output o name c action m m' hw hw' hw2 state valid gpio configured opened =
      let known = known_output o name c action valid gpio in
      let there =
        open_outputs_opened library m m' hw hw' opened action.gpio (rw configured known) in
      let (l, e) = lookup-has action.gpio m'.outputs there in
      rw e (set_line_cases l action.gpio state hw2)
