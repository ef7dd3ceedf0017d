-- ===== src/Tests/Outputs.antt =====
-- The board's outputs with an action that the validation accepts.
use mqtt_raspberry_controlle.Base.{true, codes, sort_strings, same, ◌≡◌, ◌⊎◌, refl}
use mqtt_raspberry_controlle.Base.Dict.{has, lookup, insert, keys}
use mqtt_raspberry_controlle.Base.Result.{ok, err}
use mqtt_raspberry_controlle.Base.Checks.{Passed, fail_if, first_error}
use mqtt_raspberry_controlle.Config.{Config}
use mqtt_raspberry_controlle.Config.Validation.Actions.{is_nil, gpio_check, validate_action}
use mqtt_raspberry_controlle.Config.Validation.Errors.{action_at}
use mqtt_raspberry_controlle.Gpio.{open_outputs, set_output, cannot_set}
use mqtt_raspberry_controlle.Gpio.Validated.{validated_set_output}
use mqtt_raspberry_controlle.Tests.Action.{switch_gpio}
use mqtt_raspberry_controlle.Tests.Config.{minimal}
use mqtt_raspberry_controlle.Tests.Gpio.{board, library, with_free, idle, opened}
use mqtt_raspberry_controlle.Tests.Validation.{outside}

abbrev with_board : Config
with_board = record minimal { gpio = board }

lamp_passes : Passed (
    validate_action outside (action_at (codes "lamp.on") 0) with_board (switch_gpio (codes "lamp")))
unfolding validate_action gpio_check is_nil has same fail_if first_error
lamp_passes = refl

validated_set_output_example :
    ((set_output library (codes "lamp") true opened.1 (with_free 0)).0 ≡ ok tt)
    ⊎ ((set_output library (codes "lamp") true opened.1 (with_free 0)).0
        ≡ err (cannot_set (codes "lamp")))
unfolding open_outputs sort_strings keys lookup same has insert
validated_set_output_example =
    validated_set_output library outside (action_at (codes "lamp.on") 0) with_board
      (switch_gpio (codes "lamp")) idle opened.1 (with_free 2) opened.2 (with_free 0) true
      lamp_passes refl refl refl
