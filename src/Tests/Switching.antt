-- ===== src/Tests/Switching.antt =====
-- A lamp on a line, switched on by a message.
use mqtt_raspberry_controlle.Base.{
  ℕ, true, false, none, Option, List, [], ◌∷◌, Bytes, codes, same, sort_strings, ◌≡◌, ◌⊎◌, inr,
  refl, arith,
}
use mqtt_raspberry_controlle.Base.Dict.{lookup, keys, insert, has}
use mqtt_raspberry_controlle.Base.Result.{ok, err}
use mqtt_raspberry_controlle.Config.{Action, Entity}
use mqtt_raspberry_controlle.Config.Defaults.{mqtt_qos}
use mqtt_raspberry_controlle.Action.Sequence.{execute, execute_from_gpio}
use mqtt_raspberry_controlle.Controller.Payload.{state_payload}
use mqtt_raspberry_controlle.Controller.Payload.Words.{parse-state_payload}
use mqtt_raspberry_controlle.Controller.Handlers.{Memory, entity_topic, handle_switch}
use mqtt_raspberry_controlle.Gpio.{
  open_outputs, set_output, output_state, cannot_read, sorted_output_names,
}
use mqtt_raspberry_controlle.Gpio.Values.{KeepsValue}
use mqtt_raspberry_controlle.Mqtt.Client.{publish}
use mqtt_raspberry_controlle.Service.Wiring.{
  Home, gpio_error, executor_targets, controller_services,
}
use mqtt_raspberry_controlle.Service.Wiring.Switching.{handle_switch_line}
use mqtt_raspberry_controlle.Tests.Action.{switch_gpio}
use mqtt_raspberry_controlle.Tests.Configured.{home}
use mqtt_raspberry_controlle.Tests.Gpio.{Hardware, library, opened, with_free}
use mqtt_raspberry_controlle.Tests.Handlers.{lamp}
use mqtt_raspberry_controlle.Tests.Mqtt.{transport}

library-KeepsValue : KeepsValue library
library-KeepsValue l v hw set = inr (ground arith)

abbrev line_lamp : Entity
line_lamp = record lamp {
  state = record { kind = codes "gpio"; gpio = codes "lamp" };
  on = switch_gpio (codes "relay") ∷ switch_gpio (codes "lamp") ∷ [];
}

abbrev At : Type 0
At = Home ℕ Hardware (List Bytes)

abbrev no_command : Action → At → Option Bytes × At
no_command action s = (none, s)

abbrev no_delay : Bytes → At → Option Bytes × At
no_delay raw s = (none, s)

abbrev evening : At
evening = record {
  manager = opened.1;
  hardware = with_free 0;
  network = [];
  stopping = false;
  rejected = record { count = 0; last = none };
  now = 0;
}

-- With the relay on.
abbrev relay_on : At
relay_on = record evening {
  hardware = (set_output library (codes "relay") true opened.1 (with_free 0)).1;
}

abbrev dark : Memory
dark j = false

handle_switch_line_example :
    let services = controller_services library (transport true) home no_command no_delay in
    let s' = (handle_switch services home line_lamp (state_payload true) dark evening).1 in
    let sent =
      publish
        (transport true)
        home
        (entity_topic home (codes "lamp") (codes "state"))
        (state_payload true)
        (mqtt_qos home)
        true
        [] in
    let hw = (set_output library (codes "lamp") true opened.1 relay_on.hardware).1 in
    let read = (output_state library (codes "lamp") opened.1 hw).0 in
    ((read ≡ err (cannot_read (codes "lamp"))) × (s'.network ≡ []))
    ⊎ ((read ≡ ok true) × (s'.network ≡ sent.1))
unfolding open_outputs sorted_output_names sort_strings keys lookup same has insert set_output
    execute executor_targets gpio_error
handle_switch_line_example =
    handle_switch_line library (transport true) home no_command no_delay line_lamp
      (state_payload true) true (switch_gpio (codes "relay") ∷ []) (switch_gpio (codes "lamp")) dark
      evening relay_on (parse-state_payload true) refl refl refl refl refl
      (execute_from_gpio (executor_targets library (transport true) home no_command no_delay) home 0
        (switch_gpio (codes "relay")) true evening refl refl refl refl)
      refl library-KeepsValue refl
