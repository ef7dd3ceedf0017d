-- ===== src/Tests/Handlers.antt =====
-- Commands for a switch with its state in memory.
use mqtt_raspberry_controlle.Base.{
  true, false, none, some, List, [], ◌∷◌, Bytes, codes, same, ◌≡◌, refl,
}
use mqtt_raspberry_controlle.Config.{Entity}
use mqtt_raspberry_controlle.Tests.Config.{minimal}
use mqtt_raspberry_controlle.Controller.Payload.Words.{parse-state_payload}
use mqtt_raspberry_controlle.Controller.Payload.{state_payload}
use mqtt_raspberry_controlle.Controller.Handlers.{Services, Memory, handle_switch, publish_state}
use mqtt_raspberry_controlle.Controller.Handlers.States.{handle_switch_memory}

-- The state lists the publications.
abbrev services : Services (List (Bytes × Bytes))
services = record {
  execute = λ actions s. (true, s);
  output_state = λ name s. (some false, s);
  input_state = λ name s. (none, s);
  publish = λ topic payload qos retain s. (true, (topic, payload) ∷ s);
  record_rejection = λ s. s;
}

abbrev pub lamp : Entity
lamp = record {
  id = codes "lamp";
  kind = codes "switch";
  name = codes "Lamp";
  icon = [];
  device_class = [];
  initial_state = none;
  state = record { kind = codes "memory"; gpio = [] };
  source = record { kind = []; gpio = [] };
  on = [];
  off = [];
  press = [];
}

abbrev dark : Memory
dark j = false

handle_switch_memory_example :
    let (memory1, s') = handle_switch services minimal lamp (state_payload true) dark [] in
    (memory1 (codes "lamp") ≡ true)
    × (s' ≡ (publish_state services minimal lamp (memory1 (codes "lamp")) []).1)
unfolding same
handle_switch_memory_example =
    handle_switch_memory services minimal lamp (state_payload true) true dark []
      (parse-state_payload true) refl
