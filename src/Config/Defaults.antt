-- ===== src/Config/Defaults.antt =====
-- config/config.go: the defaults that `Load` fills in after the expansion, and the getters that fall
-- back to a default. Durations are nanoseconds; `parse` is time.ParseDuration, `none` its error.
use mathlib.Core.List.{reverse, reverse-reverse}
use mqtt_raspberry_controlle.Base.{
  ℕ, ◌*◌, ◌^◌, Bool, true, false, not, ◌&&◌, Option, none, some, [], ◌∷◌, Bytes, codes, is_empty,
  ◌==◌, if◌then◌else◌, ◌≡◌, ◌≢◌, refl, arith, All,
}
use mqtt_raspberry_controlle.Base.Int.{ℤ, pos}
use mqtt_raspberry_controlle.Base.Dict.{Dict}
use mqtt_raspberry_controlle.Config.{Config, GpioOutput, GpioInput, Action}

abbrev default_discovery_prefix : Bytes
default_discovery_prefix = codes "homeassistant"

abbrev default_discovery_state_file : Bytes
default_discovery_state_file = codes "/var/lib/mqtt-raspberry-controller/discovery-state.json"

drop_slashes : Bytes → Bytes
drop_slashes [] = []
drop_slashes (c ∷ s) = let rest = drop_slashes s in if c == b'/' then rest else c ∷ s

-- strings.Trim(s, "/")
unfoldable pub trim_slashes : Bytes → Bytes
unfolding drop_slashes
trim_slashes s = reverse (drop_slashes (reverse (drop_slashes s)))

-- if s == "" { s = fallback }
or_default : Bytes → Bytes → Bytes
or_default s fallback = if is_empty s then fallback else s

default_output : GpioOutput → GpioOutput
unfolding or_default
default_output output = record output { chip = or_default output.chip (codes "gpiochip0") }

default_input : GpioInput → GpioInput
unfolding or_default
default_input input = record input {
  chip = or_default input.chip (codes "gpiochip0");
  bias = or_default input.bias (codes "disabled");
}

-- for name, v := range m { …; m[name] = v }
update_values : {V : Type 0} → (V → V) → Dict V → Dict V
update_values f [] = []
update_values f ((k, v) ∷ m) = (k, f v) ∷ update_values f m

unfoldable pub apply_defaults : Config → Config
unfolding or_default default_output default_input update_values
apply_defaults c = record c {
  mqtt = record (c.mqtt) {
    client_id = or_default c.mqtt.client_id c.device.id;
    base_topic = trim_slashes (or_default c.mqtt.base_topic c.device.id);
    discovery = record (c.mqtt.discovery) {
      prefix = trim_slashes (or_default c.mqtt.discovery.prefix default_discovery_prefix);
      state_file = or_default c.mqtt.discovery.state_file default_discovery_state_file;
    };
  };
  device = record (c.device) {
    manufacturer = or_default c.device.manufacturer (codes "mqtt-raspberry-controller");
    model = or_default c.device.model (codes "mqtt-raspberry-controller");
  };
  gpio = record {
    outputs = update_values default_output c.gpio.outputs;
    inputs = update_values default_input c.gpio.inputs;
  };
}

unfoldable pub mqtt_qos : Config → ℕ
mqtt_qos c = elim c.mqtt.qos [ none ↦ 1 | some q ↦ q ]

unfoldable pub discovery_enabled : Config → Bool
discovery_enabled c = elim c.mqtt.discovery.enabled [ none ↦ true | some b ↦ b ]

module _ (parse : Bytes → Option ℤ) where
  duration_or : Bytes → ℕ → ℤ
  duration_or raw fallback =
      if is_empty raw then pos fallback else elim (parse raw) [ none ↦ pos fallback | some d ↦ d ]

  pub mqtt_keep_alive : Config → ℤ
  unfolding duration_or
  mqtt_keep_alive c = duration_or c.mqtt.keep_alive (30 * 10 ^ 9)

  pub mqtt_connect_timeout : Config → ℤ
  unfolding duration_or
  mqtt_connect_timeout c = duration_or c.mqtt.connect_timeout (10 * 10 ^ 9)

  pub command_timeout : Action → ℤ
  unfolding duration_or
  command_timeout a = duration_or a.timeout (10 * 10 ^ 9)

abbrev pub StartsPlain : Bytes → Type 0
StartsPlain [] = Unit {0}
StartsPlain (c ∷ _) = c ≢ b'/'

drop_slashes-StartsPlain : (s : Bytes) → StartsPlain (drop_slashes s)
unfolding drop_slashes
drop_slashes-StartsPlain [] = tt
drop_slashes-StartsPlain (c ∷ s) = ground (arith, drop_slashes-StartsPlain s)

-- What the program reads of an optional field after the defaults.
pub record Filled (c : Config) : Type 0 where
  pub client : not (is_empty c.device.id) && is_empty c.mqtt.client_id ≡ false
  pub base_topic : StartsPlain (reverse c.mqtt.base_topic)
  pub prefix : StartsPlain (reverse c.mqtt.discovery.prefix)
  pub state_file : is_empty c.mqtt.discovery.state_file ≡ false
  pub manufacturer : is_empty c.device.manufacturer ≡ false
  pub model : is_empty c.device.model ≡ false
  pub outputs : All (λ (_, o). is_empty o.chip ≡ false) c.gpio.outputs
  pub inputs : All (λ (_, i). (is_empty i.chip ≡ false) × (is_empty i.bias ≡ false)) c.gpio.inputs

outputs_filled :
    (m : Dict GpioOutput) → All (λ (_, o). is_empty o.chip ≡ false) (update_values default_output m)
unfolding update_values default_output is_empty
outputs_filled [] = tt
outputs_filled ((k, o) ∷ m) = (ground arith, outputs_filled m)

inputs_filled :
    (m : Dict GpioInput)
    → All
        (λ (_, i). (is_empty i.chip ≡ false) × (is_empty i.bias ≡ false))
        (update_values default_input m)
unfolding update_values default_input is_empty
inputs_filled [] = tt
inputs_filled ((k, i) ∷ m) = ((ground arith, ground arith), inputs_filled m)

or_default_filled : (s d : Bytes) → is_empty d ≡ false → is_empty (or_default s d) ≡ false
unfolding or_default
or_default_filled s d h = ground arith

client_filled : (client id : Bytes) → not (is_empty id) && is_empty (or_default client id) ≡ false
unfolding or_default
client_filled client id = ground arith

trimmed : (s : Bytes) → StartsPlain (reverse (trim_slashes s))
unfolding trim_slashes
trimmed s = rw reverse-reverse (drop_slashes-StartsPlain (reverse (drop_slashes s)))

-- After the defaults the client id is set if the device id is, neither topic prefix ends in a slash,
-- and the state file, the device's description, every chip and every bias are set.
pub apply_defaults-Filled : (c : Config) → Filled (apply_defaults c)
unfolding apply_defaults
apply_defaults-Filled c = record {
  client = client_filled c.mqtt.client_id c.device.id;
  base_topic = trimmed _;
  prefix = trimmed _;
  state_file = or_default_filled _ default_discovery_state_file (unfold is_empty in refl);
  manufacturer = or_default_filled _ (codes "mqtt-raspberry-controller") (unfold is_empty in refl);
  model = or_default_filled _ (codes "mqtt-raspberry-controller") (unfold is_empty in refl);
  outputs = outputs_filled c.gpio.outputs;
  inputs = inputs_filled c.gpio.inputs;
}
