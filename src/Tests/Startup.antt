-- ===== src/Tests/Startup.antt =====
-- The start of the service with a configuration that is valid.
use mqtt_raspberry_controlle.Base.{
  ℕ, ◌+◌, true, false, Option, none, some, Bytes, codes, same, is_empty, sort_strings, ◌≡◌, refl,
}
use mqtt_raspberry_controlle.Base.Dict.{keys, lookup, insert}
use mqtt_raspberry_controlle.Base.Result.{ok}
use mqtt_raspberry_controlle.Config.{Config}
use mqtt_raspberry_controlle.Config.Defaults.{apply_defaults, trim_slashes}
use mqtt_raspberry_controlle.Config.Expansion.{Lookup, expand_value}
use mqtt_raspberry_controlle.Config.Expansion.Fields.{expand_environment, expand_field}
use mqtt_raspberry_controlle.Config.Loading.{load}
use mqtt_raspberry_controlle.Mqtt.New.{Options}
use mqtt_raspberry_controlle.Service.Startup.{
  Components, Flags, Ended, run_service, run_service-Ended,
}
use mqtt_raspberry_controlle.Tests.Configured.{home, home_passes}
use mqtt_raspberry_controlle.Tests.Validation.{outside}

abbrev no_variables : Lookup
no_variables name = none

abbrev file : Bytes → Option Bytes
file path = some (codes "mqtt:")

abbrev decode_yaml : Bytes → Option Config
decode_yaml content = some home

expanded : expand_environment no_variables home ≡ ok home
unfolding expand_environment expand_value keys lookup insert same is_empty expand_field sort_strings
expanded = refl

defaults : apply_defaults home ≡ home
unfolding apply_defaults is_empty trim_slashes
defaults = refl

loaded : load outside no_variables file decode_yaml (codes "config.yaml") ≡ ok home
unfolding load
loaded = rw (load, expanded, defaults, home_passes) refl

-- A component whose connection fails; the state counts the shutdowns.
abbrev components : Config → Options → Components ℕ
components cfg options = record {
  parts = record {
    stop_accepting = λ n. n;
    shutdown_controller = λ n. (true, n);
    close_mqtt = λ n. (true, n);
    close_gpio = λ n. (true, n + 1);
  };
  open_outputs = λ n. (true, n);
  register = λ n. (true, n);
  connect = λ n. (false, n);
  open_inputs = λ n. (true, n);
  publish_all_states = λ n. n;
  wait = λ n. n;
}

abbrev flags : Flags
flags = record { config_path = codes "config.yaml"; check_config = false; show_version = false }

run_service-Ended_example :
    Ended components outside no_variables file decode_yaml 0
      (run_service components outside no_variables file decode_yaml flags 0)
run_service-Ended_example =
    run_service-Ended components outside no_variables file decode_yaml flags 0
