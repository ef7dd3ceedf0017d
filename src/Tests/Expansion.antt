-- ===== src/Tests/Expansion.antt =====
-- config/expansion.go at a configuration with a lamp.
use mathlib.Core.Option as Option
use mqtt_raspberry_controlle.Config.Expansion.Fields.Leaves.{output_expanded, input_expanded}
use mqtt_raspberry_controlle.Base.{Bytes, same, contains, codes, ◌≡◌, refl}
use mqtt_raspberry_controlle.Base.Dict.{lookup, keys}
use mqtt_raspberry_controlle.Config.{Config}
use mqtt_raspberry_controlle.Config.Expansion.Fields.{expand_environment}
use mqtt_raspberry_controlle.Config.Expansion.Fields.Report.{report}
use mqtt_raspberry_controlle.Config.Expansion.Fields.Walk.{
  config_fields, config_expanded, expand_environment-report,
}
use mqtt_raspberry_controlle.Tests.Config.{environment}
use mqtt_raspberry_controlle.Tests.Configured.{home}

abbrev templated : Config
templated = record home { mqtt = record (home.mqtt) { username = codes "${USER}" } }

expand_environment-report_example :
    (expand_environment environment templated
      ≡ report environment
          (config_fields environment templated)
          (config_expanded environment templated))
    × ((name : Bytes)
        → lookup name (config_expanded environment templated).gpio.outputs
          ≡ Option.map (output_expanded environment) (lookup name templated.gpio.outputs))
    × ((name : Bytes)
        → lookup name (config_expanded environment templated).gpio.inputs
          ≡ Option.map (input_expanded environment) (lookup name templated.gpio.inputs))
unfolding keys contains same
expand_environment-report_example =
    expand_environment-report environment templated
      ((refl, tt), tt, ((((tt, tt), (tt, tt), tt), tt)))
