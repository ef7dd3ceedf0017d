-- ===== src/Config/Expansion/Fields/Walk.antt =====
-- config/expansion.go: the walk of `expandEnvironment`, against the list of the fields that it visits.
use mathlib.Core.Option as Option
use mqtt_raspberry_controlle.Base.{List, ◌∷◌, ◌++◌, Bytes, codes, map, All, ◌≡◌}
use mqtt_raspberry_controlle.Base.Dict.{lookup, keys}
use mqtt_raspberry_controlle.Base.Sorting.{Distinct}
use mqtt_raspberry_controlle.Config.{Config, Entity}
use mqtt_raspberry_controlle.Config.Expansion.{Lookup}
use mqtt_raspberry_controlle.Config.Expansion.Fields.{
  FieldPath, root, below, expand_output, expand_input, expand_entity, expand_environment,
}
use mqtt_raspberry_controlle.Config.Expansion.Fields.Report.{
  Field, report, report-bind, report-field, report-done, expanded,
}
use mqtt_raspberry_controlle.Config.Expansion.Fields.Items.{
  Walk, list_fields, expand_list-report, map_fields, map_value, expand_map-report, lookup-map_value,
}
use mqtt_raspberry_controlle.Config.Expansion.Fields.Leaves.{
  mqtt_fields, mqtt_expanded, expand_mqtt-report, device_fields, device_expanded,
  expand_device-report, output_fields, output_expanded, expand_output-report, input_fields,
  input_expanded, expand_input-report,
}
use mqtt_raspberry_controlle.Config.Expansion.Fields.Actions.{
  RegularAction, action_expanded, action_walk,
}

abbrev RegularEntity : Entity → Type 0
RegularEntity e = All RegularAction e.on × All RegularAction e.off × All RegularAction e.press

abbrev RegularConfig : Config → Type 0
RegularConfig c =
    Distinct (keys c.gpio.outputs) × Distinct (keys c.gpio.inputs) × All RegularEntity c.entities

module _ (env : Lookup) where
  output_walk : Walk env (expand_output env)
  output_walk = record {
    Regular = λ v. Unit;
    fields = output_fields env;
    value = output_expanded env;
    walks = λ path v _. expand_output-report env path v;
  }

  input_walk : Walk env (expand_input env)
  input_walk = record {
    Regular = λ v. Unit;
    fields = input_fields env;
    value = input_expanded env;
    walks = λ path v _. expand_input-report env path v;
  }

  entity_fields : FieldPath → Entity → List Field
  entity_fields path e =
      (below path (codes "id"), e.id)
      ∷ (below path (codes "type"), e.kind)
      ∷ (below path (codes "name"), e.name)
      ∷ (below path (codes "icon"), e.icon)
      ∷ (below path (codes "device_class"), e.device_class)
      ∷ (below path (codes "state.type"), e.state.kind)
      ∷ (below path (codes "state.gpio"), e.state.gpio)
      ∷ (below path (codes "source.type"), e.source.kind)
      ∷ (below path (codes "source.gpio"), e.source.gpio)
      ∷ (list_fields env (action_walk env) (below path (codes "on")) 0 e.on
          ++ (list_fields env (action_walk env) (below path (codes "off")) 0 e.off
              ++ list_fields env (action_walk env) (below path (codes "press")) 0 e.press))

  entity_expanded : Entity → Entity
  entity_expanded e = record e {
    id = expanded env e.id;
    kind = expanded env e.kind;
    name = expanded env e.name;
    icon = expanded env e.icon;
    device_class = expanded env e.device_class;
    state = record { kind = expanded env e.state.kind; gpio = expanded env e.state.gpio };
    source = record { kind = expanded env e.source.kind; gpio = expanded env e.source.gpio };
    on = map (action_expanded env) e.on;
    off = map (action_expanded env) e.off;
    press = map (action_expanded env) e.press;
  }

  expand_entity-report :
      (path : FieldPath) (e : Entity)
      → RegularEntity e
      → expand_entity env path e ≡ report env (entity_fields path e) (entity_expanded e)
  unfolding expand_entity entity_fields entity_expanded action_walk
  expand_entity-report path e (on, off, press) = report-field env _ _ _ _ _ (
      report-field env _ _ _ _ _ (
        report-field env _ _ _ _ _ (
          report-field env _ _ _ _ _ (
            report-field env _ _ _ _ _ (
              report-field env _ _ _ _ _ (
                report-field env _ _ _ _ _ (
                  report-field env _ _ _ _ _ (
                    report-field env _ _ _ _ _ (
                      report-bind env _ _ _ _ _ _
                        (expand_list-report env (action_walk env) (below path (codes "on")) 0 e.on
                          on)
                        (report-bind env _ _ _ _ _ _
                          (expand_list-report env (action_walk env) (below path (codes "off")) 0
                            e.off off)
                          (report-done env _ _ _ _ (
                            expand_list-report env (action_walk env) (below path (codes "press")) 0
                              e.press press))))))))))))

  entity_walk : Walk env (expand_entity env)
  entity_walk = record {
    Regular = RegularEntity;
    fields = entity_fields;
    value = entity_expanded;
    walks = expand_entity-report;
  }

  pub config_fields : Config → List Field
  config_fields c =
      mqtt_fields env c.mqtt
      ++ (device_fields env c.device
          ++ (map_fields env output_walk (root (codes "gpio.outputs")) c.gpio.outputs
              ++ (map_fields env input_walk (root (codes "gpio.inputs")) c.gpio.inputs
                  ++ list_fields env entity_walk (root (codes "entities")) 0 c.entities)))

  pub config_expanded : Config → Config
  config_expanded c = record {
    mqtt = mqtt_expanded env c.mqtt;
    device = device_expanded env c.device;
    gpio = record {
      outputs = map_value env output_walk c.gpio.outputs;
      inputs = map_value env input_walk c.gpio.inputs;
    };
    entities = map entity_expanded c.entities;
  }

  walk_config :
      (c : Config)
      → RegularConfig c
      → expand_environment env c ≡ report env (config_fields c) (config_expanded c)
  unfolding expand_environment config_fields config_expanded entity_walk output_walk input_walk
  walk_config c (outputs, inputs, entities) =
      report-bind env _ _ _ _ _ _ (expand_mqtt-report env c.mqtt) (
        report-bind env _ _ _ _ _ _ (expand_device-report env c.device) (
          report-bind env _ _ _ _ _ _
            (expand_map-report env output_walk (root (codes "gpio.outputs")) c.gpio.outputs
              (λ v. tt) outputs)
            (report-bind env _ _ _ _ _ _
              (expand_map-report env input_walk (root (codes "gpio.inputs")) c.gpio.inputs (λ v. tt)
                inputs)
              (report-done env _ _ _ _ (
                expand_list-report env entity_walk (root (codes "entities")) 0 c.entities
                  entities)))))

  -- `expandEnvironment` visits every field of the configuration once, in the order of `config_fields`:
  -- its error is that of the first field that names a missing variable, and where there is none, every
  -- field is replaced by its expansion, and each output and input keeps its name, if the keys of each
  -- map are distinct.
  pub expand_environment-report :
      (c : Config)
      → RegularConfig c
      → (expand_environment env c ≡ report env (config_fields c) (config_expanded c))
        × ((name : Bytes)
            → lookup name (config_expanded c).gpio.outputs
              ≡ Option.map (output_expanded env) (lookup name c.gpio.outputs))
        × ((name : Bytes)
            → lookup name (config_expanded c).gpio.inputs
              ≡ Option.map (input_expanded env) (lookup name c.gpio.inputs))
  unfolding config_expanded output_walk input_walk
  expand_environment-report c regular =
      let (outputs, inputs, _) = regular in
      (
        walk_config c regular,
        λ name. lookup-map_value env output_walk name c.gpio.outputs outputs,
        λ name. lookup-map_value env input_walk name c.gpio.inputs inputs,
      )
