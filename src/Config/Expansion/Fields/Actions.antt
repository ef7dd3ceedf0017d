-- ===== src/Config/Expansion/Fields/Actions.antt =====
-- config/expansion.go: the fields of an action, and their walk by `expandAction`.
use mqtt_raspberry_controlle.Base.{List, [], ◌∷◌, ◌++◌, Bytes, codes, map, All, ◌≡◌}
use mqtt_raspberry_controlle.Base.Dict.{keys}
use mqtt_raspberry_controlle.Base.Sorting.{Distinct}
use mqtt_raspberry_controlle.Config.{Action}
use mqtt_raspberry_controlle.Config.Expansion.{Lookup}
use mqtt_raspberry_controlle.Config.Expansion.Fields.{FieldPath, below, expand_field, expand_action}
use mqtt_raspberry_controlle.Config.Expansion.Fields.Report.{
  Field, report, report-ok, report-bind, report-field, expanded, expand_field-report,
}
use mqtt_raspberry_controlle.Config.Expansion.Fields.Items.{
  Walk, list_fields, expand_list-report, map_fields, map_value, expand_map-report,
}

texts_hold : (values : List Bytes) → All (λ (value : Bytes). Unit {0}) values
texts_hold [] = tt
texts_hold (value ∷ values) = (tt, texts_hold values)

-- The keys of every map are distinct, as those of a Go map are.
abbrev pub RegularAction : Action → Type 0
RegularAction a = Distinct (keys a.env)

module _ (env : Lookup) where
  text_walk : Walk env (expand_field env)
  text_walk = record {
    Regular = λ v. Unit;
    fields = λ path v. (path, v) ∷ [];
    value = expanded env;
    walks = λ path v _. expand_field-report env path v;
  }

  pub action_fields : FieldPath → Action → List Field
  action_fields path a =
      (below path (codes "type"), a.kind)
      ∷ (below path (codes "gpio"), a.gpio)
      ∷ (below path (codes "command"), a.command)
      ∷ (list_fields env text_walk (below path (codes "args")) 0 a.args
          ++ (below path (codes "working_dir"), a.working_dir)
            ∷ (map_fields env text_walk (below path (codes "env")) a.env
                ++ (below path (codes "timeout"), a.timeout)
                  ∷ (below path (codes "duration"), a.duration)
                  ∷ (below path (codes "topic"), a.topic)
                  ∷ (below path (codes "payload"), a.payload)
                  ∷ []))

  pub action_expanded : Action → Action
  action_expanded a = record a {
    kind = expanded env a.kind;
    gpio = expanded env a.gpio;
    command = expanded env a.command;
    args = map (expanded env) a.args;
    working_dir = expanded env a.working_dir;
    env = map_value env text_walk a.env;
    timeout = expanded env a.timeout;
    duration = expanded env a.duration;
    topic = expanded env a.topic;
    payload = expanded env a.payload;
  }

  pub expand_action-report :
      (path : FieldPath) (a : Action)
      → RegularAction a
      → expand_action env path a ≡ report env (action_fields path a) (action_expanded a)
  unfolding expand_action action_fields action_expanded text_walk
  expand_action-report path a distinct = report-field env _ _ _ _ _ (
      report-field env _ _ _ _ _ (
        report-field env _ _ _ _ _ (
          report-bind env _ _ _ _ _ _
            (expand_list-report env text_walk (below path (codes "args")) 0 a.args
              (texts_hold a.args))
            (report-field env _ _ _ _ _ (
              report-bind env _ _ _ _ _ _
                (expand_map-report env text_walk (below path (codes "env")) a.env (λ v. tt)
                  distinct)
                (search (report-field env, report-ok env)))))))

  unfoldable pub action_walk : Walk env (expand_action env)
  action_walk = record {
    Regular = RegularAction;
    fields = action_fields;
    value = action_expanded;
    walks = expand_action-report;
  }
