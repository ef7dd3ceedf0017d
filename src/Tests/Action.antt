-- ===== src/Tests/Action.antt =====
-- action/executor.go at a few writes and actions.
use mqtt_raspberry_controlle.Base.{
  Bool, true, false, Option, none, some, List, [], ◌∷◌, ◌++◌, Bytes, codes, same, ◌≡◌, refl,
}
use mqtt_raspberry_controlle.Config.{Action}
use mqtt_raspberry_controlle.Tests.Config.{minimal}
use mqtt_raspberry_controlle.Action.Output.{Captures, concat, write_all, no_output, write_all_text}
use mqtt_raspberry_controlle.Action.Sequence.{
  Targets, execute, execute_from, execute_one, failed_at, failed,
}
use mqtt_raspberry_controlle.Action.Sequence.Trace.{Traced, execute-Traced}

write_all_text_example :
    Captures
      (concat (codes "ab" ∷ codes "cde" ∷ []))
      (write_all (codes "ab" ∷ codes "cde" ∷ []) no_output)
write_all_text_example = write_all_text (codes "ab" ∷ codes "cde" ∷ [])

-- The state lists the outputs that were set; an output without a name fails.
abbrev set : Bytes → Bool → List (Bytes × Bool) → Option Bytes × List (Bytes × Bool)
set [] value s = (some (codes "no output"), s)
set (c ∷ name) value s = (none, (c ∷ name, value) ∷ s)

abbrev pub targets : Targets (List (Bytes × Bool))
targets = record {
  is_done = λ s. false;
  set_output = set;
  publish = λ topic payload qos retain s. (none, s);
  run_command = λ action s. (none, s);
  delay = λ raw s. (none, s);
}

abbrev pub switch_gpio : Bytes → Action
switch_gpio name = record {
  kind = codes "gpio";
  gpio = name;
  value = some true;
  command = [];
  args = [];
  working_dir = [];
  env = [];
  timeout = [];
  duration = [];
  topic = [];
  payload = [];
  qos = none;
  retain = false;
  ignore_error = false;
}

abbrev first : List Action
first = switch_gpio (codes "lamp") ∷ switch_gpio [] ∷ []

abbrev second : List Action
second = switch_gpio (codes "fan") ∷ []

execute-Traced_example :
    Traced targets minimal 0 (first ++ second) [] (execute targets minimal (first ++ second) [])
execute-Traced_example = execute-Traced targets minimal (first ++ second) []

-- The second action fails, and the third does not run.
execute_stops :
    execute targets minimal (first ++ second) []
    ≡ (failed_at 1 (failed (codes "no output")), (codes "lamp", true) ∷ [])
unfolding execute execute_from execute_one same
execute_stops = refl
