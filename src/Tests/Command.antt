-- ===== src/Tests/Command.antt =====
-- A command on a host with one process, its environment, and the start of the service.
use mqtt_raspberry_controlle.Base.{
  Bool, true, false, none, [], ◌∷◌, codes, contains, contains_byte, same, List, All, length, ◌≤◌,
  ◌⊎◌, ◌≡◌, refl,
}
use mqtt_raspberry_controlle.Base.Dict.{keys, lookup}
use mqtt_raspberry_controlle.Base.Result.{ok}
use mqtt_raspberry_controlle.Config.{Action}
use mqtt_raspberry_controlle.Config.Outside.{FileInfo}
use mqtt_raspberry_controlle.Action.Output.{no_output}
use mqtt_raspberry_controlle.Action.Environment.{
  minimal_environment, fixed_environment, getenv, either_value, getenv-minimal_environment,
}
use mqtt_raspberry_controlle.Action.Control.{
  Move, exits, takes_number, context_ends, observes, goes_on, exit_seen, started, command_group,
  stranger, is_reaped,
}
use mqtt_raspberry_controlle.Action.Control.Linux
use mqtt_raspberry_controlle.Action.Control.Ownership.{Owned, run-started-Owned}
use mqtt_raspberry_controlle.Action.Control.Other
use mqtt_raspberry_controlle.Action.Control.Other.Single.{Harmless, is_finished, run-started-Single}
use mqtt_raspberry_controlle.Action.Command.{Process, delivered, run_command}
use mqtt_raspberry_controlle.Action.Command.Reaping.{Laws, run_command-Clean}
use mqtt_raspberry_controlle.Tests.Action.{switch_gpio}

abbrev program : FileInfo
program = record {
  is_regular = true;
  is_dir = false;
  permissions = 493;
  special = false;
  size = 100;
}

record Host : Type 0 where
  child : Bool
  file : Bool

abbrev host : Process Host
host = record {
  parse_duration = λ raw. none;
  with_timeout = λ d s. s;
  context_error = λ s. none;
  open_executable = λ p s. (none, record s { file = true });
  stat_executable = λ s. ok program;
  close_executable = λ s. record s { file = false };
  start = λ c args dir env s. (none, record s { child = true });
  exits_first = λ s. (false, s);
  wait = λ s. (none, record s { child = false });
  kill = λ force s. (delivered, s);
  grace = λ s. s;
  output = λ s. no_output;
  sleep = λ d s. (false, s);
}

host-Laws : Laws host (λ s. s.child) (λ s. s.file)
host-Laws = record {
  timeout_alive = λ d s. refl;
  timeout_holding = λ d s. refl;
  open_alive = λ p s. refl;
  open_failed = λ p cause s h. cc;
  close_alive = λ s. refl;
  close_holding = λ s. refl;
  start_failed = λ c args dir env e s h. cc;
  wait_alive = λ s. refl;
}

abbrev command : Action
command = record (switch_gpio []) {
  kind = codes "command";
  command = codes "/usr/bin/true";
  env = (codes "MODE", codes "night") ∷ (codes "PATH", codes "/bin") ∷ [];
}

abbrev quiet_host : Host
quiet_host = record { child = false; file = false }

run_command-Clean_example :
    ((run_command host command quiet_host).1.child ≡ false)
    × ((run_command host command quiet_host).1.file ≡ false)
run_command-Clean_example =
    run_command-Clean host (λ s. s.child) (λ s. s.file) host-Laws command quiet_host refl refl

getenv-minimal_environment_example :
    getenv (codes "PATH") (minimal_environment (command.env))
    ≡ either_value (lookup (codes "PATH") (command.env)) (lookup (codes "PATH") fixed_environment)
unfolding keys contains contains_byte same
getenv-minimal_environment_example =
    getenv-minimal_environment (command.env) (codes "PATH") (refl, (refl, tt)) (refl, (refl, tt))
      refl

-- The process ends, is waited for, and its number is taken while the context ends too.
abbrev late : List Move
late =
    exits
    ∷ observes exit_seen
    ∷ takes_number
    ∷ context_ends
    ∷ goes_on false true
    ∷ goes_on false true
    ∷ goes_on false true
    ∷ []

on_linux : (Linux.run late started).signalled ≡ command_group ∷ command_group ∷ []
unfolding Linux.run started
on_linux = refl

elsewhere : (Other.run late started).signalled ≡ stranger ∷ []
unfolding Other.run started
elsewhere = refl

run-started-Single_example :
    let h =
      Other.run (exits ∷ context_ends ∷ goes_on false true ∷ goes_on false true ∷ []) started in
    All Harmless h.signalled
    × (length h.signalled ≤ 1)
    × ((is_finished h.stage ≡ false) ⊎ (is_reaped h.child ≡ true))
unfolding Other.run started
run-started-Single_example =
    run-started-Single (exits ∷ context_ends ∷ goes_on false true ∷ goes_on false true ∷ []) refl

run-started-Owned_example : Owned (Linux.run late started)
run-started-Owned_example = run-started-Owned late
