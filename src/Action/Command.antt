-- ===== src/Action/Command.antt =====
-- action/executor.go: `runCommand`, `executeCommand` and `executeDelay`; action/process_linux.go: the start
-- and the end of a process. The system calls, the context and the process are operations on a state `S`.
pub mod Reaping
use mqtt_raspberry_controlle.Base.{
  ℕ, suc, ◌+◌, Bool, true, false, not, ◌||◌, Option, none, some, List, Bytes, if◌then◌else◌, length,
  ltb, ◌≡◌, refl, arith, Bool-cases, Option-cases, inl, inr,
}
use mqtt_raspberry_controlle.Base.Int.{ℤ}
use mqtt_raspberry_controlle.Base.Result.{Result, ok, err}
use mqtt_raspberry_controlle.Config.{Action}
use mqtt_raspberry_controlle.Config.Defaults.{command_timeout}
use mqtt_raspberry_controlle.Config.Outside.{FileInfo, is_executable}
use mqtt_raspberry_controlle.Config.Paths.{is_abs}
use mqtt_raspberry_controlle.Action.Output.{BoundedOutput}
use mqtt_raspberry_controlle.Action.Environment.{minimal_environment}

pub data ContextError : Type 0 where
  deadline_exceeded context_canceled : ContextError

-- What kill says; `no_process` is ESRCH.
pub data Kill : Type 0 where
  delivered no_process : Kill
  kill_failed : Bytes → Kill

-- What an error of a start wraps: an os.PathError or an exec.Error, with its cause, or neither.
pub data StartError : Type 0 where
  path_error exec_error : Bytes → StartError
  other_error : StartError

-- `with_timeout` makes the context that `context_error` asks; `none` is no error. `exits_first` waits in
-- the `select` and says whether the case of the exit was chosen. `start` takes the command, its
-- arguments, directory and environment. `kill` signals the group, with SIGKILL where it is forced.
pub record Process (S : Type 0) : Type 0 where
  pub parse_duration : Bytes → Option ℤ
  pub with_timeout : ℤ → S → S
  pub context_error : S → Option ContextError
  pub open_executable : Bytes → S → Option StartError × S
  pub stat_executable : S → Result StartError FileInfo
  pub close_executable : S → S
  pub start : Bytes → List Bytes → Bytes → List Bytes → S → Option StartError × S
  pub exits_first : S → Bool × S
  pub wait : S → Option Bytes × S
  pub kill : Bool → S → Kill × S
  pub grace : S → S
  pub output : S → BoundedOutput
  -- the `select` of executeDelay: whether the context was done
  pub sleep : ℤ → S → Bool × S

pub record OutputStats : Type 0 where
  pub total : ℕ
  pub captured : ℕ
  pub truncated : Bool

pub data CommandError : Type 0 where
  relative_path : CommandError
  cannot_start : Option Bytes → CommandError
  timed_out canceled : OutputStats → CommandError
  command_failed : OutputStats → Bytes → CommandError
  not_terminated : Bytes → CommandError → CommandError

unfoldable pub snapshot : BoundedOutput → OutputStats
snapshot w = record { total = w.total; captured = length w.content; truncated = w.truncated }

abbrev pub no_stats : OutputStats
no_stats = record { total = 0; captured = 0; truncated = false }

command_context_error : Option ContextError → OutputStats → CommandError
command_context_error (some deadline_exceeded) stats = timed_out stats
command_context_error _ stats = canceled stats

-- The cause without the path; `none` is "unavailable".
unfoldable pub sanitize_start_error : StartError → CommandError
sanitize_start_error (path_error cause) = cannot_start (some cause)
sanitize_start_error (exec_error cause) = cannot_start (some cause)
sanitize_start_error other_error = cannot_start none

module _ {S : Type 0} (process : Process S) where
  -- bindCommandExecutable
  unfoldable pub bind_command_executable : Bytes → S → Option StartError × S
  bind_command_executable path s =
      let (opened, s1) = process.open_executable path s in
      elim opened [
        | some e ↦ (some e, s1)
        | none ↦ elim (process.stat_executable s1) [
          | err e ↦ (some e, process.close_executable s1)
          | ok info ↦
              if not info.is_regular || not (is_executable info)
              then (some other_error, process.close_executable s1)
              else (none, s1)
        ]
      ]

  kill_error : Kill → Option Bytes
  kill_error delivered = none
  kill_error no_process = none
  kill_error (kill_failed e) = some e

  unfoldable pub signal_command_group : Bool → S → Option Bytes × S
  unfolding kill_error
  signal_command_group force s = let (k, s1) = process.kill force s in (kill_error k, s1)

  unfoldable pub terminate_command_group : S → Option Bytes × S
  terminate_command_group s =
      let (e, s1) = signal_command_group false s in
      elim e [ some text ↦ (some text, s1) | none ↦ signal_command_group true (process.grace s1) ]

  -- The case `<-waiter.done`.
  exited : S → (OutputStats × Option CommandError) × S
  unfolding command_context_error
  exited s =
      let (e, s1) = process.wait s in
      let stats = snapshot (process.output s1) in
      let error : Option CommandError = elim (process.context_error s1) [
        | some c ↦ some (command_context_error (some c) stats)
        | none ↦ elim e [ some text ↦ some (command_failed stats text) | none ↦ none ]
      ] in
      ((stats, error), s1)

  -- The case `<-ctx.Done()`.
  interrupted : S → (OutputStats × Option CommandError) × S
  unfolding command_context_error
  interrupted s =
      let (failed, s1) = terminate_command_group s in
      let s2 = (process.wait s1).1 in
      let stats = snapshot (process.output s2) in
      let error = command_context_error (process.context_error s2) stats in
      ((stats, some (elim failed [ some e ↦ not_terminated e error | none ↦ error ])), s2)

  -- Behind cmd.Start.
  follow : S → (OutputStats × Option CommandError) × S
  unfolding exited interrupted
  follow s = let (exit, s1) = process.exits_first s in if exit then exited s1 else interrupted s1

  -- Behind bindCommandExecutable; the descriptor is closed at the end.
  run_bound : Action → S → (OutputStats × Option CommandError) × S
  unfolding follow
  run_bound action s =
      let (started, s1) =
        process.start action.command action.args action.working_dir (minimal_environment action.env)
          s in
      elim started [
        | some e ↦ (
          (snapshot (process.output s1), some (sanitize_start_error e)),
          process.close_executable s1,
        )
        | none ↦ let (r, s2) = follow s1 in (r, process.close_executable s2)
      ]

  unfoldable pub run_command : Action → S → (OutputStats × Option CommandError) × S
  unfolding run_bound command_context_error
  run_command action s =
      if not (is_abs action.command)
      then ((no_stats, some relative_path), s)
      else (let s1 = process.with_timeout (command_timeout process.parse_duration action) s in
          elim (process.context_error s1) [
            | some e ↦ ((no_stats, some (command_context_error (some e) no_stats)), s1)
            | none ↦
                let (bound, s2) = bind_command_executable action.command s1 in
                elim bound [
                  | some e ↦ ((no_stats, some (sanitize_start_error e)), s2)
                  | none ↦ run_bound action s2
                ]
          ])

  -- A line is logged for a command that wrote something.
  pub execute_command : Action → S → Option CommandError × S
  execute_command action s = let ((stats, e), s1) = run_command action s in (e, s1)

  -- `some none` is a duration that does not parse.
  pub execute_delay : Bytes → S → Option (Option ContextError) × S
  execute_delay raw s = elim (process.parse_duration raw) [
    | none ↦ (some none, s)
    | some duration ↦
        let (done, s1) = process.sleep duration s in
        (if done then some (process.context_error s1) else none, s1)
  ]
