-- ===== src/Action/Command/Reaping.antt =====
-- No command leaves a process or an open file behind.
use mqtt_raspberry_controlle.Base.{
  Bool, false, not, some, ◌||◌, List, Bytes, ◌≡◌, ◌∙◌, arith, Bool-cases, Option-cases, inl, inr,
}
use mqtt_raspberry_controlle.Base.Int.{ℤ}
use mqtt_raspberry_controlle.Base.Result.{Result-cases}
use mqtt_raspberry_controlle.Config.{Action}
use mqtt_raspberry_controlle.Config.Outside.{is_executable}
use mqtt_raspberry_controlle.Config.Paths.{is_abs}
use mqtt_raspberry_controlle.Config.Defaults.{command_timeout}
use mqtt_raspberry_controlle.Action.Environment.{minimal_environment}
use mqtt_raspberry_controlle.Action.Command.{
  Process, StartError, bind_command_executable, terminate_command_group, exited, interrupted,
  follow, run_bound, run_command,
}

-- What the operations do to the child process that is not waited for, and to the open executable: a wait
-- ends the one, a close the other; a start that fails leaves no child, an open that fails no file; and
-- nothing else opens a file.
pub record Laws {S : Type 0} (process : Process S) (alive holding : S → Bool) : Type 0 where
  pub timeout_alive : (d : ℤ) (s : S) → alive (process.with_timeout d s) ≡ alive s
  pub timeout_holding : (d : ℤ) (s : S) → holding (process.with_timeout d s) ≡ holding s
  pub open_alive : (p : Bytes) (s : S) → alive (process.open_executable p s).1 ≡ alive s
  pub open_failed :
      (p : Bytes) (e : StartError) (s : S)
      → (process.open_executable p s).0 ≡ some e
      → holding (process.open_executable p s).1 ≡ holding s
  pub close_alive : (s : S) → alive (process.close_executable s) ≡ alive s
  pub close_holding : (s : S) → holding (process.close_executable s) ≡ false
  pub start_failed :
      (c : Bytes) (args : List Bytes) (dir : Bytes) (env : List Bytes) (e : StartError) (s : S)
      → (process.start c args dir env s).0 ≡ some e
      → alive (process.start c args dir env s).1 ≡ alive s
  pub wait_alive : (s : S) → alive (process.wait s).1 ≡ false

module _ {S : Type 0} (process : Process S) (alive holding : S → Bool)
    (laws : Laws process alive holding) where
  -- No child, and no open file.
  abbrev Clean : S → Type 0
  Clean s = (alive s ≡ false) × (holding s ≡ false)

  bind_failed :
      (path : Bytes) (e : StartError) (s : S)
      → Clean s
      → (bind_command_executable process path s).0 ≡ some e
      → Clean (bind_command_executable process path s).1
  unfolding bind_command_executable
  bind_failed path _ s (a, o) h =
      let s1 = (process.open_executable path s).1 in
      let a1 = laws.open_alive path s ∙ a in
      let closed : Clean (process.close_executable s1) =
        (laws.close_alive s1 ∙ a1, laws.close_holding s1) in
      elim (Option-cases (process.open_executable path s).0) [
        | inr (cause, e) ↦ rw (bind_command_executable, e) (a1, laws.open_failed path cause s e ∙ o)
        | inl e ↦ elim (Result-cases (process.stat_executable s1)) [
          | inl (cause, e1) ↦ rw (bind_command_executable, e, e1) closed
          | inr (info, e1) ↦ elim (Bool-cases (not info.is_regular || not (is_executable info))) [
            | inl e2 ↦ rw (bind_command_executable, e, e1, e2) closed
            | inr e2 ↦ absurd (ground (arith, rw (bind_command_executable, e, e1, e2) at h))
          ]
        ]
      ]

  bind_alive :
      (path : Bytes) (s : S)
      → alive s ≡ false
      → alive (bind_command_executable process path s).1 ≡ false
  unfolding bind_command_executable
  bind_alive path s a =
      let s1 = (process.open_executable path s).1 in
      let a1 = laws.open_alive path s ∙ a in
      let closed = laws.close_alive s1 ∙ a1 in
      elim (Option-cases (process.open_executable path s).0) [
        | inr (cause, e) ↦ rw (bind_command_executable, e) a1
        | inl e ↦ elim (Result-cases (process.stat_executable s1)) [
          | inl (cause, e1) ↦ rw (bind_command_executable, e, e1) closed
          | inr (info, e1) ↦ elim (Bool-cases (not info.is_regular || not (is_executable info))) [
            | inl e2 ↦ rw (bind_command_executable, e, e1, e2) closed
            | inr e2 ↦ rw (bind_command_executable, e, e1, e2) a1
          ]
        ]
      ]

  follow_alive : (s : S) → alive (follow process s).1 ≡ false
  unfolding follow exited interrupted
  follow_alive s = elim (Bool-cases (process.exits_first s).0) [
    | inl e ↦ rw e (laws.wait_alive (process.exits_first s).1)
    | inr e ↦ rw e (laws.wait_alive (terminate_command_group process (process.exits_first s).1).1)
  ]

  run_bound-Clean :
      (action : Action) (s : S) → alive s ≡ false → Clean (run_bound process action s).1
  unfolding run_bound
  run_bound-Clean action s a =
      let env = minimal_environment action.env in
      let (started, s1) = process.start action.command action.args action.working_dir env s in
      elim (Option-cases started) [
        | inr (error, e) ↦
            rw (run_bound, e)
              (
                laws.close_alive s1
                    ∙ (laws.start_failed action.command action.args action.working_dir env error s e
                        ∙ a),
                laws.close_holding s1,
              )
        | inl e ↦
            rw (run_bound, e)
              (
                laws.close_alive (follow process s1).1 ∙ follow_alive s1,
                laws.close_holding (follow process s1).1,
              )
      ]

  -- However a command ends, by itself, by its time-out, by cancellation or by an error before its start,
  -- the process that was started has been waited for, and its executable is closed, if neither was open
  -- before.
  pub run_command-Clean :
      (action : Action) (s : S)
      → alive s ≡ false
      → holding s ≡ false
      → (alive (run_command process action s).1 ≡ false)
        × (holding (run_command process action s).1 ≡ false)
  unfolding run_command
  run_command-Clean action s a o = elim (Bool-cases (is_abs action.command)) [
    | inr e ↦ rw e (a, o)
    | inl e ↦
        let d = command_timeout process.parse_duration action in
        let s1 = process.with_timeout d s in
        let a1 = laws.timeout_alive d s ∙ a in
        let o1 = laws.timeout_holding d s ∙ o in
        elim (Option-cases (process.context_error s1)) [
          | inr (c, e1) ↦ rw (e, e1) (a1, o1)
          | inl e1 ↦ elim (Option-cases (bind_command_executable process action.command s1).0) [
            | inr (error, e2) ↦
                rw (run_command, e, e1, e2) (bind_failed action.command error s1 (a1, o1) e2)
            | inl e2 ↦
                rw (run_command, e, e1, e2)
                  (run_bound-Clean action (bind_command_executable process action.command s1).1
                    (bind_alive action.command s1 a1))
          ]
        ]
  ]
