-- ===== src/Action/Sequence.antt =====
-- action/executor.go: `Execute` and `executeOne`. The state `S` is that of the components which the
-- actions act on.
pub mod Validated
pub mod Trace
use mathlib.Core.Path.{fun_ext}
use mqtt_raspberry_controlle.Base.{
  ℕ, ◌+◌, Bool, Option, none, some, List, [], ◌∷◌, ◌++◌, Bytes, codes, same, if◌then◌else◌, ◌≡◌,
  refl, ap, ◌∙◌, arith, length, true, false, same_refl,
}
use mqtt_raspberry_controlle.Config.{Config, Action}
use mqtt_raspberry_controlle.Config.Defaults.{mqtt_qos}

-- The error of a context that is done; one of an operation; an action of an unknown type; and an
-- action whose nil pointer is read, which stops the program.
pub data ActionError : Type 0 where
  context_done : ActionError
  failed : Bytes → ActionError
  unsupported : Bytes → ActionError
  nil_value : ActionError

-- gpioOutput and mqttPublisher, the context, and the two operations `executeCommand` and `executeDelay`;
-- `none` is no error.
pub record Targets (S : Type 0) : Type 0 where
  pub is_done : S → Bool
  pub set_output : Bytes → Bool → S → Option Bytes × S
  pub publish : Bytes → Bytes → ℕ → Bool → S → Option Bytes × S
  pub run_command : Action → S → Option Bytes × S
  pub delay : Bytes → S → Option Bytes × S

-- What Execute returns: no error, the error of the action at an index, the context's own error, or no
-- result at all.
pub data Outcome : Type 0 where
  completed cancelled panicked : Outcome
  failed_at : ℕ → ActionError → Outcome

to_error : Option Bytes → Option ActionError
to_error none = none
to_error (some e) = some (failed e)

module _ {S : Type 0} (targets : Targets S) (cfg : Config) where
  with_error : Option Bytes × S → Option ActionError × S
  unfolding to_error
  with_error (e, s) = (to_error e, s)

  unfoldable pub execute_one : Action → S → Option ActionError × S
  unfolding with_error
  execute_one action s =
      if same action.kind (codes "gpio")
      then elim action.value [
        | none ↦ (some nil_value, s)
        | some value ↦ with_error (targets.set_output action.gpio value s)
      ]
      else if same action.kind (codes "command")
      then with_error (targets.run_command action s)
      else if same action.kind (codes "delay")
      then with_error (targets.delay action.duration s)
      else if same action.kind (codes "mqtt")
      then with_error (
          targets.publish action.topic action.payload
            (elim action.qos [ none ↦ mqtt_qos cfg | some q ↦ q ]) action.retain s)
      else (some (unsupported action.kind), s)

  -- Whether the loop goes on behind an action.
  verdict : ℕ → Action → Option ActionError → Outcome
  verdict i action none = completed
  verdict i action (some nil_value) = panicked
  verdict i action (some e) = if action.ignore_error then completed else failed_at i e

  unfoldable pub go_on : (S → Outcome × S) → Outcome × S → Outcome × S
  go_on rest (completed, s) = rest s
  go_on rest (outcome, s) = (outcome, s)

  one_round : ℕ → Action → S → Outcome × S
  unfolding verdict
  one_round i action s =
      if targets.is_done s
      then (cancelled, s)
      else (let (error, s1) = execute_one action s in (verdict i action error, s1))

  unfoldable pub execute_from : ℕ → List Action → S → Outcome × S
  unfolding one_round go_on
  execute_from i [] s = (completed, s)
  execute_from i (action ∷ actions) s = go_on (execute_from (i + 1) actions) (one_round i action s)

  unfoldable pub execute : List Action → S → Outcome × S
  unfolding execute_from
  execute actions s = execute_from 0 actions s

  go_on-go_on :
      (rest after : S → Outcome × S) (x : Outcome × S)
      → go_on (λ s. go_on after (rest s)) x ≡ go_on after (go_on rest x)
  unfolding go_on
  go_on-go_on rest after (completed, s) = refl
  go_on-go_on rest after (cancelled, s) = refl
  go_on-go_on rest after (panicked, s) = refl
  go_on-go_on rest after (failed_at i e, s) = refl

  execute_from-append :
      (first second : List Action) (i : ℕ) (s : S)
      → execute_from i (first ++ second) s
        ≡ go_on (execute_from (i + length first) second) (execute_from i first s)
  unfolding execute_from go_on
  execute_from-append [] second i s = ap (λ n. execute_from n second s) (omega arith)
  execute_from-append (action ∷ first) second i s =
      let later : i + 1 + length first ≡ i + length (action ∷ first) = omega arith in
      ap (λ f. go_on f (one_round i action s))
        (fun_ext λ s1.
          execute_from-append first second (i + 1) s1
          ∙ ap (λ n. go_on (execute_from n second) (execute_from (i + 1) first s1)) later)
      ∙ go_on-go_on (execute_from (i + 1) first) (execute_from (i + length (action ∷ first)) second)
          (one_round i action s)

  -- Actions behind others run if those completed, a failure that an action ignores
  -- included, in the state that they left and counted on from them; behind a failure, a
  -- cancellation or a panic none of them runs, and the outcome is the earlier one.
  pub execute-append :
      (first second : List Action) (s : S)
      → let (outcome, s1) = execute first s in
        execute (first ++ second) s ≡ go_on (execute_from (length first) second) (outcome, s1)
  unfolding execute
  execute-append first second s =
      let all : 0 + length first ≡ length first = omega arith in
      execute_from-append first second 0 s
      ∙ ap (λ n. go_on (execute_from n second) (execute_from 0 first s)) all

  -- One gpio action whose operation works.
  pub execute_from_gpio :
      (i : ℕ) (action : Action) (value : Bool) (s : S)
      → targets.is_done s ≡ false
      → action.kind ≡ codes "gpio"
      → action.value ≡ some value
      → (targets.set_output action.gpio value s).0 ≡ none
      → execute_from i (action ∷ []) s ≡ (completed, (targets.set_output action.gpio value s).1)
  unfolding execute_from one_round execute_one verdict go_on with_error to_error
  execute_from_gpio i action value s going kind given works =
      rw (going, kind, same_refl (codes "gpio"), given, works) refl
