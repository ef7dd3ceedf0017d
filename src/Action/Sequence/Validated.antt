-- ===== src/Action/Sequence/Validated.antt =====
-- Actions that `validateActions` lets through: what cannot happen when they run.
use mqtt_raspberry_controlle.Base.{
  ℕ, ◌+◌, Bool, true, false, Option, none, some, List, [], ◌∷◌, Bytes, codes, same, ◌≡◌, refl,
  arith, Bool-cases, Option-cases, inl, inr,
}
use mqtt_raspberry_controlle.Base.Checks.{Passed, first_error-Passed, not_failed}
use mqtt_raspberry_controlle.Config.{Config, Action}
use mqtt_raspberry_controlle.Config.Defaults.{mqtt_qos}
use mqtt_raspberry_controlle.Config.Outside.{Outside}
use mqtt_raspberry_controlle.Config.Validation.Errors.{Place, action_at}
use mqtt_raspberry_controlle.Config.Validation.Actions.{
  validate_actions_from, validate_action, validate_actions, gpio_check, is_nil,
}
use mqtt_raspberry_controlle.Action.Sequence.{
  Targets, Outcome, completed, cancelled, panicked, failed_at, ActionError, context_done, failed,
  unsupported, nil_value, execute, execute_from, one_round, go_on, verdict, execute_one, with_error,
  to_error,
}

-- An error of an operation, not of the configuration.
unfoldable pub is_operational : Option ActionError → Bool
is_operational (some (unsupported _)) = false
is_operational (some nil_value) = false
is_operational _ = true

-- No panic, and no failure but that of an operation.
unfoldable pub is_regular_outcome : Outcome → Bool
unfolding is_operational
is_regular_outcome panicked = false
is_regular_outcome (failed_at i e) = is_operational (some e)
is_regular_outcome _ = true

module _ {S : Type 0} (targets : Targets S) (o : Outside) (c : Config) where
  with_error_operational : (r : Option Bytes × S) → is_operational (with_error targets c r).0 ≡ true
  unfolding with_error to_error is_operational
  with_error_operational (none, s) = refl
  with_error_operational (some e, s) = refl

  gpio_operational :
      (name : Place) (action : Action) (s : S)
      → same action.kind (codes "gpio") ≡ true
      → Passed (gpio_check o name c action)
      → is_operational (execute_one targets c action s).0 ≡ true
  unfolding gpio_check execute_one is_nil
  gpio_operational name action s gpio h =
      let given = not_failed _ _ (first_error-Passed _ h).1.0 in
      elim (Option-cases action.value) [
        | inl e ↦ absurd (ground (arith, given, e))
        | inr (value, e) ↦
            rw (execute_one, gpio, e)
              (with_error_operational (targets.set_output action.gpio value s))
      ]

  execute_one_operational :
      (name : Place) (action : Action) (s : S)
      → Passed (validate_action o name c action)
      → is_operational (execute_one targets c action s).0 ≡ true
  unfolding validate_action execute_one
  execute_one_operational name action s h = elim (Bool-cases (same action.kind (codes "gpio"))) [
    | inl gpio ↦ gpio_operational name action s gpio (rw gpio at h)
    | inr e1 ↦ elim (Bool-cases (same action.kind (codes "command"))) [
      | inl e ↦ rw (execute_one, e1, e) (with_error_operational (targets.run_command action s))
      | inr e2 ↦ elim (Bool-cases (same action.kind (codes "delay"))) [
        | inl e ↦
            rw (execute_one, e1, e2, e) (with_error_operational (targets.delay action.duration s))
        | inr e3 ↦ elim (Bool-cases (same action.kind (codes "mqtt"))) [
          | inl e ↦
              rw (execute_one, e1, e2, e3, e)
                (with_error_operational (
                  targets.publish action.topic action.payload
                    (elim action.qos [ none ↦ mqtt_qos c | some q ↦ q ]) action.retain s))
          | inr e4 ↦ absurd (ground (arith, rw (e1, e2, e3, e4) at h))
        ]
      ]
    ]
  ]

  verdict_regular :
      (i : ℕ) (action : Action) (e : Option ActionError)
      → is_operational e ≡ true
      → is_regular_outcome (verdict targets c i action e) ≡ true
  unfolding verdict is_regular_outcome is_operational
  verdict_regular i action none h = refl
  verdict_regular i action (some context_done) h = ground arith
  verdict_regular i action (some (failed e)) h = ground arith
  verdict_regular i action (some (unsupported k)) h = cc
  verdict_regular i action (some nil_value) h = cc

  go_on_regular :
      (rest : S → Outcome × S) (x : Outcome × S)
      → is_regular_outcome x.0 ≡ true
      → ((s : S) → is_regular_outcome (rest s).0 ≡ true)
      → is_regular_outcome (go_on targets c rest x).0 ≡ true
  unfolding go_on
  go_on_regular rest (completed, s) h later = later s
  go_on_regular rest (cancelled, s) h later = h
  go_on_regular rest (panicked, s) h later = h
  go_on_regular rest (failed_at i e, s) h later = h

  one_round_regular :
      (i : ℕ) (name : Place) (action : Action) (s : S)
      → Passed (validate_action o name c action)
      → is_regular_outcome (one_round targets c i action s).0 ≡ true
  unfolding one_round
  one_round_regular i name action s h = elim (Bool-cases (targets.is_done s)) [
    | inl e ↦ rw (one_round, e) (unfold is_regular_outcome in refl)
    | inr e ↦
        rw (one_round, e)
          (verdict_regular i action (execute_one targets c action s).0
            (execute_one_operational name action s h))
  ]

  execute_from_regular :
      (i : ℕ) (context : Bytes) (actions : List Action) (s : S)
      → Passed (validate_actions_from o c context i actions)
      → is_regular_outcome (execute_from targets c i actions s).0 ≡ true
  unfolding execute_from validate_actions_from
  execute_from_regular i context [] s h = unfold is_regular_outcome in refl
  execute_from_regular i context (action ∷ actions) s h =
      let checks = first_error-Passed _ h in
      go_on_regular (execute_from targets c (i + 1) actions) (one_round targets c i action s)
        (one_round_regular i (action_at context i) action s checks.0)
        (λ s1. execute_from_regular (i + 1) context actions s1 checks.1.0)

  -- Actions that `validateActions` lets through never read a nil pointer and are never of an unsupported
  -- type when they run: they complete, or are cancelled, or one of them fails with the error of its
  -- operation.
  pub execute_regular :
      (context : Bytes) (actions : List Action) (s : S)
      → Passed (validate_actions o c context actions)
      → is_regular_outcome (execute targets c actions s).0 ≡ true
  unfolding execute validate_actions
  execute_regular context actions s h = execute_from_regular 0 context actions s h
