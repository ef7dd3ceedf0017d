-- ===== src/Action/Sequence/Trace.antt =====
-- How a sequence of actions ends, and what it has done until then.
use mqtt_raspberry_controlle.Base.{
  ℕ, ◌+◌, Bool, true, false, Option, none, some, List, [], ◌∷◌, ◌++◌, length, ◌≡◌, ◌≢◌, refl, sym,
  subst, ap, ◌⊎◌, inl, inr, arith, Bool-cases, if◌then◌else◌,
}
use mqtt_raspberry_controlle.Config.{Config, Action}
use mqtt_raspberry_controlle.Action.Sequence.{
  Targets, Outcome, ActionError, context_done, failed, unsupported, nil_value, completed, cancelled,
  panicked, failed_at, execute, execute_from, one_round, go_on, verdict, execute_one,
}

module _ {S : Type 0} (targets : Targets S) (cfg : Config) where
  -- The state behind some actions that are all run.
  unfoldable pub after : List Action → S → S
  after [] s = s
  after (action ∷ actions) s = after actions (execute_one targets cfg action s).1

  -- An action that does not stop the sequence: it works, or it fails and says that this is ignored.
  abbrev pub Passes : Action → S → Type 0
  Passes action s =
      (targets.is_done s ≡ false)
      × (((execute_one targets cfg action s).0 ≡ none)
          ⊎ ((e : ActionError) × ((execute_one targets cfg action s).0 ≡ some e)
              × (e ≢ nil_value)
              × (action.ignore_error ≡ true)))

  abbrev pub AllPass : List Action → S → Type 0
  AllPass [] s = Unit {0}
  AllPass (action ∷ actions) s =
      Passes action s × AllPass actions (execute_one targets cfg action s).1

  -- How it goes at the rest, of which the first action has the index `i`, in the state `s`; `s'` is the
  -- state at the end.
  abbrev pub Ends : ℕ → List Action → S → Outcome → S → Type 0
  Ends i rest s completed s' = (rest ≡ []) × (s' ≡ s)
  Ends i rest s cancelled s' = (rest ≢ []) × (targets.is_done s ≡ true) × (s' ≡ s)
  Ends i rest s panicked s' =
      (action : Action) × (later : List Action) × (rest ≡ action ∷ later)
      × (targets.is_done s ≡ false)
      × (execute_one targets cfg action s ≡ (some nil_value, s'))
  Ends i rest s (failed_at j e) s' =
      (action : Action) × (later : List Action) × (rest ≡ action ∷ later)
      × (j ≡ i)
      × (targets.is_done s ≡ false)
      × (action.ignore_error ≡ false)
      × (e ≢ nil_value)
      × (execute_one targets cfg action s ≡ (some e, s'))

  pub record Traced (i : ℕ) (actions : List Action) (s : S) (result : Outcome × S) : Type 0 where
    pub before : List Action
    pub rest : List Action
    pub parts : actions ≡ before ++ rest
    pub passed : AllPass before s
    pub ended : Ends (i + length before) rest (after before s) result.0 result.1

  -- What one round of the loop does.
  abbrev Round : ℕ → Action → S → Outcome × S → Type 0
  Round i action s (completed, s') = Passes action s × (s' ≡ (execute_one targets cfg action s).1)
  Round i action s (cancelled, s') = (targets.is_done s ≡ true) × (s' ≡ s)
  Round i action s (panicked, s') =
      (targets.is_done s ≡ false) × (execute_one targets cfg action s ≡ (some nil_value, s'))
  Round i action s (failed_at j e, s') =
      (j ≡ i)
      × (targets.is_done s ≡ false)
      × (action.ignore_error ≡ false)
      × (e ≢ nil_value)
      × (execute_one targets cfg action s ≡ (some e, s'))

  failed-Round :
      (i : ℕ) (action : Action) (e : ActionError) (s s1 : S)
      → e ≢ nil_value
      → targets.is_done s ≡ false
      → execute_one targets cfg action s ≡ (some e, s1)
      → (ignores : Bool) → action.ignore_error ≡ ignores
      → Round i action s (if ignores then completed else failed_at i e, s1)
  failed-Round i action e s s1 other going ran true h =
      ((going, inr (e, ap (λ r. r.0) ran, other, h)), sym (ap (λ r. r.1) ran))
  failed-Round i action e s s1 other going ran false h = (refl, going, h, other, ran)

  verdict-Round :
      (i : ℕ) (action : Action) (s : S) (r : Option ActionError × S)
      → targets.is_done s ≡ false
      → execute_one targets cfg action s ≡ r
      → Round i action s (verdict targets cfg i action r.0, r.1)
  unfolding verdict
  verdict-Round i action s (none, s1) going ran =
      ((going, inl (ap (λ r. r.0) ran)), sym (ap (λ r. r.1) ran))
  verdict-Round i action s (some nil_value, s1) going ran = (going, ran)
  verdict-Round i action s (some context_done, s1) going ran =
      failed-Round i action context_done s s1 (λ h. cc) going ran _ refl
  verdict-Round i action s (some (failed text), s1) going ran =
      failed-Round i action (failed text) s s1 (λ h. cc) going ran _ refl
  verdict-Round i action s (some (unsupported kind), s1) going ran =
      failed-Round i action (unsupported kind) s s1 (λ h. cc) going ran _ refl

  one_round-Round :
      (i : ℕ) (action : Action) (s : S) → Round i action s (one_round targets cfg i action s)
  unfolding one_round
  one_round-Round i action s = elim (Bool-cases (targets.is_done s)) [
    | inl e ↦ rw (one_round, e) (e, refl)
    | inr e ↦ rw (one_round, e) (verdict-Round i action s (execute_one targets cfg action s) e refl)
  ]

  -- The loop behind one round.
  go_on-Traced :
      (i : ℕ) (action : Action) (actions : List Action) (s : S) (rest : S → Outcome × S)
      (x : Outcome × S)
      → Round i action s x
      → ((s1 : S) → Traced (i + 1) actions s1 (rest s1))
      → Traced i (action ∷ actions) s (go_on targets cfg rest x)
  unfolding go_on after
  go_on-Traced i action actions s rest (completed, s1) (passes, e) later =
      let s2 = (execute_one targets cfg action s).1 in
      let t = later s2 in
      let j : i + 1 + length t.before ≡ i + length (action ∷ t.before) = omega arith in
      rw e (record {
        before = action ∷ t.before;
        rest = t.rest;
        parts = ap (λ l. action ∷ l) t.parts;
        passed = (passes, t.passed);
        ended = subst (λ n. Ends n t.rest (after t.before s2) (rest s2).0 (rest s2).1) j t.ended;
      })
  go_on-Traced i action actions s rest (cancelled, s1) (done, e) later = record {
    before = [];
    rest = action ∷ actions;
    parts = refl;
    passed = tt;
    ended = ((λ h. cc), done, e);
  }
  go_on-Traced i action actions s rest (panicked, s1) (going, ran) later = record {
    before = [];
    rest = action ∷ actions;
    parts = refl;
    passed = tt;
    ended = (action, actions, refl, going, ran);
  }
  go_on-Traced i action actions s rest (failed_at j e, s1) (at, going, counts, other, ran) later =
      record {
        before = [];
        rest = action ∷ actions;
        parts = refl;
        passed = tt;
        ended = (action, actions, refl, omega (arith, at), going, counts, other, ran);
      }

  execute_from-Traced :
      (i : ℕ) (actions : List Action) (s : S)
      → Traced i actions s (execute_from targets cfg i actions s)
  unfolding execute_from after
  execute_from-Traced i [] s = record {
    before = [];
    rest = [];
    parts = refl;
    passed = tt;
    ended = (refl, refl);
  }
  execute_from-Traced i (action ∷ actions) s =
      go_on-Traced i action actions s (execute_from targets cfg (i + 1) actions)
        (one_round targets cfg i action s) (one_round-Round i action s)
        (execute_from-Traced (i + 1) actions)

  -- However `Execute` ends, its actions fall into two parts. Those of the first ran one behind the other,
  -- each with the context not done, and each worked, or failed with an error that it ignores. No error:
  -- there is no second part. The context's own error: the second part is not empty, and the context was
  -- done in the state that the first one left. Otherwise the first action of the second part ran in that
  -- state, with the context not done: its error comes with its index among all actions and is not
  -- ignored; or it read a nil pointer. Nothing else ran, and its state is the last.
  pub execute-Traced :
      (actions : List Action) (s : S) → Traced 0 actions s (execute targets cfg actions s)
  unfolding execute
  execute-Traced actions s = execute_from-Traced 0 actions s
