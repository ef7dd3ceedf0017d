-- ===== src/Service/Interleaving/Invariants.antt =====
-- What every event keeps before the GPIO lines are closed, and behind that.
use mqtt_raspberry_controlle.Base.{
  true, false, not, ◌&&◌, ◌||◌, ◌==◌, List, [], ◌∷◌, All, ◌≡◌, refl, inl, inr, ◌⊎◌, ◌∙◌, arith,
  Bool-cases, if_cases,
}
use mqtt_raspberry_controlle.Controller.Shutdown.{
  Activity, begin_activity, end_activity, end_worker, begins, callback_ends, worker_ends, signalled,
  all_ended,
}
use mqtt_raspberry_controlle.Controller.Shutdown.Ending.{Sound, Change-Sound}
use mqtt_raspberry_controlle.Gpio.Lines.{Library}
use mqtt_raspberry_controlle.Gpio.{Manager}
use mqtt_raspberry_controlle.Mqtt.Client.Callbacks
use mqtt_raspberry_controlle.Mqtt.Client.Callbacks.{
  System, Step, quiet, closing, begin, end, enter_close, Inv, Step-Inv, initial-Inv, is_quiet, ends,
  closes, stops, waited, times_out,
}
use mqtt_raspberry_controlle.Service.Interleaving.{
  Process, Use, sets, reads, Event, controller_begins, controller_ends, worker_stops, signal_comes,
  all_done, client_begins, client_ends, uses, Turn, goes_on, timer_fires, offline_fails, meanwhile,
  nobody_runs, announce_end, use_line, happen, play, pass,
}

-- The invariants of the controller and of the client.
pub record Good {K L H : Type 0} (p : Process K L H) : Type 0 where
  pub sound : Sound p.activity
  pub inv : Inv p.client

announce_end-Sound : (s : Activity) → Sound s → Sound (announce_end s)
unfolding announce_end
announce_end-Sound s i = elim (Bool-cases (s.once && s.count == 0)) [
  | inl e ↦ rw e (Change-Sound _ _ (all_ended s (ground (arith, e)) (ground (arith, e))) i)
  | inr e ↦ rw e i
]

module _ {K L H : Type 0} where
  -- Nobody runs behind the waits.
  pub nobody_left :
      (p : Process K L H)
      → Good p
      → p.activity.ended ≡ true
      → p.client.phase ≡ quiet
      → nobody_runs p ≡ true
  unfolding nobody_runs is_quiet
  nobody_left p g ended phase =
      let counted = g.sound.counted in
      let (_, none_left) = g.sound.in_order ended in
      let idle = g.inv.nobody (rw phase refl) in ground (arith, counted, none_left, idle)

  -- No event undoes the end of the controller, moves Close on or replaces the manager; one that reaches
  -- a line comes from somebody who runs.
  abbrev pub Outcome : Process K L H → Process K L H → Type 0
  Outcome p q =
      (p.activity.ended ≡ true → q.activity.ended ≡ true)
      × (q.client.phase ≡ p.client.phase)
      × (q.manager ≡ p.manager)
      × (((q.hardware ≡ p.hardware) × (q.met ≡ p.met))
          ⊎ ((nobody_runs p ≡ false) × (q.met ≡ p.manager ∷ p.met)))

  unmoved : (p : Process K L H) → Outcome p p
  unmoved p = (λ h. h, refl, refl, inl (refl, refl))

  -- As long as the lines are not closed: everyone met them as they were opened.
  pub record Before (m : Manager L) (p : Process K L H) : Type 0 where
    pub good : Good p
    pub lines : p.manager ≡ m
    pub met : All (λ found. found ≡ m) p.met

  -- Behind the closing of the lines.
  pub record After (m closed : Manager L) (hw : H) (p : Process K L H) : Type 0 where
    pub good : Good p
    pub ended : p.activity.ended ≡ true
    pub at_end : p.client.phase ≡ quiet
    pub lines : p.manager ≡ closed
    pub untouched : p.hardware ≡ hw
    pub met : All (λ found. found ≡ m) p.met

module _ {C K L H : Type 0} (library : Library C L H) where
  pub happen-Good : (e : Event) (p : Process K L H) → Good p → Good (happen library e p)
  unfolding happen use_line
  happen-Good controller_begins p g = record {
    sound = Change-Sound _ _ (begins p.activity) g.sound;
    inv = g.inv;
  }
  happen-Good controller_ends p g = elim (Bool-cases (p.activity.callbacks == 0)) [
    | inl e ↦ rw e g
    | inr e ↦ rw e (record {
      sound = Change-Sound _ _ (callback_ends p.activity (ground (arith, e))) g.sound;
      inv = g.inv;
    })
  ]
  happen-Good worker_stops p g =
      elim (Bool-cases (p.activity.workers == 0 || not p.activity.cancelled)) [
        | inl e ↦ rw e g
        | inr e ↦ rw e (record {
          sound =
              Change-Sound _ _ (worker_ends p.activity (ground (arith, e)) (ground (arith, e)))
                g.sound;
          inv = g.inv;
        })
      ]
  happen-Good signal_comes p g = record {
    sound = Change-Sound _ _ (signalled p.activity) g.sound;
    inv = g.inv;
  }
  happen-Good all_done p g = record { sound = announce_end-Sound p.activity g.sound; inv = g.inv }
  happen-Good client_begins p g = record {
    sound = g.sound;
    inv = Step-Inv _ _ (Callbacks.begins p.client) g.inv;
  }
  happen-Good client_ends p g = elim (Bool-cases (p.client.running == 0)) [
    | inl e ↦ rw e g
    | inr e ↦
        rw e
          (record { sound = g.sound; inv = Step-Inv _ _ (ends p.client (ground (arith, e))) g.inv })
  ]
  happen-Good (uses u) p g = elim (Bool-cases (nobody_runs p)) [
    | inl e ↦ rw e g
    | inr e ↦ rw e (used u)
  ]
    where
      used : (u : Use) → Good (use_line library u p)
      used (sets name state) = record { sound = g.sound; inv = g.inv }
      used (reads name) = record { sound = g.sound; inv = g.inv }

  use-Outcome :
      (u : Use) (p : Process K L H) → nobody_runs p ≡ false → Outcome p (use_line library u p)
  unfolding use_line
  use-Outcome (sets name state) p h = (λ e. e, refl, refl, inr (h, refl))
  use-Outcome (reads name) p h = (λ e. e, refl, refl, inr (h, refl))

  pub happen-Outcome : (e : Event) (p : Process K L H) → Outcome p (happen library e p)
  unfolding happen begin_activity end_activity end_worker announce_end begin end
  happen-Outcome controller_begins p = ground arith
  happen-Outcome controller_ends p =
      if_cases (Outcome p) (p.activity.callbacks == 0) _ _ (λ _. unmoved p) λ _. unmoved p
  happen-Outcome worker_stops p =
      if_cases (Outcome p) (p.activity.workers == 0 || not p.activity.cancelled) _ _
        (λ _. unmoved p) λ _. unmoved p
  happen-Outcome signal_comes p = (λ h. h, refl, refl, inl (refl, refl))
  happen-Outcome all_done p = ground arith
  happen-Outcome client_begins p = (λ h. h, refl, refl, inl (refl, refl))
  happen-Outcome client_ends p =
      if_cases (Outcome p) (p.client.running == 0) _ _ (λ _. unmoved p) λ _. unmoved p
  happen-Outcome (uses u) p =
      if_cases (Outcome p) (nobody_runs p) _ _ (λ _. unmoved p) (use-Outcome u p)

  pub happen-Before :
      (e : Event) (m : Manager L) (p : Process K L H) → Before m p → Before m (happen library e p)
  happen-Before e m p b =
      let (_, _, same, reached) = happen-Outcome e p in
      record {
        good = happen-Good e p b.good;
        lines = same ∙ b.lines;
        met = elim reached [ inl (_, k) ↦ rw k b.met | inr (_, k) ↦ rw k (b.lines, b.met) ];
      }

  pub pass-Before :
      (turns : List Turn) (m : Manager L) (p : Process K L H)
      → Before m p
      → let q = (pass library turns p).process in
        Before m q
        × (p.activity.ended ≡ true → q.activity.ended ≡ true)
        × (q.client.phase ≡ p.client.phase)
  unfolding pass
  pass-Before [] m p b = (b, λ h. h, refl)
  pass-Before (goes_on ∷ turns) m p b = (b, λ h. h, refl)
  pass-Before (timer_fires ∷ turns) m p b = (b, λ h. h, refl)
  pass-Before (offline_fails ∷ turns) m p b = (b, λ h. h, refl)
  pass-Before (meanwhile e ∷ turns) m p b =
      let (ended, phase, _, _) = happen-Outcome e p in
      let (b1, ended1, phase1) = pass-Before turns m (happen library e p) (happen-Before e m p b) in
      (b1, λ h. ended1 (ended h), phase1 ∙ phase)

  pub play-Before :
      (turns : List Turn) (m : Manager L) (p : Process K L H)
      → Before m p
      → Before m (play library turns p)
  unfolding play
  play-Before [] m p b = b
  play-Before (goes_on ∷ turns) m p b = play-Before turns m p b
  play-Before (timer_fires ∷ turns) m p b = play-Before turns m p b
  play-Before (offline_fails ∷ turns) m p b = play-Before turns m p b
  play-Before (meanwhile e ∷ turns) m p b =
      play-Before turns m (happen library e p) (happen-Before e m p b)

  happen-After :
      (e : Event) (m closed : Manager L) (hw : H) (p : Process K L H)
      → After m closed hw p
      → After m closed hw (happen library e p)
  happen-After e m closed hw p a =
      let (ended, phase, same, reached) = happen-Outcome e p in
      let idle = nobody_left p a.good a.ended a.at_end in
      let busy : nobody_runs p ≡ false → ⊥ = λ h. absurd (ground (arith, h, idle)) in
      record {
        good = happen-Good e p a.good;
        ended = ended a.ended;
        at_end = phase ∙ a.at_end;
        lines = same ∙ a.lines;
        untouched = elim reached [ inl (k, _) ↦ k ∙ a.untouched | inr (h, _) ↦ absurd (busy h) ];
        met = elim reached [ inl (_, k) ↦ rw k a.met | inr (h, _) ↦ absurd (busy h) ];
      }

  pub play-After :
      (turns : List Turn) (m closed : Manager L) (hw : H) (p : Process K L H)
      → After m closed hw p
      → After m closed hw (play library turns p)
  unfolding play
  play-After [] m closed hw p a = a
  play-After (goes_on ∷ turns) m closed hw p a = play-After turns m closed hw p a
  play-After (timer_fires ∷ turns) m closed hw p a = play-After turns m closed hw p a
  play-After (offline_fails ∷ turns) m closed hw p a = play-After turns m closed hw p a
  play-After (meanwhile e ∷ turns) m closed hw p a =
      play-After turns m closed hw (happen library e p) (happen-After e m closed hw p a)
