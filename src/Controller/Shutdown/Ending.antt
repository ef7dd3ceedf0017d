-- ===== src/Controller/Shutdown/Ending.antt =====
-- What holds of the controller's workers and callbacks in any interleaving with `Shutdown`.
use mqtt_raspberry_controlle.Base.{
  ℕ, ◌+◌, true, false, not, ◌||◌, ◌≡◌, refl, arith, Bool-cases, inl, inr,
}
use mqtt_raspberry_controlle.Config.{Config}
use mqtt_raspberry_controlle.Controller.Shutdown.{
  Activity, started, begin_activity, end_activity, end_worker, shut_down_once, Change, begins,
  callback_works, callback_ends, worker_works, worker_ends, signalled, shuts_down, all_ended,
  Changes, unchanged, changed,
}

-- The counter counts who runs, and Shutdown has closed the door before the end.
pub record Sound (s : Activity) : Type 0 where
  pub counted : s.count ≡ s.callbacks + s.workers
  pub refused : s.once ≡ true → s.accepting ≡ false
  pub cancelling : s.once ≡ true → s.cancelled ≡ true
  pub in_order : s.ended ≡ true → (s.once ≡ true) × (s.count ≡ 0)

begin-Sound : (s : Activity) → Sound s → Sound (begin_activity s)
unfolding begin_activity
begin-Sound s i =
    let counted = i.counted in
    elim (Bool-cases (not s.accepting || s.cancelled)) [
      | inl e ↦ rw e i
      | inr e ↦ rw e (record {
        counted = ground (arith, counted);
        refused = i.refused;
        cancelling = i.cancelling;
        in_order = λ h. absurd (ground (arith, e, i.refused (i.in_order h).0));
      })
    ]

shut_down-Sound : (s : Activity) → Sound s → Sound (shut_down_once s)
unfolding shut_down_once
shut_down-Sound s i = elim (Bool-cases s.once) [
  | inl e ↦ rw e (record {
    counted = i.counted;
    refused = λ h. i.refused e;
    cancelling = λ h. i.cancelling e;
    in_order = λ h. (refl, (i.in_order h).1);
  })
  | inr e ↦ rw e (record {
    counted = i.counted;
    refused = λ h. refl;
    cancelling = λ h. refl;
    in_order = λ h. (refl, (i.in_order h).1);
  })
]

pub Change-Sound : (s t : Activity) → Change s t → Sound s → Sound t
unfolding end_activity end_worker
Change-Sound s t (begins s') i = begin-Sound s i
Change-Sound s t (callback_works s' busy) i = record {
  counted = i.counted;
  refused = i.refused;
  cancelling = i.cancelling;
  in_order = i.in_order;
}
Change-Sound s t (callback_ends s' busy) i =
    let counted = i.counted in
    record {
      counted = ground (arith, counted, busy);
      refused = i.refused;
      cancelling = i.cancelling;
      in_order = λ h. let (once, none_left) = i.in_order h in (once, ground (arith, none_left));
    }
Change-Sound s t (worker_works s' busy) i = record {
  counted = i.counted;
  refused = i.refused;
  cancelling = i.cancelling;
  in_order = i.in_order;
}
Change-Sound s t (worker_ends s' busy done) i =
    let counted = i.counted in
    record {
      counted = ground (arith, counted, busy);
      refused = i.refused;
      cancelling = i.cancelling;
      in_order = λ h. let (once, none_left) = i.in_order h in (once, ground (arith, none_left));
    }
Change-Sound s t (signalled s') i = record {
  counted = i.counted;
  refused = i.refused;
  cancelling = λ h. refl;
  in_order = i.in_order;
}
Change-Sound s t (shuts_down s') i = shut_down-Sound s i
Change-Sound s t (all_ended s' once none_left) i = record {
  counted = i.counted;
  refused = i.refused;
  cancelling = i.cancelling;
  in_order = λ h. (once, none_left);
}

Changes-Sound : (s t : Activity) → Changes s t → Sound s → Sound t
Changes-Sound s t (unchanged s') i = i
Changes-Sound s t (changed s' u t' before last) i =
    Change-Sound u t last (Changes-Sound s u before i)

pub started-Sound : (cfg : Config) → Sound (started cfg)
unfolding started
started-Sound cfg = record {
  counted = ground arith;
  refused = λ h. cc;
  cancelling = λ h. cc;
  in_order = λ h. cc;
}

-- Behind the end nothing runs, and nothing starts.
abbrev Still : Activity → ℕ → Type 0
Still s work = (s.ended ≡ true) × (s.callbacks ≡ 0) × (s.workers ≡ 0) × (s.work ≡ work)

Change-Still :
    (s t : Activity) (work : ℕ)
    → Change s t
    → s.accepting ≡ false
    → Still s work
    → (t.accepting ≡ false) × Still t work
unfolding begin_activity end_activity end_worker shut_down_once
Change-Still s t work (begins s') a still = rw a (refl, still)
Change-Still s t work (callback_works s' busy) a (_, none_left, _, _) =
    absurd (ground (arith, busy, none_left))
Change-Still s t work (callback_ends s' busy) a (_, none_left, _, _) =
    absurd (ground (arith, busy, none_left))
Change-Still s t work (worker_works s' busy) a (_, _, none_left, _) =
    absurd (ground (arith, busy, none_left))
Change-Still s t work (worker_ends s' busy _) a (_, _, none_left, _) =
    absurd (ground (arith, busy, none_left))
Change-Still s t work (signalled s') a still = (a, still)
Change-Still s t work (shuts_down s') a still = elim (Bool-cases s.once) [
  | inl e ↦ rw e (a, still)
  | inr e ↦ rw e (refl, still)
]
Change-Still s t work (all_ended s' _ _) a (e, c, w, k) = (a, (refl, c, w, k))

Changes-Still :
    (s t : Activity) (work : ℕ)
    → Changes s t
    → s.accepting ≡ false
    → Still s work
    → (t.accepting ≡ false) × Still t work
Changes-Still s t work (unchanged s') a still = (a, still)
Changes-Still s t work (changed s' u t' before last) a still =
    let (a1, still1) = Changes-Still s u work before a still in Change-Still u t work last a1 still1

-- Whatever the interleaving: once `Shutdown` can return without an error, no worker and no callback of
-- the controller runs, and none starts or does any work from then on, however often it is called again.
no_work_after_shutdown :
    (cfg : Config) (s t : Activity)
    → Changes (started cfg) s
    → s.ended ≡ true
    → Changes s t
    → (t.ended ≡ true) × (t.callbacks ≡ 0) × (t.workers ≡ 0) × (t.work ≡ s.work)
no_work_after_shutdown cfg s t before ended later =
    let i = Changes-Sound (started cfg) s before (started-Sound cfg) in
    let (once, none_left) = i.in_order ended in
    let counted = i.counted in
    (Changes-Still s t s.work later (i.refused once)
      (ended, ground (arith, counted, none_left), ground (arith, counted, none_left), refl)).1
