-- ===== src/Action/Control/Other/Single.antt =====
-- The signal of action/process_other.go.
use mqtt_raspberry_controlle.Base.{
  ℕ, ◌≤◌, Bool, true, false, not, ◌&&◌, ◌||◌, List, [], ◌∷◌, All, length, ◌≡◌, ◌⊎◌, inl, inr, refl,
  arith, if_cases, Bool-cases,
}
use mqtt_raspberry_controlle.Action.Control.{
  Host, Stage, selecting, terminating, in_grace, waiting, finished, Child, running, zombie, reaped,
  Target, command_group, nobody, Move, exits, takes_number, context_ends, observes, goes_on,
  started, is_reaped, is_running, target, signal, end_child, take_number, select,
}
use mqtt_raspberry_controlle.Action.Control.Other.{observe, proceed, move, run}

-- The signals that a stage may have sent before.
abbrev pub most_signals : Stage → ℕ
most_signals waiting = 1
most_signals finished = 1
most_signals _ = 0

abbrev pub is_finished : Stage → Bool
is_finished finished = true
is_finished _ = false

abbrev pub Harmless : Target → Type 0
Harmless t = (t ≡ command_group) ⊎ (t ≡ nobody)

record Single (h : Host) : Type 0 where
  reached : h.taken ≡ false → All Harmless h.signalled
  bounded : length h.signalled ≤ most_signals h.stage
  gone : h.observed ≡ true → is_reaped h.child ≡ true
  ended : is_finished h.stage ≡ true → is_reaped h.child ≡ true

target-Harmless : (h : Host) → h.taken ≡ false → Harmless (target h)
unfolding target
target-Harmless h e = elim (Bool-cases (is_reaped h.child)) [
  | inl r ↦ inr (rw (r, e) refl)
  | inr r ↦ inl (rw r refl)
]

enter-Single :
    (h : Host) (stage : Stage)
    → is_finished stage ≡ false
    → most_signals h.stage ≤ most_signals stage
    → Single h
    → Single (record h { stage = stage })
enter-Single h stage later more o =
    let bounded = o.bounded in
    record {
      reached = o.reached;
      bounded = ground (arith, bounded, more);
      gone = o.gone;
      ended = λ e. absurd (ground (arith, e, later));
    }

signal-Single :
    (h : Host) → h.stage ≡ terminating → Single h → Single (record (signal h) { stage = waiting })
unfolding signal
signal-Single h e o =
    let bounded = rw e at o.bounded in
    record {
      reached = λ free. (target-Harmless h free, o.reached free);
      bounded = ground (arith, bounded);
      gone = o.gone;
      ended = λ f. cc;
    }

proceed-Single :
    (stage : Stage) (prefers_exit kill_works : Bool) (h : Host)
    → h.stage ≡ stage
    → Single h
    → Single (proceed stage prefers_exit kill_works h)
unfolding proceed select
proceed-Single selecting prefers_exit kill_works h e o =
    if_cases Single (h.observed && (prefers_exit || not h.context_done)) _ _
      (λ _. enter-Single h waiting refl (rw e (omega arith)) o)
      λ _.
        if_cases Single h.context_done _ _
          (λ _. enter-Single h terminating refl (rw e (omega arith)) o) λ _. o
proceed-Single terminating prefers_exit true h e o = signal-Single h e o
proceed-Single terminating prefers_exit false h e o =
    enter-Single h waiting refl (rw e (omega arith)) o
proceed-Single in_grace prefers_exit kill_works h e o = o
proceed-Single waiting prefers_exit kill_works h e o =
    let bounded = rw e at o.bounded in
    if_cases Single h.observed _ _
      (λ seen. record {
        reached = o.reached;
        bounded = bounded;
        gone = o.gone;
        ended = λ _. o.gone seen;
      })
      λ _. o
proceed-Single finished prefers_exit kill_works h e o = o

not_running : (c : Child) → is_running c ≡ true → is_reaped c ≡ false
unfolding is_running is_reaped
not_running running e = refl
not_running zombie e = cc
not_running reaped e = cc

end_child-Single : (h : Host) → Single h → Single (end_child h)
unfolding end_child
end_child-Single h o =
    if_cases Single (is_running h.child) _ _
      (λ e.
        let alive = not_running h.child e in
        record {
          reached = o.reached;
          bounded = o.bounded;
          gone = λ seen. absurd (ground (arith, o.gone seen, alive));
          ended = λ f. absurd (ground (arith, o.ended f, alive));
        })
      λ _. o

take_number-Single : (h : Host) → Single h → Single (take_number h)
unfolding take_number
take_number-Single h o =
    if_cases Single (is_reaped h.child) _ _
      (λ _. record { reached = λ free. cc; bounded = o.bounded; gone = o.gone; ended = o.ended })
      λ _. o

observe-Single : (h : Host) → Single h → Single (observe h)
unfolding observe is_reaped
observe-Single h o =
    if_cases Single (h.observed || is_running h.child) _ _ (λ _. o)
      λ _. record { reached = o.reached; bounded = o.bounded; gone = λ _. refl; ended = λ _. refl }

move-Single : (m : Move) (h : Host) → Single h → Single (move m h)
unfolding move
move-Single exits h o = end_child-Single h o
move-Single takes_number h o = take_number-Single h o
move-Single context_ends h o = record {
  reached = o.reached;
  bounded = o.bounded;
  gone = o.gone;
  ended = o.ended;
}
move-Single (observes w) h o = observe-Single h o
move-Single (goes_on prefers_exit kill_works) h o =
    proceed-Single h.stage prefers_exit kill_works h refl o

run-Single : (ms : List Move) (h : Host) → Single h → Single (run ms h)
unfolding run
run-Single [] h o = o
run-Single (m ∷ ms) h o = run-Single ms (move m h) (move-Single m h o)

started-Single : Single started
unfolding started
started-Single = record {
  reached = λ e. tt;
  bounded = omega arith;
  gone = λ e. cc;
  ended = λ e. cc;
}

at_most_one : (stage : Stage) → most_signals stage ≤ 1
at_most_one selecting = omega arith
at_most_one terminating = omega arith
at_most_one in_grace = omega arith
at_most_one waiting = omega arith
at_most_one finished = omega arith

-- On the other systems, as long as nobody has got the number of the process: at most one signal is
-- sent, it reaches the command or nobody, and a `runCommand` that is finished has waited for the process.
pub run-started-Single :
    (ms : List Move)
    → (run ms started).taken ≡ false
    → let h = run ms started in
      All Harmless h.signalled
      × (length h.signalled ≤ 1)
      × ((is_finished h.stage ≡ false) ⊎ (is_reaped h.child ≡ true))
run-started-Single ms free =
    let h = run ms started in
    let o = run-Single ms started started-Single in
    let bounded = o.bounded in
    let one = at_most_one h.stage in
    (
      o.reached free,
      omega (arith, bounded, one),
      elim (Bool-cases (is_finished h.stage)) [ inr e ↦ inl e | inl e ↦ inr (o.ended e) ],
    )
