-- ===== src/Action/Control/Ownership.antt =====
-- Signals and the process they are meant for.
use mqtt_raspberry_controlle.Base.{
  ℕ, suc, ◌≤◌, Bool, true, false, not, ◌&&◌, ◌||◌, List, [], ◌∷◌, All, length, ◌≡◌, refl, arith,
  if_cases, sym, ◌∙◌,
}
use mqtt_raspberry_controlle.Action.Control.{
  Host, Stage, selecting, terminating, in_grace, waiting, finished, Child, running, zombie, reaped,
  command_group, Move, exits, takes_number, context_ends, observes, goes_on, interrupted, exit_seen,
  waitid_failed, started, is_reaped, is_running, target, signal, end_child, take_number, select,
}
use mqtt_raspberry_controlle.Action.Control.Linux.{observe, wait, proceed, move, run}

-- The signals that a stage may have sent before.
abbrev pub most_signals : Stage → ℕ
most_signals selecting = 0
most_signals terminating = 0
most_signals in_grace = 1
most_signals waiting = 2
most_signals finished = 2

abbrev pub is_finished : Stage → Bool
is_finished finished = true
is_finished _ = false

-- Every signal reached the command's group, which keeps its number until `runCommand` has waited for it;
-- there are at most two signals.
pub record Owned (h : Host) : Type 0 where
  pub reached : All (λ t. t ≡ command_group) h.signalled
  pub kept : is_reaped h.child ≡ is_finished h.stage
  pub bounded : length h.signalled ≤ most_signals h.stage

-- As long as `runCommand` has not waited, the number belongs to the command.
target_own :
    (h : Host) (stage : Stage)
    → h.stage ≡ stage
    → is_finished stage ≡ false
    → Owned h
    → target h ≡ command_group
unfolding target
target_own h stage at_stage early o =
    let kept = o.kept in
    let alive : is_reaped h.child ≡ false = rw (kept, at_stage) early in rw alive refl

-- What leaves child, stage and signals alone.
same-Owned :
    (h g : Host)
    → g.signalled ≡ h.signalled
    → g.child ≡ h.child
    → g.stage ≡ h.stage
    → Owned h
    → Owned g
same-Owned h g e1 e2 e3 o = record {
  reached = rw e1 o.reached;
  kept = rw (e2, e3) o.kept;
  bounded = rw (e1, e3) o.bounded;
}

-- A stage that may have sent as many signals.
enter-Owned :
    (h : Host) (stage : Stage)
    → is_finished h.stage ≡ false
    → is_finished stage ≡ false
    → most_signals h.stage ≤ most_signals stage
    → Owned h
    → Owned (record h { stage = stage })
enter-Owned h stage early later more o =
    let bounded = o.bounded in
    record {
      reached = o.reached;
      kept = o.kept ∙ early ∙ sym later;
      bounded = ground (arith, bounded, more);
    }

signal-Owned :
    (h : Host) (stage : Stage)
    → is_finished h.stage ≡ false
    → is_finished stage ≡ false
    → suc (most_signals h.stage) ≤ most_signals stage
    → Owned h
    → Owned (record (signal h) { stage = stage })
unfolding signal
signal-Owned h stage early later more o =
    let bounded = o.bounded in
    record {
      reached = (target_own h h.stage refl early o, o.reached);
      kept = o.kept ∙ early ∙ sym later;
      bounded = ground (arith, bounded, more);
    }

select-Owned : (b : Bool) (h : Host) → h.stage ≡ selecting → Owned h → Owned (select b h)
unfolding select
select-Owned b h at_stage o =
    if_cases Owned (h.observed && (b || not h.context_done)) _ _
      (λ _. enter-Owned h waiting (rw at_stage refl) refl (rw at_stage (omega arith)) o)
      λ _.
        if_cases Owned h.context_done _ _
          (λ _. enter-Owned h terminating (rw at_stage refl) refl (rw at_stage (omega arith)) o)
          λ _. o

wait-Owned : (h : Host) → h.stage ≡ waiting → Owned h → Owned (wait h)
unfolding wait is_reaped
wait-Owned h at_stage o =
    let bounded = o.bounded in
    if_cases Owned (h.observed && not (is_running h.child)) _ _
      (λ _. record { reached = o.reached; kept = refl; bounded = rw at_stage at bounded }) λ _. o

proceed-Owned :
    (stage : Stage) (prefers_exit kill_works : Bool) (h : Host)
    → h.stage ≡ stage
    → Owned h
    → Owned (proceed stage prefers_exit kill_works h)
unfolding proceed
proceed-Owned selecting prefers_exit kill_works h e o = select-Owned prefers_exit h e o
proceed-Owned terminating prefers_exit true h e o =
    signal-Owned h in_grace (rw e refl) refl (rw e (omega arith)) o
proceed-Owned terminating prefers_exit false h e o =
    enter-Owned h waiting (rw e refl) refl (rw e (omega arith)) o
proceed-Owned in_grace prefers_exit true h e o =
    signal-Owned h waiting (rw e refl) refl (rw e (omega arith)) o
proceed-Owned in_grace prefers_exit false h e o =
    enter-Owned h waiting (rw e refl) refl (rw e (omega arith)) o
proceed-Owned waiting prefers_exit kill_works h e o = wait-Owned h e o
proceed-Owned finished prefers_exit kill_works h e o = o

still_unreaped : (c : Child) → is_running c ≡ true → is_reaped zombie ≡ is_reaped c
unfolding is_running is_reaped
still_unreaped running e = refl
still_unreaped zombie e = cc
still_unreaped reaped e = cc

end_child-Owned : (h : Host) → Owned h → Owned (end_child h)
unfolding end_child
end_child-Owned h o =
    if_cases Owned (is_running h.child) _ _
      (λ e. record {
        reached = o.reached;
        kept = still_unreaped h.child e ∙ o.kept;
        bounded = o.bounded;
      })
      λ _. o

move-Owned : (m : Move) (h : Host) → Owned h → Owned (move m h)
unfolding move take_number observe
move-Owned exits h o = end_child-Owned h o
move-Owned takes_number h o =
    if_cases Owned (is_reaped h.child) _ _ (λ _. same-Owned h _ refl refl refl o) λ _. o
move-Owned context_ends h o = same-Owned h _ refl refl refl o
move-Owned (observes interrupted) h o = o
move-Owned (observes exit_seen) h o =
    if_cases Owned (h.observed || is_running h.child) _ _ (λ _. o)
      λ _. same-Owned h _ refl refl refl o
move-Owned (observes (waitid_failed e)) h o =
    if_cases Owned h.observed _ _ (λ _. o) λ _. same-Owned h _ refl refl refl o
move-Owned (goes_on prefers_exit kill_works) h o =
    proceed-Owned h.stage prefers_exit kill_works h refl o

run-Owned : (ms : List Move) (h : Host) → Owned h → Owned (run ms h)
unfolding run
run-Owned [] h o = o
run-Owned (m ∷ ms) h o = run-Owned ms (move m h) (move-Owned m h o)

-- Whatever the order in which the process, the kernel, the observer and `runCommand` go on: each signal
-- of `terminateCommandGroup` reaches the group of the command, never another process that has got its
-- number; there are at most two; and `runCommand` has waited for the process exactly where it is
-- finished.
pub run-started-Owned : (ms : List Move) → Owned (run ms started)
unfolding started is_reaped
run-started-Owned ms =
    run-Owned ms started (record { reached = tt; kept = refl; bounded = omega arith })
