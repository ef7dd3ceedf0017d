-- ===== src/Controller/Queue/Reporting.antt =====
-- The log lines of `runtime.overflow` account for every command that was dropped.
use mqtt_raspberry_controlle.Base.{
  ℕ, ◌+◌, ◌^◌, ◌<◌, ◌≤◌, Option, none, some, List, [], ◌∷◌, ◌++◌, length, length-append, ◌≡◌, refl,
  Option-cases, Bool-cases, inl, inr, arith, ltb,
}
use mqtt_raspberry_controlle.Message.{Message}
use mqtt_raspberry_controlle.Mqtt.Log.{Limiter, record_overflow}
use mqtt_raspberry_controlle.Mqtt.Log.Accounting.{Law, record_overflow-Lawful}
use mqtt_raspberry_controlle.Controller.Queue.{
  entity_queue_capacity, Worker, top, waiting, took, stopped, Entity, Move, arrive,
  arrive_elsewhere, enqueue, work, see_done, new_session, stop_accepting, cancel, reject_payload,
  pass, on_arrive, on_arrive_elsewhere, on_overflow, on_enqueue, take_command, on_work, on_done,
  move, run,
}

unfoldable pub sum : List ℕ → ℕ
sum [] = 0
sum (n ∷ ns) = n + sum ns

sum-append : (ms : List ℕ) (n : ℕ) → sum (ms ++ n ∷ []) ≡ sum ms + n
unfolding sum
sum-append [] n = omega arith
sum-append (m ∷ ms) n = omega (arith, sum-append ms n)

-- The numbers in the lines, with what is counted for the next one, are the dropped commands.
abbrev pub Reported : Entity → Type 0
Reported s = sum s.reported + s.overflow.count ≡ length s.overflowed

-- A move drops at most one command, and keeps the account.
abbrev Kept : Entity → Entity → Type 0
Kept s t = Reported t × (length t.overflowed ≤ length s.overflowed + 1)

abbrev SameLog : Entity → Entity → Type 0
SameLog s t = (t.reported ≡ s.reported) × (t.overflow ≡ s.overflow) × (t.overflowed ≡ s.overflowed)

unchanged : (s t : Entity) → SameLog s t → Reported s → Kept s t
unchanged s t (lines, limiter, dropped) v =
    (rw (lines, limiter, dropped) v, rw dropped (omega arith))

take_command-SameLog : (q : List Message) (s : Entity) → SameLog s (take_command q s)
unfolding take_command
take_command-SameLog [] s = (refl, refl, refl)
take_command-SameLog (m ∷ q) s = (refl, refl, refl)

on_work-SameLog : (w : Worker) (s : Entity) → SameLog s (on_work w s)
unfolding on_work
on_work-SameLog top s = ground arith
on_work-SameLog waiting s = take_command-SameLog s.queue s
on_work-SameLog (took m) s = ground arith
on_work-SameLog (stopped lost) s = (refl, refl, refl)

on_done-SameLog : (w : Worker) (s : Entity) → SameLog s (on_done w s)
unfolding on_done
on_done-SameLog waiting s = ground arith
on_done-SameLog top s = (refl, refl, refl)
on_done-SameLog (took m) s = (refl, refl, refl)
on_done-SameLog (stopped lost) s = (refl, refl, refl)

on_arrive-SameLog : (m : Message) (s : Entity) → SameLog s (on_arrive m s)
unfolding on_arrive
on_arrive-SameLog m s = elim (Option-cases s.callback) [
  | inl e ↦ rw (e, on_arrive) (refl, refl, refl)
  | inr (m', e) ↦ rw (e, on_arrive) (refl, refl, refl)
]

on_overflow-Kept :
    (m : Message) (s : Entity)
    → Reported s
    → length s.overflowed + 1 < 2 ^ 64
    → Kept s (on_overflow m s)
unfolding on_overflow
on_overflow-Kept m s v small =
    let law = record_overflow-Lawful s.now s.overflow (omega (arith, v)) in
    (
      count (record_overflow s.now s.overflow) law,
      omega (arith, length-append s.overflowed (m ∷ [])),
    )
  where
    count :
        (x : Option ℕ × Limiter)
        → Law 0 s.overflow s.now x
        → sum (elim x.0 [ none ↦ s.reported | some n ↦ s.reported ++ n ∷ [] ]) + x.1.count
          ≡ length (s.overflowed ++ m ∷ [])
    count (none, l) (more, _) = omega (arith, v, more, length-append s.overflowed (m ∷ []))
    count (some n, l) (worth, fresh, _, _) =
        omega (arith, v, worth, fresh, sum-append s.reported n, length-append s.overflowed (m ∷ []))

on_enqueue-Kept :
    (s : Entity) → Reported s → length s.overflowed + 1 < 2 ^ 64 → Kept s (on_enqueue s)
unfolding on_enqueue
on_enqueue-Kept s v small = elim (Option-cases s.callback) [
  | inl e ↦ rw (e, on_enqueue) (unchanged s s (refl, refl, refl) v)
  | inr (m, e) ↦ elim (Bool-cases (ltb (length s.queue) entity_queue_capacity)) [
    | inl room ↦ rw (e, on_enqueue, room) (v, omega arith)
    | inr full ↦ rw (e, on_enqueue, full) (on_overflow-Kept m s v small)
  ]
]

move-Kept :
    (x : Move) (s : Entity) → Reported s → length s.overflowed + 1 < 2 ^ 64 → Kept s (move x s)
unfolding move on_arrive_elsewhere
move-Kept (arrive m) s v small = unchanged s (on_arrive m s) (on_arrive-SameLog m s) v
move-Kept (arrive_elsewhere m) s v small = (v, omega arith)
move-Kept enqueue s v small = on_enqueue-Kept s v small
move-Kept work s v small = unchanged s (on_work s.worker s) (on_work-SameLog s.worker s) v
move-Kept see_done s v small = unchanged s (on_done s.worker s) (on_done-SameLog s.worker s) v
move-Kept new_session s v small = (v, omega arith)
move-Kept stop_accepting s v small = (v, omega arith)
move-Kept cancel s v small = (v, omega arith)
move-Kept reject_payload s v small = (v, omega arith)
move-Kept (pass d) s v small = (v, omega arith)

-- Under every interleaving: the numbers that the log lines report for a full queue, with what is counted
-- for the next line, are together the commands that were dropped, if that holds at the start and there
-- are fewer than 2^64 moves and commands dropped before.
pub run-Reported :
    (xs : List Move) (s : Entity)
    → Reported s
    → length s.overflowed + length xs < 2 ^ 64
    → Reported (run xs s)
unfolding run
run-Reported [] s v small = v
run-Reported (x ∷ xs) s v small =
    let (v1, most) = move-Kept x s v (omega arith) in run-Reported xs (move x s) v1 (omega arith)
