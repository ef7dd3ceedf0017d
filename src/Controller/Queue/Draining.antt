-- ===== src/Controller/Queue/Draining.antt =====
-- The worker carries out everything that was queued, as long as the context is not cancelled.
use mqtt_raspberry_controlle.Base.{
  ℕ, zero, suc, ◌+◌, ◌-◌, ◌*◌, ◌≤◌, Bool, true, false, List, [], ◌∷◌, ◌++◌, length, ◌≡◌, refl, sym,
  ◌∙◌, append-nil, arith,
}
use mqtt_raspberry_controlle.Message.{Message}
use mqtt_raspberry_controlle.Controller.Queue.{
  Worker, top, waiting, took, stopped, Entity, Move, work, take_command, on_work, move, run,
}
use mqtt_raspberry_controlle.Controller.Queue.Order.{Ordered, in_hand, run-Ordered}

-- The worker's turns.
unfoldable pub turns : ℕ → List Move
turns zero = []
turns (suc n) = work ∷ turns n

-- The turns that the worker needs for what it has in hand and what is queued.
needs : Worker → ℕ → ℕ
needs top n = 3 * n
needs waiting n = 3 * n - 1
needs (took m) n = 3 * n + 1
needs (stopped lost) n = 0

abbrev pub is_stopped : Worker → Bool
is_stopped (stopped lost) = true
is_stopped _ = false

-- The context is not cancelled, and the worker has not ended.
abbrev pub Running : Entity → Type 0
Running s = (s.cancelled ≡ false) × (is_stopped s.worker ≡ false)

abbrev Turned : Entity → Entity → Type 0
Turned s t =
    Running t
    × (t.enqueued ≡ s.enqueued)
    × (needs t.worker (length t.queue) ≤ needs s.worker (length s.queue) - 1)

take-Turned :
    (q : List Message) (s : Entity)
    → s.worker ≡ waiting
    → s.queue ≡ q
    → Running s
    → Turned s (take_command q s)
unfolding take_command needs
take-Turned [] s e f v = (v, refl, rw (e, f) (omega arith))
take-Turned (m ∷ q) s e f v = ((v.0, refl), refl, rw (e, f) (omega arith))

on_work_top : (s : Entity) → s.cancelled ≡ false → on_work top s ≡ record s { worker = waiting }
unfolding on_work
on_work_top s on = rw on refl

on_work_took :
    (m : Message) (s : Entity)
    → s.cancelled ≡ false
    → on_work (took m) s ≡ record s { worker = top; handled = s.handled ++ m ∷ [] }
unfolding on_work
on_work_took m s on = rw on refl

turn-Turned : (w : Worker) (s : Entity) → s.worker ≡ w → Running s → Turned s (on_work w s)
unfolding needs
turn-Turned top s e (on, goes) = rw (on_work_top s on) ((on, refl), refl, rw e (omega arith))
turn-Turned waiting s e v = unfold on_work in take-Turned s.queue s e refl v
turn-Turned (took m) s e (on, goes) =
    rw (on_work_took m s on) ((on, refl), refl, rw e (omega arith))
turn-Turned (stopped lost) s e (on, goes) = absurd (ground (arith, rw e at goes))

append-empty : (xs ys : List Message) → xs ++ ys ≡ [] → ys ≡ []
append-empty [] ys h = h
append-empty (x ∷ xs) ys h = cc

nothing_needed :
    (w : Worker) (q : List Message)
    → is_stopped w ≡ false
    → needs w (length q) ≡ 0
    → in_hand w ++ q ≡ []
unfolding needs
nothing_needed top [] goes h = refl
nothing_needed top (m ∷ q) goes h = absurd (omega arith)
nothing_needed waiting [] goes h = refl
nothing_needed waiting (m ∷ q) goes h = absurd (omega arith)
nothing_needed (took m) q goes h = absurd (omega arith)
nothing_needed (stopped lost) q goes h = cc

turns-Turned :
    (n : ℕ) (s : Entity)
    → Running s
    → needs s.worker (length s.queue) ≤ n
    → let t = run (turns n) s in
      Running t × (t.enqueued ≡ s.enqueued) × (needs t.worker (length t.queue) ≡ 0)
unfolding run turns move
turns-Turned zero s v h = (v, refl, omega arith)
turns-Turned (suc n) s v h =
    let (v1, kept, fewer) = turn-Turned s.worker s refl v in
    let (v2, kept2, none) = turns-Turned n (on_work s.worker s) v1 (omega arith) in
    (v2, kept2 ∙ kept, none)

needs_bound : (w : Worker) (n : ℕ) → needs w n ≤ 3 * n + 1
unfolding needs
needs_bound top n = omega arith
needs_bound waiting n = omega arith
needs_bound (took m) n = omega arith
needs_bound (stopped lost) n = omega arith

-- The worker carries out everything that was queued, in its order, and ends with an empty queue: three
-- turns for each command in the queue and one more are enough, if the context is not cancelled, the
-- worker has not ended, and nothing else happens meanwhile.
pub turns-drained :
    (n : ℕ) (s : Entity)
    → Ordered s
    → s.cancelled ≡ false
    → is_stopped s.worker ≡ false
    → 3 * length s.queue + 1 ≤ n
    → ((run (turns n) s).handled ≡ s.enqueued) × ((run (turns n) s).queue ≡ [])
turns-drained n s v on goes enough =
    let t = run (turns n) s in
    let ((_, goes1), kept, none) =
      turns-Turned n s (on, goes) (omega (arith, needs_bound s.worker (length s.queue))) in
    let empty = nothing_needed t.worker t.queue goes1 none in
    let ordered = run-Ordered (turns n) s v in
    (
      sym (append-nil t.handled) ∙ (rw empty at ordered.fifo) ∙ kept,
      append-empty (in_hand t.worker) t.queue empty,
    )
