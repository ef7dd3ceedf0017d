-- ===== src/Controller/Queue/Order.antt =====
-- Commands are carried out in the order in which they were queued, each at most once.
use mqtt_raspberry_controlle.Base.{
  ◌≤◌, List, [], ◌∷◌, ◌++◌, append_assoc, length, length-append, Option-cases, inl, inr, ◌≡◌, refl,
  arith,
}
use mqtt_raspberry_controlle.Message.{Message}
use mqtt_raspberry_controlle.Controller.Queue.{
  entity_queue_capacity, Worker, top, waiting, took, stopped, Entity, Move, arrive,
  arrive_elsewhere, enqueue, work, see_done, new_session, stop_accepting, cancel, reject_payload,
  pass, on_arrive, on_arrive_elsewhere, on_enqueue, take_command, on_work, on_done, move, run,
}

-- What the worker took and has not carried out.
abbrev pub in_hand : Worker → List Message
in_hand top = []
in_hand waiting = []
in_hand (took m) = m ∷ []
in_hand (stopped lost) = lost

-- Everything that was queued was carried out, or is in hand, or is still in the queue, in this order;
-- the queue is within its capacity.
pub record Ordered (s : Entity) : Type 0 where
  pub fifo : s.handled ++ (in_hand s.worker ++ s.queue) ≡ s.enqueued
  pub bounded : length s.queue ≤ entity_queue_capacity

take_command-Ordered :
    (q : List Message) (s : Entity)
    → s.worker ≡ waiting
    → s.queue ≡ q
    → Ordered s
    → Ordered (take_command q s)
unfolding take_command
take_command-Ordered [] s e f v = v
take_command-Ordered (m ∷ q) s e f v = ground (arith, v.fifo, v.bounded)

on_work-Ordered : (w : Worker) (s : Entity) → s.worker ≡ w → Ordered s → Ordered (on_work w s)
unfolding on_work
on_work-Ordered top s e v = ground (arith, v.fifo)
on_work-Ordered waiting s e v = take_command-Ordered s.queue s e refl v
on_work-Ordered (took m) s e v = ground (arith, v.fifo, append_assoc s.handled (m ∷ []) s.queue)
on_work-Ordered (stopped lost) s e v = v

on_done-Ordered : (w : Worker) (s : Entity) → s.worker ≡ w → Ordered s → Ordered (on_done w s)
unfolding on_done
on_done-Ordered waiting s e v = ground (arith, v.fifo)
on_done-Ordered top s e v = v
on_done-Ordered (took m) s e v = v
on_done-Ordered (stopped lost) s e v = v

on_enqueue-Ordered : (s : Entity) → Ordered s → Ordered (on_enqueue s)
unfolding on_enqueue
on_enqueue-Ordered s v = elim (Option-cases s.callback) [
  | inl e ↦ rw (e, on_enqueue) v
  | inr (m, e) ↦
      rw (e, on_enqueue)
        (ground (
          arith,
          v.fifo,
          v.bounded,
          length-append s.queue (m ∷ []),
          append_assoc (in_hand s.worker) s.queue (m ∷ []),
          append_assoc s.handled (in_hand s.worker ++ s.queue) (m ∷ []),
        ))
]

on_arrive-Ordered : (m : Message) (s : Entity) → Ordered s → Ordered (on_arrive m s)
unfolding on_arrive
on_arrive-Ordered m s v = elim (Option-cases s.callback) [
  | inl e ↦ rw (e, on_arrive) (record { fifo = v.fifo; bounded = v.bounded })
  | inr (m', e) ↦ rw (e, on_arrive) v
]

move-Ordered : (x : Move) (s : Entity) → Ordered s → Ordered (move x s)
unfolding move on_arrive_elsewhere
move-Ordered (arrive m) s v = on_arrive-Ordered m s v
move-Ordered (arrive_elsewhere m) s v = record { fifo = v.fifo; bounded = v.bounded }
move-Ordered enqueue s v = on_enqueue-Ordered s v
move-Ordered work s v = on_work-Ordered s.worker s refl v
move-Ordered see_done s v = on_done-Ordered s.worker s refl v
move-Ordered new_session s v = record { fifo = v.fifo; bounded = v.bounded }
move-Ordered stop_accepting s v = record { fifo = v.fifo; bounded = v.bounded }
move-Ordered cancel s v = record { fifo = v.fifo; bounded = v.bounded }
move-Ordered reject_payload s v = record { fifo = v.fifo; bounded = v.bounded }
move-Ordered (pass d) s v = record { fifo = v.fifo; bounded = v.bounded }

-- From an entity where this holds, under every interleaving the commands that were carried out,
-- then the one in hand, then the queue, are the commands that were queued, in their order; and the
-- queue never holds more than 32.
pub run-Ordered : (xs : List Move) (s : Entity) → Ordered s → Ordered (run xs s)
unfolding run
run-Ordered [] s v = v
run-Ordered (x ∷ xs) s v = run-Ordered xs (move x s) (move-Ordered x s v)
