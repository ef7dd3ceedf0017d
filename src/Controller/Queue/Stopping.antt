-- ===== src/Controller/Queue/Stopping.antt =====
-- After the cancellation of the context.
use mqtt_raspberry_controlle.Base.{true, List, [], ◌∷◌, ◌≡◌, refl, ◌∙◌, arith}
use mqtt_raspberry_controlle.Message.{Message}
use mqtt_raspberry_controlle.Controller.Queue.{
  Worker, top, waiting, took, stopped, Entity, Move, arrive, arrive_elsewhere, enqueue, work,
  see_done, new_session, stop_accepting, cancel, reject_payload, pass, on_arrive,
  on_arrive_elsewhere, on_overflow, on_enqueue, take_command, on_work, on_done, move, run,
}

-- The worker carries nothing out, and nothing undoes the cancellation.
abbrev Halted : Entity → Entity → Type 0
Halted s t = (t.cancelled ≡ true) × (t.handled ≡ s.handled)

take_command-Halted :
    (q : List Message) (s : Entity) → s.cancelled ≡ true → Halted s (take_command q s)
unfolding take_command
take_command-Halted [] s h = (h, refl)
take_command-Halted (m ∷ q) s h = (h, refl)

move-Halted : (x : Move) (s : Entity) → s.cancelled ≡ true → Halted s (move x s)
unfolding move on_arrive on_arrive_elsewhere on_overflow on_enqueue on_work on_done
move-Halted (arrive m) s h = ground arith
move-Halted (arrive_elsewhere m) s h = (h, refl)
move-Halted enqueue s h = ground arith
move-Halted work s h = ground (arith, take_command-Halted s.queue s h)
move-Halted see_done s h = ground arith
move-Halted new_session s h = (h, refl)
move-Halted stop_accepting s h = (h, refl)
move-Halted cancel s h = (refl, refl)
move-Halted reject_payload s h = (h, refl)
move-Halted (pass d) s h = (h, refl)

stops_from :
    (w : Worker) (s : Entity)
    → s.worker ≡ w
    → s.cancelled ≡ true
    → (lost : List Message) × ((on_work (on_done w s).worker (on_done w s)).worker ≡ stopped lost)
unfolding on_work on_done
stops_from top s e h = ([], ground arith)
stops_from waiting s e h = ([], ground arith)
stops_from (took m) s e h = (m ∷ [], ground arith)
stops_from (stopped lost) s e h = (lost, ground arith)

-- Once the context is cancelled, and whatever else happens: no further command is carried out, and the
-- worker is gone when it has looked at the context in its `select`, or in the check that it makes next.
pub run_cancelled :
    (xs : List Move) (s : Entity)
    → s.cancelled ≡ true
    → ((run xs s).handled ≡ s.handled)
      × ((lost : List Message) × ((run (see_done ∷ work ∷ []) (run xs s)).worker ≡ stopped lost))
unfolding run move
run_cancelled [] s h = (refl, stops_from s.worker s refl h)
run_cancelled (x ∷ xs) s h =
    let (cancelled, same) = move-Halted x s h in
    let (handled, stops) = run_cancelled xs (move x s) cancelled in (handled ∙ same, stops)
