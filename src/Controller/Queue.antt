-- ===== src/Controller/Queue.antt =====
-- controller/controller.go: the command queue of one switch or button, filled by the MQTT callbacks and
-- emptied by the entity's worker. Each shared access is a move of its own, so that a list of moves is
-- an interleaving of the callbacks, the worker and the shutdown. The client runs callbacks one after
-- another (SetOrderMatters), so at most one message is between `acceptMessage` and the queue.
pub mod Order
pub mod Draining
pub mod Stopping
pub mod Reporting
pub mod Delivery
use mqtt_raspberry_controlle.Base.{
  ℕ, ◌+◌, Bool, true, false, not, ◌&&◌, ◌||◌, Option, none, some, List, [], ◌∷◌, ◌++◌, ltb,
  if◌then◌else◌, length,
}
use mqtt_raspberry_controlle.Message.{Message}
use mqtt_raspberry_controlle.Mqtt.Log.{Limiter, record_overflow, record_rejection}
use mqtt_raspberry_controlle.Controller.Dedupe.{
  Dedupe, Verdict, accepted, closed, retained, duplicate, accept_message, reset_dedupe,
}

abbrev pub entity_queue_capacity : ℕ
entity_queue_capacity = 32

-- Where the worker's loop stands: at its top; in the `select`; with a command that it took; or gone,
-- with the commands that it took and did not carry out.
pub data Worker : Type 0 where
  top waiting : Worker
  took : Message → Worker
  stopped : List Message → Worker

-- `overflow` is the runtime's overflowLog, and `rejected` the controller's rejectedLog; `now` is the time
-- that they ask for. `enqueued`, `overflowed`, `handled` and `reported` are the histories of the channel,
-- of the worker and of the numbers in the lines of `overflow`.
pub record Entity : Type 0 where
  pub accepting : Bool
  pub cancelled : Bool
  pub dedupe : Dedupe
  pub callback : Option Message
  pub queue : List Message
  pub worker : Worker
  pub enqueued : List Message
  pub overflowed : List Message
  pub handled : List Message
  pub now : ℕ
  pub overflow : Limiter
  pub rejected : Limiter
  pub reported : List ℕ

pub data Move : Type 0 where
  arrive : Message → Move
  arrive_elsewhere : Message → Move
  enqueue : Move
  work : Move
  see_done : Move
  new_session stop_accepting cancel : Move
  -- a worker finds a payload that is no command
  reject_payload : Move
  pass : ℕ → Move

-- What acceptMessage logs.
log_verdict : ℕ → Verdict → Limiter → Limiter
log_verdict now accepted l = l
log_verdict now closed l = l
log_verdict now retained l = (record_rejection now l).1
log_verdict now duplicate l = (record_rejection now l).1

-- The first half of enqueueSwitch and enqueueButton.
on_arrive : Message → Entity → Entity
unfolding log_verdict
on_arrive m s = elim s.callback [
  | some _ ↦ s
  | none ↦
      let (verdict, d) = accept_message s.accepting s.cancelled m s.dedupe in
      record s {
        dedupe = d;
        callback = elim verdict [ accepted ↦ some m | _ ↦ none ];
        rejected = log_verdict s.now verdict s.rejected;
      }
]

-- A message for another entity, which shares the duplicate cache and `rejected`.
on_arrive_elsewhere : Message → Entity → Entity
unfolding log_verdict
on_arrive_elsewhere m s =
    let (verdict, d) = accept_message s.accepting s.cancelled m s.dedupe in
    record s { dedupe = d; rejected = log_verdict s.now verdict s.rejected }

-- runtime.overflow.record
on_overflow : Message → Entity → Entity
on_overflow m s =
    let (line, l) = record_overflow s.now s.overflow in
    record s {
      callback = none;
      overflowed = s.overflowed ++ m ∷ [];
      overflow = l;
      reported = elim line [ none ↦ s.reported | some n ↦ s.reported ++ n ∷ [] ];
    }

-- The second half: `select { case queue <- command: default: overflow }`.
on_enqueue : Entity → Entity
unfolding on_overflow
on_enqueue s = elim s.callback [
  | none ↦ s
  | some m ↦
      if ltb (length s.queue) entity_queue_capacity
      then record s { callback = none; queue = s.queue ++ m ∷ []; enqueued = s.enqueued ++ m ∷ [] }
      else on_overflow m s
]

take_command : List Message → Entity → Entity
take_command [] s = s
take_command (m ∷ rest) s = record s { queue = rest; worker = took m }

-- One access of runSwitchWorker or runButtonWorker. In the `select` the worker waits while the queue is
-- empty; with the context cancelled and a command in the queue either case may be chosen.
on_work : Worker → Entity → Entity
unfolding take_command
on_work top s =
    if s.cancelled then record s { worker = stopped [] } else record s { worker = waiting }
on_work waiting s = take_command s.queue s
on_work (took m) s =
    if s.cancelled
    then record s { worker = stopped (m ∷ []) }
    else record s { worker = top; handled = s.handled ++ m ∷ [] }
on_work (stopped lost) s = s

-- The case `<-c.ctx.Done()`.
on_done : Worker → Entity → Entity
on_done waiting s = if s.cancelled then record s { worker = stopped [] } else s
on_done _ s = s

unfoldable pub move : Move → Entity → Entity
unfolding log_verdict on_arrive on_arrive_elsewhere on_overflow on_enqueue on_work on_done
move (arrive m) s = on_arrive m s
move (arrive_elsewhere m) s = on_arrive_elsewhere m s
move enqueue s = on_enqueue s
move work s = on_work s.worker s
move see_done s = on_done s.worker s
move new_session s = record s { dedupe = reset_dedupe s.dedupe }
move stop_accepting s = record s { accepting = false }
move cancel s = record s { cancelled = true }
move reject_payload s = record s { rejected = (record_rejection s.now s.rejected).1 }
move (pass d) s = record s { now = s.now + d }

unfoldable pub run : List Move → Entity → Entity
run [] s = s
run (m ∷ ms) s = run ms (move m s)
