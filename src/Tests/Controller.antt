-- ===== src/Tests/Controller.antt =====
-- The duplicate cache, the command queue and the payloads at concrete messages.
use mqtt_raspberry_controlle.Base.{
  ◌⊎◌, ℕ, Bool, true, false, none, List, [], ◌∷◌, codes, ◌≡◌, refl, arith,
}
use mqtt_raspberry_controlle.Message.{Message}
use mqtt_raspberry_controlle.Controller.Dedupe.{Dedupe, duplicate, accept_message}
use mqtt_raspberry_controlle.Controller.Dedupe.Redelivery.{after_messages, redelivery_rejected}
use mqtt_raspberry_controlle.Controller.Dedupe.Refinement
use mqtt_raspberry_controlle.Controller.Dedupe.Refinement.{
  Event, message, session, keys, window_accept, window_run, accept_message-window, run-window,
  empty-Inv,
}
use mqtt_raspberry_controlle.Controller.Queue.{
  Entity, Move, arrive, arrive_elsewhere, enqueue, work, see_done, top, stopped, run,
}
use mqtt_raspberry_controlle.Controller.Queue.Order.{Ordered, run-Ordered}
use mqtt_raspberry_controlle.Controller.Queue.Draining.{turns, turns-drained}
use mqtt_raspberry_controlle.Controller.Queue.Stopping.{run_cancelled}
use mqtt_raspberry_controlle.Controller.Queue.Delivery.{enqueue_command, Wanted, delivery_queues}
use mqtt_raspberry_controlle.Mqtt.Client.{idle_client, message_from_paho, on_message}
use mqtt_raspberry_controlle.Mqtt.Transport.{Transport, PahoMessage, finished}
use mqtt_raspberry_controlle.Tests.Config.{minimal}
use mqtt_raspberry_controlle.Controller.Queue.Reporting.{Reported, sum, run-Reported}

abbrev sent : ℕ → Bool → Message
sent id again = record {
  topic = codes "home/switch/lamp/set";
  payload = codes "ON";
  retained = false;
  duplicate = again;
  qos = 1;
  message_id = id;
}

abbrev no_messages : Dedupe
no_messages = record { map = λ _. none; order = []; seq = 0 }

abbrev history : List Event
history =
    message (sent 7 false)
    ∷ message (sent 7 true)
    ∷ message (sent 8 true)
    ∷ session
    ∷ message (sent 7 true)
    ∷ []

run-window_example :
    Refinement.run no_messages history ≡ window_run (keys no_messages.order) history
run-window_example = run-window no_messages history empty-Inv (omega arith)

-- The message 7 again, behind two others.
redelivery_rejected_example :
    let d' =
      after_messages
        (sent 8 false ∷ sent 9 false ∷ [])
        (accept_message true false (sent 7 false) no_messages).1 in
    (accept_message true false (sent 7 true) d').0 ≡ duplicate
unfolding accept_message
redelivery_rejected_example =
    redelivery_rejected (sent 7 false) (sent 8 false ∷ sent 9 false ∷ []) no_messages empty-Inv
      (omega arith) (omega arith) refl refl refl

abbrev start : Entity
start = record {
  accepting = true;
  cancelled = false;
  dedupe = no_messages;
  callback = none;
  queue = [];
  worker = top;
  enqueued = [];
  overflowed = [];
  handled = [];
  now = 0;
  overflow = record { count = 0; last = none };
  rejected = record { count = 0; last = none };
  reported = [];
}

abbrev moves : List Move
moves =
    arrive (sent 1 false)
    ∷ enqueue
    ∷ work
    ∷ arrive (sent 2 false)
    ∷ work
    ∷ arrive_elsewhere (sent 9 false)
    ∷ enqueue
    ∷ work
    ∷ work
    ∷ []

start-Ordered : Ordered start
start-Ordered = record { fifo = refl; bounded = omega arith }

run-Ordered_example : Ordered (run moves start)
run-Ordered_example = run-Ordered moves start start-Ordered

run-Reported_example : Reported (run moves start)
unfolding sum
run-Reported_example = run-Reported moves start refl (omega arith)

-- Two commands wait in the queue.
abbrev busy : Entity
busy = record start {
  queue = sent 1 false ∷ sent 2 false ∷ [];
  enqueued = sent 1 false ∷ sent 2 false ∷ [];
}

turns-drained_example :
    ((run (turns 7) busy).handled ≡ busy.enqueued) × ((run (turns 7) busy).queue ≡ [])
turns-drained_example =
    turns-drained 7 busy (record { fifo = refl; bounded = omega arith }) refl refl (omega arith)

abbrev cancelled : Entity
cancelled = record busy { cancelled = true }

run_cancelled_example :
    ((run moves cancelled).handled ≡ cancelled.handled)
    × ((lost : List Message) × ((run (see_done ∷ work ∷ []) (run moves cancelled)).worker
          ≡ stopped lost))
run_cancelled_example = run_cancelled moves cancelled refl

-- A network on which nothing happens.
abbrev silent : Transport Entity
silent = record {
  connect = λ s. (none, s);
  is_connected = λ s. true;
  publish = λ topic payload qos retain timeout s. (finished none, s);
  subscribe = λ topic qos timeout s. (finished none, s);
  disconnect = λ quiesce s. s;
  now = λ s. s.now;
  wait_callbacks = λ deadline s. (true, s);
}

abbrev incoming : PahoMessage
incoming = record {
  topic = codes "home/switch/lamp/set";
  payload = codes "ON";
  retained = false;
  duplicate = false;
  qos = 1;
  message_id = 7;
}

delivery_queues_example :
    let (c', t) = on_message silent minimal enqueue_command incoming idle_client start in
    (c'.callbacks ≡ 0)
    × (c'.accepting ≡ true)
    × ((Wanted idle_client start incoming × (t.enqueued ≡ message_from_paho incoming ∷ []))
        ⊎ (¬ Wanted idle_client start incoming × (t.enqueued ≡ [])))
unfolding idle_client
delivery_queues_example =
    delivery_queues silent minimal incoming idle_client start empty-Inv (omega arith) refl
