-- ===== src/Service/Interleaving/Leaving.antt =====
-- Workers and callbacks that end while `shutdownService` waits for them.
use mqtt_raspberry_controlle.Base.{ℕ, zero, suc, true, List, ◌∷◌, ◌≡◌, refl, arith}
use mqtt_raspberry_controlle.Controller.Shutdown.{end_activity, end_worker}
use mqtt_raspberry_controlle.Gpio.Lines.{Library}
use mqtt_raspberry_controlle.Mqtt.Client.Callbacks.{end}
use mqtt_raspberry_controlle.Service.Interleaving.{
  Process, Event, controller_ends, worker_stops, all_done, client_ends, Turn, meanwhile,
  announce_end, happen, await_end, await_callbacks,
}
use mqtt_raspberry_controlle.Service.Interleaving.Invariants.{Good, happen-Good}

unfoldable pub times : ℕ → Event → List Turn → List Turn
times zero e turns = turns
times (suc n) e turns = meanwhile e ∷ times n e turns

-- Behind the start of the shutdown, who is left to end.
pub record Left {K L H : Type 0} (callbacks workers running : ℕ) (p : Process K L H) : Type 0 where
  pub good : Good p
  pub cancelled : p.activity.cancelled ≡ true
  pub once : p.activity.once ≡ true
  pub callbacks_left : p.activity.callbacks ≡ callbacks
  pub workers_left : p.activity.workers ≡ workers
  pub running_left : p.client.running ≡ running

module _ {C K L H : Type 0} (library : Library C L H) where
  one-callback :
      (c w n : ℕ) (p : Process K L H)
      → Left (suc c) w n p
      → Left c w n (happen library controller_ends p)
  unfolding happen end_activity
  one-callback c w n p l =
      let left = l.callbacks_left in
      record {
        good = happen-Good library controller_ends p l.good;
        cancelled = let h = l.cancelled in ground (arith);
        once = let h = l.once in ground (arith);
        callbacks_left = ground (arith, left);
        workers_left = let h = l.workers_left in ground arith;
        running_left = let h = l.running_left in ground arith;
      }

  one-worker :
      (w n : ℕ) (p : Process K L H)
      → Left 0 (suc w) n p
      → Left 0 w n (happen library worker_stops p)
  unfolding happen end_worker
  one-worker w n p l =
      let left = l.workers_left in
      let h = l.cancelled in
      record {
        good = happen-Good library worker_stops p l.good;
        cancelled = ground arith;
        once = let h = l.once in ground (arith);
        callbacks_left = let h = l.callbacks_left in ground arith;
        workers_left = ground (arith, left, h);
        running_left = let h = l.running_left in ground arith;
      }

  one-message :
      (n : ℕ) (p : Process K L H) → Left 0 0 (suc n) p → Left 0 0 n (happen library client_ends p)
  unfolding happen end
  one-message n p l =
      let left = l.running_left in
      record {
        good = happen-Good library client_ends p l.good;
        cancelled = let h = l.cancelled in ground (arith);
        once = let h = l.once in ground (arith);
        callbacks_left = let h = l.callbacks_left in ground arith;
        workers_left = let h = l.workers_left in ground arith;
        running_left = ground (arith, left);
      }

  -- The counter is zero where nobody is left.
  pub none-counted :
      (n : ℕ) (p : Process K L H) → Left 0 0 n p → (happen library all_done p).activity.ended ≡ true
  unfolding happen announce_end
  none-counted n p l =
      let counted = l.good.sound.counted in
      let c = l.callbacks_left in let w = l.workers_left in let once = l.once in ground arith

  pub await_end-callbacks :
      (c w n : ℕ) (turns : List Turn) (p : Process K L H)
      → Left c w n p
      → (q : Process K L H) × Left 0 w n q
        × (await_end library (times c controller_ends turns) p ≡ await_end library turns q)
  unfolding times await_end
  await_end-callbacks zero w n turns p l = (p, l, refl)
  await_end-callbacks (suc c) w n turns p l =
      await_end-callbacks c w n turns (happen library controller_ends p) (one-callback c w n p l)

  pub await_end-workers :
      (w n : ℕ) (turns : List Turn) (p : Process K L H)
      → Left 0 w n p
      → (q : Process K L H) × Left 0 0 n q
        × (await_end library (times w worker_stops turns) p ≡ await_end library turns q)
  unfolding times await_end
  await_end-workers zero n turns p l = (p, l, refl)
  await_end-workers (suc w) n turns p l =
      await_end-workers w n turns (happen library worker_stops p) (one-worker w n p l)

  pub await_callbacks-messages :
      (n : ℕ) (turns : List Turn) (p : Process K L H)
      → Left 0 0 n p
      → (q : Process K L H) × Left 0 0 0 q
        × (await_callbacks library (times n client_ends turns) p ≡ await_callbacks library turns q)
  unfolding times await_callbacks
  await_callbacks-messages zero turns p l = (p, l, refl)
  await_callbacks-messages (suc n) turns p l =
      await_callbacks-messages n turns (happen library client_ends p) (one-message n p l)
