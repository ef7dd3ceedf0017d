-- ===== src/Service/Interleaving/Progress.antt =====
-- cmd/mqtt-raspberry-controller/main.go: `shutdownService` comes to its end when everyone else does.
use mqtt_raspberry_controlle.Base.{
  ℕ, Bool, true, false, ◌==◌, List, [], ◌∷◌, ◌≡◌, refl, ap, arith, ◌∙◌,
}
use mqtt_raspberry_controlle.Config.{Config}
use mqtt_raspberry_controlle.Controller.Shutdown.{shut_down_once, shuts_down}
use mqtt_raspberry_controlle.Controller.Shutdown.Ending.{Change-Sound}
use mqtt_raspberry_controlle.Gpio.Lines.{Library}
use mqtt_raspberry_controlle.Gpio.{Manager}
use mqtt_raspberry_controlle.Mqtt.Client.{stop_accepting}
use mqtt_raspberry_controlle.Mqtt.Client.Callbacks.{enter_close, Step-Inv, stops, closes}
use mqtt_raspberry_controlle.Service.{ShutdownError, shutdown_service_cases}
use mqtt_raspberry_controlle.Service.Interleaving.{
  Process, controller_ends, worker_stops, all_done, client_ends, Turn, goes_on, meanwhile, Run,
  serving, announce_end, happen, play, await_end, await_callbacks, pass, parts, shut_down,
}
use mqtt_raspberry_controlle.Service.Interleaving.Invariants.{Good, happen-Good, play-Before}
use mqtt_raspberry_controlle.Service.Interleaving.Orderly.{closes_lines}
use mqtt_raspberry_controlle.Service.Interleaving.Waits.{serving-Before}
use mqtt_raspberry_controlle.Service.Interleaving.Leaving.{
  times, Left, none-counted, await_end-callbacks, await_end-workers, await_callbacks-messages,
}

-- Every callback and every worker of `p` ends, each where `shutdownService` waits for it.
unfoldable pub all_end : {K L H : Type 0} → Process K L H → List Turn
unfolding times
all_end p =
    goes_on
    ∷ goes_on
    ∷ times p.activity.callbacks controller_ends (
        times p.activity.workers worker_stops (
          meanwhile all_done
          ∷ goes_on
          ∷ goes_on
          ∷ times p.client.running client_ends (goes_on ∷ goes_on ∷ [])))

clash : (b : Bool) → b ≡ true → b ≡ false → ⊥
clash true t f = cc
clash false t f = cc

module _ {C K L H : Type 0} (library : Library C L H) where
  shut_down-Left :
      (p : Process K L H)
      → Good p
      → Left p.activity.callbacks p.activity.workers p.client.running
          (record p { activity = shut_down_once p.activity })
  unfolding shut_down_once
  shut_down-Left p g =
      let sound = Change-Sound _ _ (shuts_down p.activity) g.sound in
      let cancelling = g.sound.cancelling in
      record {
        good = record { sound = sound; inv = g.inv };
        cancelled = ground (arith, cancelling);
        once = ground arith;
        callbacks_left = ground arith;
        workers_left = ground arith;
        running_left = refl;
      }

  all_done-Left :
      (n : ℕ) (p : Process K L H) → Left 0 0 n p → Left 0 0 n (happen library all_done p)
  unfolding happen announce_end
  all_done-Left n p l =
      let cancelled = l.cancelled in
      let once = l.once in
      let c = l.callbacks_left in
      let w = l.workers_left in
      record {
        good = happen-Good library all_done p l.good;
        cancelled = ground arith;
        once = ground arith;
        callbacks_left = ground arith;
        workers_left = ground arith;
        running_left = l.running_left;
      }

  await_end-announced :
      (n : ℕ) (turns : List Turn) (p : Process K L H)
      → Left 0 0 n p
      → await_end library (meanwhile all_done ∷ goes_on ∷ turns) p
        ≡ (true, record { process = happen library all_done p; schedule = turns })
  unfolding await_end
  await_end-announced n turns p l = let ended = none-counted library n p l in rw ended refl

  shutdown_controller-done :
      (p : Process K L H) (turns : List Turn)
      → Good p
      → let schedule =
          goes_on
          ∷ times p.activity.callbacks controller_ends
              (times p.activity.workers worker_stops (meanwhile all_done ∷ goes_on ∷ turns)) in
        (q : Process K L H) × Left 0 0 p.client.running q
        × ((parts library).shutdown_controller (record { process = p; schedule = schedule })
            ≡ (true, record { process = q; schedule = turns }))
  unfolding parts pass
  shutdown_controller-done p turns g =
      let n = p.client.running in
      let w = p.activity.workers in
      let announced = meanwhile all_done ∷ goes_on ∷ turns in
      let (q1, l1, e1) =
        await_end-callbacks library p.activity.callbacks w n (times w worker_stops announced) _
          (shut_down-Left p g) in
      let (q2, l2, e2) = await_end-workers library w n announced q1 l1 in
      (
        happen library all_done q2,
        all_done-Left n q2 l2,
        e1 ∙ e2 ∙ await_end-announced n turns q2 l2,
      )

  stop_accepting-Good :
      (p : Process K L H)
      → Good p
      → Good (record p { client = record p.client { client = stop_accepting p.client.client } })
  stop_accepting-Good p g = record { sound = g.sound; inv = Step-Inv _ _ (stops p.client) g.inv }

  close_mqtt-done :
      (n : ℕ) (p : Process K L H) (turns : List Turn)
      → Left 0 0 n p
      → let schedule = goes_on ∷ times n client_ends (goes_on ∷ turns) in
        ((parts library).close_mqtt (record { process = p; schedule = schedule })).0 ≡ true
  unfolding parts pass enter_close await_callbacks
  close_mqtt-done n p turns l =
      let g = l.good in
      let entered : Left 0 0 n (record p { client = enter_close p.client }) = record {
        good = record { sound = g.sound; inv = Step-Inv _ _ (closes p.client) g.inv };
        cancelled = l.cancelled;
        once = l.once;
        callbacks_left = l.callbacks_left;
        workers_left = l.workers_left;
        running_left = l.running_left;
      } in
      let (q, l1, e) = await_callbacks-messages library n (goes_on ∷ turns) _ entered in
      let counted = l1.good.inv.counted in
      let running = l1.running_left in
      let idle : (q.client.client.callbacks == 0) ≡ true = ground (arith, counted, running) in
      rw (e, idle) refl

  shut_down-all_end :
      (p : Process K L H)
      → Good p
      → closes_lines (shut_down library (record { process = p; schedule = all_end p })).0 ≡ true
  unfolding shut_down all_end closes_lines parts pass
  shut_down-all_end p g =
      let r : Run K L H = record { process = p; schedule = all_end p } in
      let turns = goes_on ∷ times p.client.running client_ends (goes_on ∷ goes_on ∷ []) in
      let r0 = (parts library).stop_accepting r in
      let (q, l, e) = shutdown_controller-done r0.process turns (stop_accepting-Good p g) in
      let closed = close_mqtt-done p.client.running q (goes_on ∷ []) l in
      shutdown_service_cases (parts library)
        (λ (x : ShutdownError × Run K L H). closes_lines x.0 ≡ true) r
        (λ failed. absurd (clash _ (ap (λ (x : Bool × Run K L H). x.0) e) failed))
        (λ _ failed. absurd (
          clash _ (ap (λ (x : Bool × Run K L H). ((parts library).close_mqtt x.1).0) e ∙ closed)
            failed))
        λ t t2. ground arith

module _ {C L H : Type 0} (library : Library C L H) where
  -- Behind any start: on the schedule on which every callback and every worker that runs at the call of
  -- `shutdownService` ends where it is waited for, the waits for the controller and for the client both
  -- succeed, and the shutdown gets as far as closing the GPIO lines.
  pub shut_down_progress :
      (K : Type 0) (cfg : Config) (m : Manager L) (hw : H) (earlier : List Turn)
      → let p = play library earlier (serving {K = K} cfg m hw) in
        closes_lines (shut_down library (record { process = p; schedule = all_end p })).0 ≡ true
  shut_down_progress K cfg m hw earlier =
      let p0 : Process K L H = serving cfg m hw in
      let b = play-Before library earlier m p0 (serving-Before library cfg m hw) in
      shut_down-all_end library (play library earlier p0) b.good
