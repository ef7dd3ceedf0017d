-- ===== src/Service/Interleaving/Waits.antt =====
-- What `shutdownService` keeps on its way to the closing of the GPIO lines.
use mqtt_raspberry_controlle.Base.{
  Bool, true, ◌==◌, List, [], ◌∷◌, ◌≡◌, refl, inl, inr, ◌∙◌, arith, Bool-cases, if_cases,
}
use mqtt_raspberry_controlle.Config.{Config}
use mqtt_raspberry_controlle.Controller.Shutdown.{shut_down_once, shuts_down}
use mqtt_raspberry_controlle.Controller.Shutdown.Ending.{Change-Sound, started-Sound}
use mqtt_raspberry_controlle.Gpio.Lines.{Library}
use mqtt_raspberry_controlle.Gpio.{Manager}
use mqtt_raspberry_controlle.Mqtt.Client.Callbacks.{
  System, quiet, closing, enter_close, Inv, Step-Inv, initial-Inv, closes, stops, waited, times_out,
}
use mqtt_raspberry_controlle.Gpio.Opening.{Closed, close-Closed}
use mqtt_raspberry_controlle.Service.Interleaving.Invariants.{
  Before, After, pass-Before, happen-Before, happen-Outcome,
}
use mqtt_raspberry_controlle.Service.Interleaving.{
  Process, Turn, goes_on, timer_fires, offline_fails, meanwhile, Run, serving, happen, await_end,
  await_callbacks, pass, parts,
}

module _ {C K L H : Type 0} (library : Library C L H) where
  await_end-Before :
      (turns : List Turn) (m : Manager L) (p : Process K L H)
      → Before m p
      → let (done, r) = await_end library turns p in
        Before m r.process × (done ≡ true → r.process.activity.ended ≡ true)
  unfolding await_end
  await_end-Before [] m p b = (b, λ h. cc)
  await_end-Before (goes_on ∷ turns) m p b =
      if_cases
        (λ (x : Bool × Run K L H).
          Before m x.1.process × (x.0 ≡ true → x.1.process.activity.ended ≡ true))
        p.activity.ended _ _ (λ e. (b, λ h. e)) (λ e. await_end-Before turns m p b)
  await_end-Before (timer_fires ∷ turns) m p b = (b, λ h. cc)
  await_end-Before (offline_fails ∷ turns) m p b = await_end-Before turns m p b
  await_end-Before (meanwhile e ∷ turns) m p b =
      await_end-Before turns m (happen library e p) (happen-Before library e m p b)

  move-Before :
      (m : Manager L) (p : Process K L H) (client : System K)
      → Inv client
      → Before m p
      → Before m (record p { client = client })
  move-Before m p client inv b = record {
    good = record { sound = b.good.sound; inv = inv };
    lines = b.lines;
    met = b.met;
  }

  await_callbacks-Before :
      (turns : List Turn) (m : Manager L) (p : Process K L H)
      → p.client.phase ≡ closing
      → p.activity.ended ≡ true
      → Before m p
      → let (done, r) = await_callbacks library turns p in
        Before m r.process
        × (r.process.activity.ended ≡ true)
        × (done ≡ true → r.process.client.phase ≡ quiet)
  unfolding await_callbacks
  await_callbacks-Before [] m p at_wait ended b =
      (move-Before m p _ (Step-Inv _ _ (times_out p.client at_wait) b.good.inv) b, ended, λ h. cc)
  await_callbacks-Before (timer_fires ∷ turns) m p at_wait ended b =
      (move-Before m p _ (Step-Inv _ _ (times_out p.client at_wait) b.good.inv) b, ended, λ h. cc)
  await_callbacks-Before (goes_on ∷ turns) m p at_wait ended b =
      elim (Bool-cases (p.client.client.callbacks == 0)) [
        | inl e ↦ rw e (
          move-Before m p _ (Step-Inv _ _ (waited p.client at_wait (ground (arith, e))) b.good.inv)
              b,
          ended,
          λ h. refl,
        )
        | inr e ↦ rw e (await_callbacks-Before turns m p at_wait ended b)
      ]
  await_callbacks-Before (offline_fails ∷ turns) m p at_wait ended b =
      elim (Bool-cases (p.client.client.callbacks == 0)) [
        | inl e ↦ rw e (
          move-Before m p _ (Step-Inv _ _ (waited p.client at_wait (ground (arith, e))) b.good.inv)
              b,
          ended,
          λ h. cc,
        )
        | inr e ↦ rw e (await_callbacks-Before turns m p at_wait ended b)
      ]
  await_callbacks-Before (meanwhile e ∷ turns) m p at_wait ended b =
      let (over, phase, _, _) = happen-Outcome library e p in
      await_callbacks-Before turns m (happen library e p) (phase ∙ at_wait) (over ended)
        (happen-Before library e m p b)

  pub serving-Before : (cfg : Config) (m : Manager L) (hw : H) → Before m (serving {K = K} cfg m hw)
  unfolding serving
  serving-Before cfg m hw = record {
    good = record { sound = started-Sound cfg; inv = initial-Inv };
    lines = refl;
    met = tt;
  }

  pub stop_accepting-Before :
      (m : Manager L) (r : Run K L H)
      → Before m r.process
      → Before m ((parts library).stop_accepting r).process
  unfolding parts
  stop_accepting-Before m r b =
      let (b1, _, _) = pass-Before library r.schedule m r.process b in
      let p = (pass library r.schedule r.process).process in
      move-Before m p _ (Step-Inv _ _ (stops p.client) b1.good.inv) b1

  pub shutdown_controller-Before :
      (m : Manager L) (r : Run K L H)
      → Before m r.process
      → let (done, r1) = (parts library).shutdown_controller r in
        Before m r1.process × (done ≡ true → r1.process.activity.ended ≡ true)
  unfolding parts
  shutdown_controller-Before m r b =
      let (b1, _, _) = pass-Before library r.schedule m r.process b in
      let r1 = pass library r.schedule r.process in
      let p = r1.process in
      await_end-Before r1.schedule m (record p { activity = shut_down_once p.activity })
        (record {
          good = record {
            sound = Change-Sound _ _ (shuts_down p.activity) b1.good.sound;
            inv = b1.good.inv;
          };
          lines = b1.lines;
          met = b1.met;
        })

  pub close_mqtt-Before :
      (m : Manager L) (r : Run K L H)
      → r.process.activity.ended ≡ true
      → Before m r.process
      → let (done, r1) = (parts library).close_mqtt r in
        Before m r1.process
        × (r1.process.activity.ended ≡ true)
        × (done ≡ true → r1.process.client.phase ≡ quiet)
  unfolding parts enter_close
  close_mqtt-Before m r ended b =
      let (b1, over, _) = pass-Before library r.schedule m r.process b in
      let r1 = pass library r.schedule r.process in
      let p = r1.process in
      await_callbacks-Before r1.schedule m (record p { client = enter_close p.client }) refl
        (over ended) (move-Before m p _ (Step-Inv _ _ (closes p.client) b1.good.inv) b1)

  pub close_gpio-After :
      (m : Manager L) (r : Run K L H)
      → r.process.activity.ended ≡ true
      → r.process.client.phase ≡ quiet
      → Before m r.process
      → let r1 = ((parts library).close_gpio r).1 in
        Closed r1.process.manager × After m r1.process.manager r1.process.hardware r1.process
  unfolding parts
  close_gpio-After m r ended at_end b =
      let (b1, over, phase) = pass-Before library r.schedule m r.process b in
      let p = (pass library r.schedule r.process).process in
      (
        close-Closed library p.manager p.hardware,
        record {
          good = record { sound = b1.good.sound; inv = b1.good.inv };
          ended = over ended;
          at_end = phase ∙ at_end;
          lines = refl;
          untouched = refl;
          met = b1.met;
        },
      )
