-- ===== src/Service/Interleaving/Orderly.antt =====
-- What holds of the lines while `shutdownService` runs, in any schedule.
use mqtt_raspberry_controlle.Base.{
  Bool, true, false, List, All, if◌then◌else◌, ◌≡◌, refl, inl, inr, ◌⊎◌, arith,
}
use mqtt_raspberry_controlle.Config.{Config}
use mqtt_raspberry_controlle.Gpio.Lines.{Library}
use mqtt_raspberry_controlle.Gpio.{Manager}
use mqtt_raspberry_controlle.Service.{
  ShutdownError, clean, gpio_failed, controller_failed, mqtt_failed, shutdown_service_cases,
}
use mqtt_raspberry_controlle.Gpio.Opening.{Closed}
use mqtt_raspberry_controlle.Service.Interleaving.Invariants.{
  Before, After, play-Before, play-After, nobody_left,
}
use mqtt_raspberry_controlle.Service.Interleaving.Waits.{
  serving-Before, stop_accepting-Before, shutdown_controller-Before, close_mqtt-Before,
  close_gpio-After,
}
use mqtt_raspberry_controlle.Service.Interleaving.{
  Process, Turn, Run, nobody_runs, serving, play, parts, shut_down,
}

-- Whether `shutdownService` came to the closing of the lines.
unfoldable pub closes_lines : ShutdownError → Bool
closes_lines clean = true
closes_lines gpio_failed = true
closes_lines controller_failed = false
closes_lines mqtt_failed = false

-- Whoever reached a line found the manager `m`. Either the lines were closed in `p`, and from there on
-- nobody runs and the hardware is left alone, or they stay open.
abbrev pub Orderly :
    {K L H : Type 0} → Manager L → ShutdownError → Process K L H → Process K L H → Type 0
Orderly m e p later =
    All (λ found. found ≡ m) later.met
    × (((closes_lines e ≡ true)
          × Closed p.manager
          × (nobody_runs p ≡ true)
          × (nobody_runs later ≡ true)
          × (later.hardware ≡ p.hardware))
        ⊎ ((closes_lines e ≡ false) × (later.manager ≡ m)))

module _ {C K L H : Type 0} (library : Library C L H) where
  kept-Orderly :
      (e : ShutdownError) (m : Manager L) (r : Run K L H)
      → closes_lines e ≡ false
      → Before m r.process
      → Orderly m e r.process (play library r.schedule r.process)
  kept-Orderly e m r failed b =
      let b1 = play-Before library r.schedule m r.process b in (b1.met, inr (failed, b1.lines))

  released-Orderly :
      (released : Bool) (m : Manager L) (r : Run K L H)
      → Closed r.process.manager
      → After m r.process.manager r.process.hardware r.process
      → Orderly m
          (if released then clean else gpio_failed)
          r.process
          (play library r.schedule r.process)
  unfolding closes_lines
  released-Orderly released m r closed a =
      let p = r.process in
      let a1 = play-After library r.schedule m p.manager p.hardware p a in
      let idle = nobody_left p a.good a.ended a.at_end in
      let idle1 = nobody_left (play library r.schedule p) a1.good a1.ended a1.at_end in
      (a1.met, inl (ground arith, closed, idle, idle1, a1.untouched))

module _ {C L H : Type 0} (library : Library C L H) where
  -- With the lines opened, and whatever the order in which workers, callbacks, the signal, the timer and
  -- `shutdownService` take their turns, before the shutdown, during it and behind it: a worker or a
  -- callback that reaches for a line finds the lines as they were opened, never closed ones. Either all
  -- lines are closed, nobody runs from there on and the hardware is left alone, or the shutdown gave up
  -- at the controller or the client, and the lines stay open.
  pub shut_down-Orderly :
      (K : Type 0) (cfg : Config) (m : Manager L) (hw : H) (earlier schedule : List Turn)
      → let p = play library earlier (serving {K = K} cfg m hw) in
        let (e, r) = shut_down library (record { process = p; schedule = schedule }) in
        Orderly m e r.process (play library r.schedule r.process)
  unfolding shut_down closes_lines
  shut_down-Orderly K cfg m hw earlier schedule =
      let p = play library earlier (serving {K = K} cfg m hw) in
      let r : Run K L H = record { process = p; schedule = schedule } in
      let b =
        play-Before library earlier m (serving {K = K} cfg m hw)
          (serving-Before library cfg m hw) in
      let r0 = (parts library).stop_accepting r in
      let b0 = stop_accepting-Before library m r b in
      let (b1, over) = shutdown_controller-Before library m r0 b0 in
      let r1 = ((parts library).shutdown_controller r0).1 in
      let r2 = ((parts library).close_mqtt r1).1 in
      let r3 = ((parts library).close_gpio r2).1 in
      shutdown_service_cases (parts library)
        (λ (x : ShutdownError × Run K L H).
          Orderly m x.0 x.1.process (play library x.1.schedule x.1.process))
        r (λ _. kept-Orderly library controller_failed m r1 refl b1)
        (λ stopped _.
          let (b2, _, _) = close_mqtt-Before library m r1 (over stopped) b1 in
          kept-Orderly library mqtt_failed m r2 refl b2)
        λ stopped closed.
          let (b2, ended, at_end) = close_mqtt-Before library m r1 (over stopped) b1 in
          let (empty, a) = close_gpio-After library m r2 ended (at_end closed) b2 in
          released-Orderly library _ m r3 empty a
