-- ===== src/Service/Wiring/Switching.antt =====
-- A command for a switch, from its payload over the line to the published state.
use mqtt_raspberry_controlle.Base.{
  Bool, true, false, Option, none, some, List, [], ◌∷◌, ◌++◌, Bytes, codes, same, length,
  if◌then◌else◌, ◌≡◌, ◌⊎◌, inl, inr, refl, ap, ◌∙◌,
}
use mqtt_raspberry_controlle.Base.Result.{ok, err}
use mqtt_raspberry_controlle.Config.{Config, Entity, Action}
use mqtt_raspberry_controlle.Config.Defaults.{mqtt_qos}
use mqtt_raspberry_controlle.Action.Sequence.{
  completed, execute, go_on, execute-append, execute_from_gpio,
}
use mqtt_raspberry_controlle.Controller.Payload.{parse_switch_payload, state_payload}
use mqtt_raspberry_controlle.Controller.Handlers.{
  Memory, entity_topic, handle_switch, report, switch_state, publish_state,
}
use mqtt_raspberry_controlle.Controller.Handlers.States.{handle_switch-report}
use mqtt_raspberry_controlle.Gpio.Lines.{Library}
use mqtt_raspberry_controlle.Gpio.{set_output, output_state, cannot_read}
use mqtt_raspberry_controlle.Gpio.Values.{KeepsValue, output_state-set_output}
use mqtt_raspberry_controlle.Mqtt.Transport.{Transport}
use mqtt_raspberry_controlle.Mqtt.Client.{publish}
use mqtt_raspberry_controlle.Service.Wiring.{
  Home, gpio_error, is_completed, read_state, executor_targets, controller_services,
}

module _ {C L H T : Type 0} (library : Library C L H) (transport : Transport T) (cfg : Config)
    (run_command : Action → Home L H T → Option Bytes × Home L H T)
    (delay : Bytes → Home L H T → Option Bytes × Home L H T) where
  -- The actions up to the last, which sets a line, work.
  actions_completed :
      (actions before : List Action) (last : Action) (desired : Bool) (s s1 : Home L H T)
      → actions ≡ before ++ last ∷ []
      → last.kind ≡ codes "gpio"
      → last.value ≡ some desired
      → s1.stopping ≡ false
      → execute (executor_targets library transport cfg run_command delay) cfg before s
        ≡ (completed, s1)
      → (set_output library last.gpio desired s1.manager s1.hardware).0 ≡ ok tt
      → (controller_services library transport cfg run_command delay).execute actions s ≡ (
        true,
        record s1 { hardware = (set_output library last.gpio desired s1.manager s1.hardware).1 },
      )
  unfolding controller_services executor_targets go_on gpio_error is_completed
  actions_completed actions before last desired s s1 e kind given going done works =
      let targets = executor_targets library transport cfg run_command delay in
      let appended = execute-append targets cfg before (last ∷ []) s in
      let single =
        execute_from_gpio targets cfg (length before) last desired s1 going kind given
          (rw works refl) in
      rw (e, appended, done, single) refl

  switch_state_line :
      (entity : Entity) (memory : Memory) (s : Home L H T)
      → entity.state.kind ≡ codes "gpio"
      → let (read, hw) = output_state library entity.state.gpio s.manager s.hardware in
        switch_state
          (controller_services library transport cfg run_command delay)
          cfg
          entity
          memory
          s
        ≡ (read_state read, record s { hardware = hw })
  unfolding switch_state controller_services same
  switch_state_line entity memory s kind =
      let in_memory : same entity.state.kind (codes "memory") ≡ false =
        ap (λ k. same k (codes "memory")) kind in
      let on_line : same entity.state.kind (codes "gpio") ≡ true =
        ap (λ k. same k (codes "gpio")) kind in
      rw (switch_state, in_memory, on_line) refl

  -- What is published of a switch whose state is that of a line.
  report_line :
      (entity : Entity) (memory : Memory) (desired : Bool) (s : Home L H T)
      → entity.state.kind ≡ codes "gpio"
      → let read = (output_state library entity.state.gpio s.manager s.hardware).0 in
        (read ≡ err (cannot_read entity.state.gpio)) ⊎ (read ≡ ok desired)
        → let services = controller_services library transport cfg run_command delay in
          let sent =
            publish transport cfg
              (entity_topic cfg entity.id (codes "state"))
              (state_payload desired)
              (mqtt_qos cfg)
              true
              s.network in
          ((read ≡ err (cannot_read entity.state.gpio))
            × ((report services cfg entity memory s).network ≡ s.network))
          ⊎ ((read ≡ ok desired) × ((report services cfg entity memory s).network ≡ sent.1))
  unfolding report publish_state controller_services read_state
  report_line entity memory desired s kind read =
      let services = controller_services library transport cfg run_command delay in
      let hw = (output_state library entity.state.gpio s.manager s.hardware).1 in
      let finish : Option Bool × Home L H T → T = λ x.
        let reported : Home L H T = elim x.0 [
          | none ↦ x.1
          | some state ↦ (publish_state services cfg entity state x.1).1
        ] in
        reported.network in
      let reads = switch_state_line entity memory s kind in
      elim read [
        | inl e ↦
            inl (e, ap finish (reads ∙ ap (λ r. (read_state r, record s { hardware = hw })) e))
        | inr e ↦
            inr (e, ap finish (reads ∙ ap (λ r. (read_state r, record s { hardware = hw })) e))
      ]

  -- A command for a switch whose state is that of a line, and whose actions end with setting that line
  -- as the command says: if the actions before it complete and the line takes the value, then a read of
  -- the line behind it gives the state that the command asks for, and that state is published; or the
  -- read fails and nothing is published; if lines read as they were set.
  pub handle_switch_line :
      (entity : Entity) (payload : Bytes) (desired : Bool) (before : List Action) (last : Action)
      (memory : Memory) (s s1 : Home L H T)
      → parse_switch_payload payload ≡ some desired
      → (if desired then entity.on else entity.off) ≡ before ++ last ∷ []
      → last.kind ≡ codes "gpio"
      → last.value ≡ some desired
      → last.gpio ≡ entity.state.gpio
      → entity.state.kind ≡ codes "gpio"
      → execute (executor_targets library transport cfg run_command delay) cfg before s
        ≡ (completed, s1)
      → s1.stopping ≡ false
      → KeepsValue library
      → (set_output library last.gpio desired s1.manager s1.hardware).0 ≡ ok tt
      → let services = controller_services library transport cfg run_command delay in
        let s' = (handle_switch services cfg entity payload memory s).1 in
        let sent =
          publish transport cfg
            (entity_topic cfg entity.id (codes "state"))
            (state_payload desired)
            (mqtt_qos cfg)
            true
            s1.network in
        let hw = (set_output library last.gpio desired s1.manager s1.hardware).1 in
        let read = (output_state library entity.state.gpio s1.manager hw).0 in
        ((read ≡ err (cannot_read entity.state.gpio)) × (s'.network ≡ s1.network))
        ⊎ ((read ≡ ok desired) × (s'.network ≡ sent.1))
  handle_switch_line entity payload desired before last memory s s1 command e kind given same_line
        state_kind done going kept works =
      let services = controller_services library transport cfg run_command delay in
      let actions = if desired then entity.on else entity.off in
      let ran = actions_completed actions before last desired s s1 e kind given going done works in
      let whole = handle_switch-report services cfg entity payload desired memory s command in
      let s2 : Home L H T = (services.execute actions s).1 in
      let read =
        output_state-set_output library s1.manager last.gpio desired s1.hardware kept works in
      rw (whole, ran) (report_line entity _ desired _ state_kind (rw (← same_line) read))
