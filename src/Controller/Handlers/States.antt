-- ===== src/Controller/Handlers/States.antt =====
-- The state that is published behind a command is the one that then holds.
use mqtt_raspberry_controlle.Base.{
  Bool, true, ◌&&◌, Option, none, some, Bytes, codes, same, same_refl, if◌then◌else◌, ◌≡◌, refl, ap,
  Bool-cases, inl, inr,
}
use mqtt_raspberry_controlle.Config.{Config, Entity}
use mqtt_raspberry_controlle.Controller.Payload.{parse_switch_payload}
use mqtt_raspberry_controlle.Controller.Handlers.{
  Services, Memory, remember, publish_state, switch_state, handle_switch, change_switch, report,
}

module _ {S : Type 0} (services : Services S) (cfg : Config) where
  -- The memory of the switches behind a command.
  abbrev pub memory_after : Entity → Bool → Bool → Memory → Memory
  memory_after entity desired done memory =
      if done && same entity.state.kind (codes "memory")
      then remember entity.id desired memory
      else memory

  -- A payload that is a command for a switch runs the actions of its word; then, whether they
  -- succeed or fail, the switch's state is read, and published if it could be read (`report`). Only
  -- actions that succeed, for a switch with its state in memory, change the memory.
  pub handle_switch-report :
      (entity : Entity) (payload : Bytes) (desired : Bool) (memory : Memory) (s : S)
      → parse_switch_payload payload ≡ some desired
      → let (done, s1) = services.execute (if desired then entity.on else entity.off) s in
        let memory1 = memory_after entity desired done memory in
        handle_switch services cfg entity payload memory s
        ≡ (memory1, report services cfg entity memory1 s1)
  unfolding handle_switch change_switch
  handle_switch-report entity payload desired memory s command =
      elim (Bool-cases (services.execute (if desired then entity.on else entity.off) s).0) [
        | inl e ↦ rw (command, handle_switch, e) refl
        | inr e ↦ rw (command, handle_switch, e) refl
      ]

  switch_state_memory :
      (entity : Entity) (memory : Memory) (s : S)
      → same entity.state.kind (codes "memory") ≡ true
      → switch_state services cfg entity memory s ≡ (some (memory entity.id), s)
  unfolding switch_state
  switch_state_memory entity memory s in_memory = rw in_memory refl

  report_memory :
      (entity : Entity) (memory : Memory) (s : S)
      → same entity.state.kind (codes "memory") ≡ true
      → report services cfg entity memory s
        ≡ (publish_state services cfg entity (memory entity.id) s).1
  unfolding report
  report_memory entity memory s in_memory =
      ap
        (λ (x : Option Bool × S). elim x.0 [
          | none ↦ x.1
          | some state ↦ (publish_state services cfg entity state x.1).1
        ])
        (switch_state_memory entity memory s in_memory)

  -- For a switch with its state in memory, behind a payload that is a command, the memory is the
  -- state that the command asks for if its actions succeed, and the state from before if they fail;
  -- and the memory's state is what is published behind the actions.
  pub handle_switch_memory :
      (entity : Entity) (payload : Bytes) (desired : Bool) (memory : Memory) (s : S)
      → parse_switch_payload payload ≡ some desired
      → same entity.state.kind (codes "memory") ≡ true
      → let (done, s1) = services.execute (if desired then entity.on else entity.off) s in
        let (memory1, s') = handle_switch services cfg entity payload memory s in
        (memory1 entity.id ≡ (if done then desired else memory entity.id))
        × (s' ≡ (publish_state services cfg entity (memory1 entity.id) s1).1)
  unfolding remember
  handle_switch_memory entity payload desired memory s command in_memory =
      let actions = if desired then entity.on else entity.off in
      let whole = handle_switch-report entity payload desired memory s command in
      let last =
        report_memory entity (memory_after entity desired (services.execute actions s).0 memory)
          (services.execute actions s).1 in_memory in
      elim (Bool-cases (services.execute actions s).0) [
        | inl e ↦ rw (whole, last, e, in_memory, same_refl entity.id) (refl, refl)
        | inr e ↦ rw (whole, last, e) (refl, refl)
      ]
