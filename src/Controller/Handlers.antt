-- ===== src/Controller/Handlers.antt =====
-- controller/controller.go: what a worker does with a command, and the publications of states. The
-- other components stand behind the interfaces that the file declares, here one record of operations
-- on the state `S` of them all. An error is `false` or `none`.
pub mod States
use mqtt_raspberry_controlle.Base.{
  ℕ, Bool, true, false, not, ◌&&◌, ◌||◌, Option, none, some, List, [], ◌∷◌, ◌++◌, Bytes, codes,
  same, if◌then◌else◌,
}
use mqtt_raspberry_controlle.Config.{Config, Entity, Action}
use mqtt_raspberry_controlle.Config.Defaults.{mqtt_qos}
use mqtt_raspberry_controlle.Controller.Payload.{parse_switch_payload, is_press, state_payload}

-- actionExecutor, gpioManager and the `Publish` of mqttClient; and `c.rejectedLog.recordRejection`.
pub record Services (S : Type 0) : Type 0 where
  pub execute : List Action → S → Bool × S
  pub output_state : Bytes → S → Option Bool × S
  pub input_state : Bytes → S → Option Bool × S
  pub publish : Bytes → Bytes → ℕ → Bool → S → Bool × S
  pub record_rejection : S → S

-- The field `state` of each switch's runtime, by the entity's id.
abbrev pub Memory : Type 0
Memory = Bytes → Bool

unfoldable pub remember : Bytes → Bool → Memory → Memory
remember id state memory j = if same id j then state else memory j

-- The loop of New, which starts from a memory without switches.
pub initial_memory : List Entity → Memory → Memory
unfolding remember
initial_memory [] memory = memory
initial_memory (e ∷ es) memory = initial_memory es (
    if same e.kind (codes "switch")
    then remember e.id (elim e.initial_state [ none ↦ false | some b ↦ b ]) memory
    else memory)

unfoldable pub entity_topic : Config → Bytes → Bytes → Bytes
entity_topic cfg entity_id suffix = cfg.mqtt.base_topic ++ (b'/' ∷ (entity_id ++ (b'/' ∷ suffix)))

module _ {S : Type 0} (services : Services S) (cfg : Config) where
  unfoldable pub publish_state : Entity → Bool → S → Bool × S
  unfolding entity_topic
  publish_state entity state =
      services.publish (entity_topic cfg entity.id (codes "state")) (state_payload state)
        (mqtt_qos cfg) true

  unfoldable pub switch_state : Entity → Memory → S → Option Bool × S
  switch_state entity memory s =
      if same entity.state.kind (codes "memory")
      then (some (memory entity.id), s)
      else if same entity.state.kind (codes "gpio")
      then services.output_state entity.state.gpio s
      else (none, s)

  -- Both ends of handleSwitch: read the state, and publish it if it could be read.
  unfoldable pub report : Entity → Memory → S → S
  unfolding switch_state publish_state
  report entity memory s =
      let (current, s1) = switch_state entity memory s in
      elim current [ none ↦ s1 | some state ↦ (publish_state entity state s1).1 ]

  -- The part behind the lock.
  change_switch : Entity → Bool → Memory → S → Memory × S
  unfolding report remember
  change_switch entity desired memory s =
      let (done, s1) = services.execute (if desired then entity.on else entity.off) s in
      if not done
      then (memory, report entity memory s1)
      else (let memory1 =
            if same entity.state.kind (codes "memory")
            then remember entity.id desired memory
            else memory in
          (memory1, report entity memory1 s1))

  pub handle_switch : Entity → Bytes → Memory → S → Memory × S
  unfolding change_switch
  handle_switch entity payload memory s = elim (parse_switch_payload payload) [
    | none ↦ (memory, services.record_rejection s)
    | some desired ↦ change_switch entity desired memory s
  ]

  pub handle_button : Entity → Bytes → S → S
  handle_button entity payload s =
      if not (is_press payload)
      then services.record_rejection s
      else (services.execute entity.press s).1

  -- One round of PublishAllStates.
  publish_entity : Memory → Entity → S → S
  unfolding report publish_state
  publish_entity memory entity s =
      if same entity.kind (codes "switch")
      then report entity memory s
      else if same entity.kind (codes "binary_sensor")
      then (let (current, s1) = services.input_state entity.source.gpio s in
          elim current [ none ↦ s1 | some state ↦ (publish_state entity state s1).1 ])
      else s

  publish_each : Memory → List Entity → S → S
  unfolding publish_entity
  publish_each memory [] s = s
  publish_each memory (entity ∷ entities) s =
      publish_each memory entities (publish_entity memory entity s)

  pub publish_all_states : Memory → S → S
  unfolding publish_each
  publish_all_states memory s = publish_each memory cfg.entities s

  -- The entries of `binaryByInput`, which New fills.
  sensors_of : Bytes → List Entity → List Entity
  sensors_of name [] = []
  sensors_of name (entity ∷ entities) =
      let rest = sensors_of name entities in
      if same entity.kind (codes "binary_sensor") && same entity.source.gpio name
      then entity ∷ rest
      else rest

  publish_sensors : Bool → List Entity → S → S
  unfolding publish_state
  publish_sensors state [] s = s
  publish_sensors state (entity ∷ entities) s =
      publish_sensors state entities (publish_state entity state s).1

  -- `accepting` and `cancelled` as beginCallback reads them.
  pub handle_gpio_input : Bool → Bool → Bytes → Bool → S → S
  unfolding sensors_of publish_sensors
  handle_gpio_input accepting cancelled name state s =
      if not accepting || cancelled
      then s
      else publish_sensors state (sensors_of name cfg.entities) s
