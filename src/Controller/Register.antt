-- ===== src/Controller/Register.antt =====
-- controller/controller.go: `Register`, which gives the client the topics and the handlers. The state `S`
-- is that of everything behind the client, this controller included.
pub mod Topics
pub mod Adding
pub mod Order
use mqtt_raspberry_controlle.Base.{
  Bool, not, Option, none, some, List, [], ◌∷◌, Bytes, codes, same, if◌then◌else◌,
}
use mqtt_raspberry_controlle.Message.{Message}
use mqtt_raspberry_controlle.Config.{Config, Entity}
use mqtt_raspberry_controlle.Mqtt.Transport.{Transport}
use mqtt_raspberry_controlle.Mqtt.Client.{
  Client, ClientError, register_subscription, add_session_handler, add_connect_handler,
}
use mqtt_raspberry_controlle.Controller.Handlers.{entity_topic}

-- What the handlers call: `beginCallback` and `c.wg.Done`, and the operations of the controller.
pub record Callbacks (S : Type 0) : Type 0 where
  pub begin : S → Bool × S
  pub finish : S → S
  pub enqueue_switch : Entity → Message → S → S
  pub enqueue_button : Entity → Message → S → S
  pub reset_dedupe : S → S
  pub publish_discovery : S → Bool × S
  pub publish_all_states : S → S

module _ {S : Type 0} (calls : Callbacks S) where
  -- The function that Register adds as a connect handler; an error of the discovery is logged.
  unfoldable pub on_connected : S → S
  on_connected s =
      let (begun, s1) = calls.begin s in
      if not begun
      then s1
      else calls.finish (calls.publish_all_states (calls.publish_discovery s1).1)

  module _ (transport : Transport S) (cfg : Config) where
    -- if err := …; err != nil { return err }
    then_register :
        (Client S → S → Option ClientError × Client S × S)
        → Option ClientError × Client S × S
        → Option ClientError × Client S × S
    then_register rest (none, c, s) = rest c s
    then_register rest (some e, c, s) = (some e, c, s)

    unfoldable pub register_entity : Entity → Client S → S → Option ClientError × Client S × S
    register_entity entity c s =
        if same entity.kind (codes "switch")
        then register_subscription transport cfg (entity_topic cfg entity.id (codes "set"))
            (calls.enqueue_switch entity) c s
        else if same entity.kind (codes "button")
        then register_subscription transport cfg (entity_topic cfg entity.id (codes "press"))
            (calls.enqueue_button entity) c s
        else (none, c, s)

    unfoldable pub register_entities :
        List Entity → Client S → S → Option ClientError × Client S × S
    unfolding then_register
    register_entities [] c s = (none, c, s)
    register_entities (entity ∷ entities) c s =
        then_register (register_entities entities) (register_entity entity c s)

    add_handlers : Option ClientError × Client S × S → Option ClientError × Client S × S
    add_handlers (some e, c, s) = (some e, c, s)
    add_handlers (none, c, s) =
        (none, add_connect_handler on_connected (add_session_handler calls.reset_dedupe c), s)

    unfoldable pub register : Client S → S → Option ClientError × Client S × S
    unfolding add_handlers
    register c s = add_handlers (register_entities cfg.entities c s)
