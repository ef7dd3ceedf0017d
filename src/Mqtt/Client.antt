-- ===== src/Mqtt/Client.antt =====
-- mqtt/client.go: `Client`. A method that takes the lock once is one function. Handlers act on the state
-- behind the client. The map of subscribers is read in the order of the list.
pub mod Callbacks
pub mod Delivery
pub mod Closing
use mqtt_raspberry_controlle.Base.{
  ℕ, suc, ◌+◌, ◌-◌, ◌*◌, ◌/◌, ◌^◌, min, Bool, true, false, not, ◌&&◌, Option, none, some, List, [],
  ◌∷◌, ◌++◌, Bytes, codes, length, ltb, ◌==◌, if◌then◌else◌,
}
use mqtt_raspberry_controlle.Base.Dict.{Dict, has, insert}
use mqtt_raspberry_controlle.Message.{Message}
use mqtt_raspberry_controlle.Config.{Config}
use mqtt_raspberry_controlle.Config.Defaults.{mqtt_qos}
use mqtt_raspberry_controlle.Mqtt.Log.{Limiter, second, printf}
use mqtt_raspberry_controlle.Mqtt.Transport.{Transport, PahoMessage, Waited, timed_out, finished}

abbrev pub max_command_payload : ℕ
max_command_payload = 4096

pub record Client (S : Type 0) : Type 0 where
  pub subscribers : Dict (Message → S → S)
  pub on_session : List (S → S)
  pub on_connect : List (S → S)
  pub accepting : Bool
  pub callbacks : ℕ
  pub rejected_log : Limiter

pub data ClientError : Type 0 where
  already_registered shutting_down not_connected : ClientError
  timeout_of : Bytes → ClientError
  refused_by_broker : Bytes → ClientError
  callbacks_timeout shutdown_timeout : ClientError
  offline_failed : ClientError → ClientError
  -- with the error of the publication
  shutdown_timeout_after : ClientError → ClientError

unfoldable pub message_from_paho : PahoMessage → Message
message_from_paho m = record {
  topic = m.topic;
  payload = m.payload;
  retained = m.retained;
  duplicate = m.duplicate;
  qos = m.qos;
  message_id = m.message_id;
}

module _ {S : Type 0} where
  -- The client behind `New`.
  unfoldable pub idle_client : Client S
  idle_client = record {
    subscribers = [];
    on_session = [];
    on_connect = [];
    accepting = true;
    callbacks = 0;
    rejected_log = record { count = 0; last = none };
  }

  unfoldable pub add_connect_handler : (S → S) → Client S → Client S
  add_connect_handler handler c =
      if c.accepting then record c { on_connect = c.on_connect ++ handler ∷ [] } else c

  unfoldable pub add_session_handler : (S → S) → Client S → Client S
  add_session_handler handler c =
      if c.accepting then record c { on_session = c.on_session ++ handler ∷ [] } else c

  unfoldable pub stop_accepting : Client S → Client S
  stop_accepting c = record c { accepting = false }

  unfoldable pub begin_callback : Client S → Bool × Client S
  begin_callback c =
      if not c.accepting then (false, c) else (true, record c { callbacks = c.callbacks + 1 })

  -- c.callbacks.Done()
  unfoldable pub end_callback : Client S → Client S
  end_callback c = record c { callbacks = c.callbacks - 1 }

  unfoldable pub run_handlers : List (S → S) → S → S
  run_handlers [] s = s
  run_handlers (handler ∷ handlers) s = run_handlers handlers (handler s)

  module _ (transport : Transport S) (cfg : Config) where
    -- The result says whether the handler was called.
    unfoldable pub dispatch_message :
        (Message → S → S) → PahoMessage → Client S → S → Bool × Client S × S
    unfolding message_from_paho
    dispatch_message handler m c s =
        if ltb max_command_payload (length m.payload)
        then (false, record c { rejected_log = (printf (transport.now s) c.rejected_log).1 }, s)
        else (true, c, handler (message_from_paho m) s)

    -- The function that `subscribeWithClient` gives to the library for a message of its topic.
    unfoldable pub on_message : (Message → S → S) → PahoMessage → Client S → S → Client S × S
    unfolding begin_callback end_callback
    on_message handler m c s =
        let (begun, c1) = begin_callback c in
        if not begun
        then (c1, s)
        else (let (called, c2, s2) = dispatch_message handler m c1 s in (end_callback c2, s2))

    outcome : Bytes → Waited × S → Option ClientError × S
    outcome topic (timed_out, s) = (some (timeout_of topic), s)
    outcome topic (finished none, s) = (none, s)
    outcome topic (finished (some e), s) = (some (refused_by_broker e), s)

    unfoldable pub subscribe_with_client : Bytes → S → Option ClientError × S
    unfolding outcome
    subscribe_with_client topic s =
        outcome topic (transport.subscribe topic (mqtt_qos cfg) (5 * second) s)

    unfoldable pub register_subscription :
        Bytes → (Message → S → S) → Client S → S → Option ClientError × Client S × S
    register_subscription topic handler c s =
        if has topic c.subscribers
        then (some already_registered, c, s)
        else if not c.accepting
        then (some shutting_down, c, s)
        else (let c1 = record c { subscribers = insert topic handler c.subscribers } in
            if transport.is_connected s
            then (let (e, s1) = subscribe_with_client topic s in (e, c1, s1))
            else (none, c1, s))

    unfoldable pub publish_with_timeout : Bytes → Bytes → ℕ → Bool → ℕ → S → Option ClientError × S
    unfolding outcome
    publish_with_timeout topic payload qos retain timeout s =
        if not (transport.is_connected s)
        then (some not_connected, s)
        else if timeout == 0
        then (some (timeout_of topic), s)
        else outcome topic (transport.publish topic payload qos retain timeout s)

    unfoldable pub publish : Bytes → Bytes → ℕ → Bool → S → Option ClientError × S
    publish topic payload qos retain = publish_with_timeout topic payload qos retain (5 * second)

    unfoldable pub client_status_topic : Bytes
    client_status_topic = cfg.mqtt.base_topic ++ codes "/status"

    -- A subscription that fails is logged, and the loop goes on.
    unfoldable pub subscribe_all : Dict (Message → S → S) → S → S
    subscribe_all [] s = s
    subscribe_all ((topic, handler) ∷ rest) s = subscribe_all rest (subscribe_with_client topic s).1

    unfoldable pub handle_connect : Client S → S → Client S × S
    unfolding run_handlers subscribe_all
    handle_connect c s =
        let (begun, c1) = begin_callback c in
        if not begun
        then (c1, s)
        else (let s1 = run_handlers c1.on_session s in
            let s2 = subscribe_all c1.subscribers s1 in
            let s3 = (publish client_status_topic (codes "online") (mqtt_qos cfg) true s2).1 in
            (end_callback c1, run_handlers c1.on_connect s3))

    unfoldable pub connect : S → Option ClientError × S
    connect s =
        let (e, s1) = transport.connect s in
        (elim e [ none ↦ none | some text ↦ some (refused_by_broker text) ], s1)

    -- Close behind the wait for the callbacks.
    close_connection : ℕ → S → Option ClientError × S
    close_connection deadline s =
        if deadline - transport.now s == 0
        then (some shutdown_timeout, s)
        else (let limit = min (5 * second) (deadline - transport.now s) in
            let (failed, s1) =
              publish_with_timeout client_status_topic (codes "offline") (mqtt_qos cfg) true limit
                s in
            if deadline - transport.now s1 == 0
            then (
              elim failed [
                | none ↦ some shutdown_timeout
                | some e ↦ some (shutdown_timeout_after e)
              ],
              s1,
            )
            else (let quiesce = min (second / 2) (deadline - transport.now s1) in
                let s2 = transport.disconnect (quiesce / 10 ^ 6) s1 in
                (elim failed [ none ↦ none | some e ↦ some (offline_failed e) ], s2)))

    unfoldable pub close : ℕ → Client S → S → Option ClientError × Client S × S
    unfolding close_connection
    close timeout c s =
        let deadline = transport.now s + timeout in
        let c1 = stop_accepting c in
        let (ended, s1) = transport.wait_callbacks deadline s in
        if not ended
        then (some callbacks_timeout, c1, s1)
        else if not (transport.is_connected s1)
        then (none, c1, s1)
        else (let (e, s2) = close_connection deadline s1 in (e, c1, s2))
