-- ===== src/Controller/Register/Order.antt =====
-- What a connection does behind `Register`, in its order, with a valid configuration.
use mqtt_raspberry_controlle.Base.{
  true, false, none, List, [], ◌∷◌, Bytes, codes, ◌≡◌, ◌∙◌, refl, if◌then◌else◌, Bool-cases, inl,
  inr,
}
use mqtt_raspberry_controlle.Base.Dict.{Dict, keys, has}
use mqtt_raspberry_controlle.Message.{Message}
use mqtt_raspberry_controlle.Config.{Config}
use mqtt_raspberry_controlle.Config.Defaults.{mqtt_qos}
use mqtt_raspberry_controlle.Mqtt.Transport.{Transport}
use mqtt_raspberry_controlle.Mqtt.Client.{
  Client, idle_client, add_session_handler, add_connect_handler, begin_callback, run_handlers,
  subscribe_all, subscribe_with_client, publish, client_status_topic, handle_connect,
}
use mqtt_raspberry_controlle.Controller.Register.Topics.{command_topics, command_topics-Distinct}
use mqtt_raspberry_controlle.Discovery.Configured.Acceptance.{validate-Discoverable}
use mqtt_raspberry_controlle.Base.Checks.{Passed}
use mqtt_raspberry_controlle.Config.Outside.{Outside}
use mqtt_raspberry_controlle.Config.Validation.{validate}
use mqtt_raspberry_controlle.Controller.Register.{Callbacks, on_connected, add_handlers, register}
use mqtt_raspberry_controlle.Controller.Register.Adding.{Added, entities-Added}

module _ {S : Type 0} (calls : Callbacks S) (transport : Transport S) (cfg : Config) where
  unfoldable pub subscribe_each : List Bytes → S → S
  subscribe_each [] s = s
  subscribe_each (topic ∷ topics) s =
      subscribe_each topics (subscribe_with_client transport cfg topic s).1

  subscribe_all-keys :
      (m : Dict (Message → S → S)) (s : S)
      → subscribe_all transport cfg m s ≡ subscribe_each (keys m) s
  unfolding subscribe_all subscribe_each keys
  subscribe_all-keys [] s = refl
  subscribe_all-keys ((topic, handler) ∷ m) s =
      subscribe_all-keys m (subscribe_with_client transport cfg topic s).1

  -- A client with these handlers, when it is connected.
  connect_order :
      (c : Client S) (topics : List Bytes) (s : S)
      → c.accepting ≡ true
      → c.on_session ≡ []
      → c.on_connect ≡ []
      → keys c.subscribers ≡ topics
      → (handle_connect transport cfg
          (add_connect_handler (on_connected calls) (add_session_handler calls.reset_dedupe c))
          s).1
        ≡ on_connected calls
            (publish transport cfg
              (client_status_topic transport cfg)
              (codes "online")
              (mqtt_qos cfg)
              true
              (subscribe_each topics (calls.reset_dedupe s))).1
  unfolding handle_connect add_connect_handler add_session_handler begin_callback run_handlers
  connect_order c topics s on sessions connects listed =
      rw (on, sessions, connects, subscribe_all-keys c.subscribers (calls.reset_dedupe s), listed)
        refl

  on_connected-begin :
      (s : S)
      → let (begun, s1) = calls.begin s in
        on_connected calls s ≡ (
          if begun
          then calls.finish (calls.publish_all_states (calls.publish_discovery s1).1)
          else s1)
  unfolding on_connected
  on_connected-begin s = elim (Bool-cases (calls.begin s).0) [
    | inl e ↦ rw (on_connected, e) refl
    | inr e ↦ rw (on_connected, e) refl
  ]

  -- With a configuration that `Validate` accepts and a client that is not connected, `Register` succeeds. When
  -- this client connects, whatever the state behind it is then: the duplicate cache is cleared, then every
  -- command topic is subscribed to, then the online status is published, and then, if the controller lets
  -- the callback begin, discovery and after it all states are published, and the callback ends.
  pub register_connect :
      (o : Outside) (s s' : S)
      → Passed (validate o cfg)
      → transport.is_connected s ≡ false
      → let (e, c, s1) = register calls transport cfg idle_client s in
        (e ≡ none)
        × (s1 ≡ s)
        × (let subscribed =
              subscribe_each (command_topics cfg cfg.entities) (calls.reset_dedupe s') in
            let online =
              publish transport cfg
                (client_status_topic transport cfg)
                (codes "online")
                (mqtt_qos cfg)
                true
                subscribed in
            let (begun, s2) = calls.begin online.1 in
            (handle_connect transport cfg c s').1 ≡ (
              if begun
              then calls.finish (calls.publish_all_states (calls.publish_discovery s2).1)
              else s2))
  unfolding register add_handlers idle_client has keys Added
  register_connect o s s' valid off =
      let known = validate-Discoverable o cfg valid in
      let d = command_topics-Distinct cfg [] cfg.entities known.nameable known.fresh in
      let (c, e, x) =
        entities-Added calls transport cfg cfg.entities idle_client s (λ t there. refl) d refl
          off in
      rw e (
        refl,
        refl,
        connect_order c (command_topics cfg cfg.entities) s' x.accepting x.session x.connecting
              x.subscribed
            ∙ on_connected-begin _,
      )
