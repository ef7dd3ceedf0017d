-- ===== src/Controller/Register/Adding.antt =====
-- The subscriptions that `registerEntity` adds to a client that is not connected.
use mqtt_raspberry_controlle.Base.{
  true, false, Option, none, List, [], ◌∷◌, ◌++◌, Bytes, codes, same, same_iff, contains, ◌≡◌, refl,
  sym, ap, ◌∙◌, append_assoc, append-nil, arith, Bool-cases, inl, inr,
}
use mqtt_raspberry_controlle.Base.Dict.{Dict, keys, has, insert, has-insert}
use mqtt_raspberry_controlle.Message.{Message}
use mqtt_raspberry_controlle.Config.{Config, Entity}
use mqtt_raspberry_controlle.Mqtt.Transport.{Transport}
use mqtt_raspberry_controlle.Mqtt.Client.{Client, ClientError, register_subscription}
use mqtt_raspberry_controlle.Base.Sorting.{Distinct}
use mqtt_raspberry_controlle.Controller.Handlers.{entity_topic}
use mqtt_raspberry_controlle.Controller.Register.Topics.{command_topic, command_topics}
use mqtt_raspberry_controlle.Controller.Register.{
  Callbacks, then_register, register_entity, register_entities,
}

keys-insert :
    {V : Type 0} (k : Bytes) (v : V) (m : Dict V)
    → has k m ≡ false
    → keys (insert k v m) ≡ keys m ++ k ∷ []
unfolding keys insert has
keys-insert k v [] h = refl
keys-insert k v ((j, w) ∷ m) h = elim (Bool-cases (same j k)) [
  | inl e ↦ absurd (ground (arith, rw e at h))
  | inr e ↦ rw e (ap (λ ks. j ∷ ks) (keys-insert k v m (rw e at h)))
]

module _ {S : Type 0} (calls : Callbacks S) (transport : Transport S) (cfg : Config) where
  -- Subscribed to the new topics too, and else as before.
  pub record Extended (topics : List Bytes) (c c' : Client S) : Type 0 where
    pub subscribed : keys c'.subscribers ≡ keys c.subscribers ++ topics
    pub session : c'.on_session ≡ c.on_session
    pub connecting : c'.on_connect ≡ c.on_connect
    pub accepting : c'.accepting ≡ c.accepting
    pub counter : c'.callbacks ≡ c.callbacks

  subscription_added :
      (topic : Bytes) (handler : Message → S → S) (c : Client S) (s : S)
      → has topic c.subscribers ≡ false
      → c.accepting ≡ true
      → transport.is_connected s ≡ false
      → (c' : Client S) × (register_subscription transport cfg topic handler c s ≡ (none, c', s))
        × (c'.subscribers ≡ insert topic handler c.subscribers)
        × Extended (topic ∷ []) c c'
  unfolding register_subscription
  subscription_added topic handler c s new on off =
      let c' = record c { subscribers = insert topic handler c.subscribers } in
      (
        c',
        rw (new, on, off) refl,
        refl,
        record {
          subscribed = keys-insert topic handler c.subscribers new;
          session = refl;
          connecting = refl;
          accepting = refl;
          counter = refl;
        },
      )

  abbrev pub Fresh : List Bytes → Client S → Type 0
  Fresh topics c = (t : Bytes) → contains topics t ≡ true → has t c.subscribers ≡ false

  unfoldable pub Added : List Bytes → Client S → S → Option ClientError × Client S × S → Type 0
  Added topics c s x = (c' : Client S) × (x ≡ (none, c', s)) × Extended topics c c'

  one_more :
      (topic : Bytes) (handler : Message → S → S) (topics : List Bytes)
      (rest : Client S → S → Option ClientError × Client S × S) (c : Client S) (s : S)
      → ((c1 : Client S) → Fresh topics c1 → c1.accepting ≡ true → Added topics c1 s (rest c1 s))
      → Fresh (topic ∷ topics) c
      → contains topics topic ≡ false
      → c.accepting ≡ true
      → transport.is_connected s ≡ false
      → Added (topic ∷ topics) c s (
          then_register calls transport cfg rest
            (register_subscription transport cfg topic handler c s))
  unfolding then_register Added contains
  one_more topic handler topics rest c s later fresh once on off =
      let (c1, e1, inserted, x1) =
        subscription_added topic handler c s (fresh topic (ground (arith, same_iff topic topic))) on
          off in
      let fresh1 : Fresh topics c1 = λ t there. rw inserted (
        ground (
          arith,
          there,
          once,
          same_iff topic t,
          has-insert t topic handler c.subscribers,
          fresh t (ground (arith, there)),
        )) in
      let (c2, e2, x2) = later c1 fresh1 (x1.accepting ∙ on) in
      (
        c2,
        rw e1 e2,
        record {
          subscribed =
              x2.subscribed
              ∙ (ap (λ ks. ks ++ topics) x1.subscribed
                  ∙ append_assoc (keys c.subscribers) (topic ∷ []) topics);
          session = x2.session ∙ x1.session;
          connecting = x2.connecting ∙ x1.connecting;
          accepting = x2.accepting ∙ x1.accepting;
          counter = x2.counter ∙ x1.counter;
        },
      )

  pub entities-Added :
      (entities : List Entity) (c : Client S) (s : S)
      → Fresh (command_topics cfg entities) c
      → Distinct (command_topics cfg entities)
      → c.accepting ≡ true
      → transport.is_connected s ≡ false
      → Added (command_topics cfg entities) c s (register_entities calls transport cfg entities c s)
  unfolding Added register_entities register_entity command_topics command_topic
  entities-Added [] c s fresh d on off = (
    c,
    refl,
    record {
      subscribed = sym (append-nil (keys c.subscribers));
      session = refl;
      connecting = refl;
      accepting = refl;
      counter = refl;
    },
  )
  entities-Added (entity ∷ entities) c s fresh d on off =
      let topics = command_topics cfg entities in
      let rest = register_entities calls transport cfg entities in
      let later : Distinct topics
          → (c1 : Client S) → Fresh topics c1
          → c1.accepting ≡ true
          → Added topics c1 s (rest c1 s) =
        λ dt c1 fresh1 on1. entities-Added entities c1 s fresh1 dt on1 off in
      elim (Bool-cases (same entity.kind (codes "switch"))) [
        | inl e ↦
            let fresh1 = rw e at fresh in
            let d1 = rw e at d in
            rw e (
              one_more (entity_topic cfg entity.id (codes "set")) (calls.enqueue_switch entity)
                topics rest c s (later d1.1) fresh1 d1.0 on off)
        | inr e ↦ elim (Bool-cases (same entity.kind (codes "button"))) [
          | inl e2 ↦
              let fresh1 = rw (e, e2) at fresh in
              let d1 = rw (e, e2) at d in
              rw (e, e2)
                (one_more (entity_topic cfg entity.id (codes "press")) (calls.enqueue_button entity)
                  topics rest c s (later d1.1) fresh1 d1.0 on off)
          | inr e2 ↦ rw (e, e2) (later (rw (e, e2) at d) c (rw (e, e2) at fresh) on)
        ]
      ]
