-- ===== src/Discovery/Desired.antt =====
-- controller: `desiredDiscoveryPublications` of controller/discovery.go and `discoveryPayload` of
-- controller/controller.go. `marshal` is json.Marshal, `none` its error.
use mqtt_raspberry_controlle.Base.{
  ℕ, Bool, true, false, not, Option, none, some, List, [], ◌∷◌, ◌++◌, Bytes, codes, same, same_iff,
  is_empty, contains, contains_any, if◌then◌else◌, All, ◌≡◌, ◌≢◌, arith, Option-cases, Bool-cases,
  inl, inr,
}
use mqtt_raspberry_controlle.Base.Dict.{Dict, insert}
use mqtt_raspberry_controlle.Config.{Config, Entity}
use mqtt_raspberry_controlle.Config.Defaults.{mqtt_qos, discovery_enabled}
use mqtt_raspberry_controlle.Discovery.Topics.{
  discovery_topic, owned_discovery_topic, valid_discovery_id, is_entity_kind,
}
use mqtt_raspberry_controlle.Discovery.Topics.Ownership.{owned-discovery_topic}
use mqtt_raspberry_controlle.Discovery.Reconcile.{Publication}
use mqtt_raspberry_controlle.Discovery.Reconcile.Effects.{topics_of}

-- The values of a `map[string]any`.
pub data Value : Type 0 where
  text : Bytes → Value
  texts : List Bytes → Value
  number : ℕ → Value
  boolean : Bool → Value
  object : List (Bytes × Bytes) → List (Bytes × List Bytes) → Value

-- The identifiers that the validation of the configuration lets through.
abbrev pub Nameable : Entity → Type 0
Nameable entity = (is_entity_kind entity.kind ≡ true) × (valid_discovery_id entity.id ≡ true)

module _ (cfg : Config) where
  status_topic : Bytes
  status_topic = cfg.mqtt.base_topic ++ codes "/status"

  topic_of : Entity → Bytes → Bytes
  topic_of entity suffix = cfg.mqtt.base_topic ++ (b'/' ∷ (entity.id ++ (b'/' ∷ suffix)))

  device_payload : Value
  device_payload =
      object
        ((codes "name", cfg.device.name)
          ∷ (codes "manufacturer", cfg.device.manufacturer)
          ∷ (codes "model", cfg.device.model)
          ∷ [])
        ((codes "identifiers", cfg.device.id ∷ []) ∷ [])

  base_payload : Entity → Dict Value
  unfolding device_payload status_topic
  base_payload entity =
      (codes "name", text entity.name)
      ∷ (codes "unique_id", text (cfg.device.id ++ (b'_' ∷ entity.id)))
      ∷ (codes "availability_topic", text status_topic)
      ∷ (codes "payload_available", text (codes "online"))
      ∷ (codes "payload_not_available", text (codes "offline"))
      ∷ (codes "device", device_payload)
      ∷ (codes "qos", number (mqtt_qos cfg))
      ∷ []

  -- if value != "" { base[key] = value }
  optional : Bytes → Bytes → Dict Value → Dict Value
  optional key value base = if is_empty value then base else insert key (text value) base

  switch_fields : Entity → Dict Value → Dict Value
  unfolding topic_of
  switch_fields entity base = insert (codes "optimistic") (boolean false) (
      insert (codes "payload_off") (text (codes "OFF")) (
        insert (codes "payload_on") (text (codes "ON")) (
          insert (codes "state_topic") (text (topic_of entity (codes "state")))
            (insert (codes "command_topic") (text (topic_of entity (codes "set"))) base))))

  button_fields : Entity → Dict Value → Dict Value
  unfolding topic_of
  button_fields entity base =
      insert (codes "payload_press") (text (codes "PRESS"))
        (insert (codes "command_topic") (text (topic_of entity (codes "press"))) base)

  sensor_fields : Entity → Dict Value → Dict Value
  unfolding topic_of
  sensor_fields entity base = insert (codes "payload_off") (text (codes "OFF")) (
      insert (codes "payload_on") (text (codes "ON"))
        (insert (codes "state_topic") (text (topic_of entity (codes "state"))) base))

  pub discovery_payload : Entity → Dict Value
  unfolding base_payload optional switch_fields button_fields sensor_fields
  discovery_payload entity =
      let base =
        optional (codes "device_class") entity.device_class
          (optional (codes "icon") entity.icon (base_payload entity)) in
      if same entity.kind (codes "switch")
      then switch_fields entity base
      else if same entity.kind (codes "button")
      then button_fields entity base
      else if same entity.kind (codes "binary_sensor")
      then sensor_fields entity base
      else base

  module _ (marshal : Dict Value → Option Bytes) where
    unfoldable pub publication : Entity → Bytes → Publication
    publication entity encoded = record {
      entity_id = entity.id;
      topic = discovery_topic cfg.mqtt.discovery.prefix entity.kind cfg.device.id entity.id;
      payload = encoded;
    }

    -- The loop gives up at the first error of `marshal`.
    unfoldable pub publications : List Entity → Option (List Publication)
    unfolding publication
    publications [] = some []
    publications (entity ∷ entities) =
        let later = publications entities in
        elim (marshal (discovery_payload entity)) [
          | none ↦ none
          | some encoded ↦ elim later [
            | none ↦ none
            | some ps ↦ some (publication entity encoded ∷ ps)
          ]
        ]

    unfoldable pub desired_discovery_publications : Option (List Publication)
    unfolding publications
    desired_discovery_publications =
        if not (discovery_enabled cfg) then some [] else publications cfg.entities

    module _ (prefix_set : cfg.mqtt.discovery.prefix ≢ [])
        (no_wildcard : contains_any cfg.mqtt.discovery.prefix (codes "+#") ≡ false)
        (device_valid : valid_discovery_id cfg.device.id ≡ true) where
      publications_owned :
          (entities : List Entity) (ps : List Publication) (t : Bytes)
          → All Nameable entities
          → publications entities ≡ some ps
          → contains (topics_of ps) t ≡ true
          → owned_discovery_topic t cfg.device.id ≡ true
      unfolding publications publication contains
      publications_owned [] ps t _ e h = ground (arith, e, h)
      publications_owned (entity ∷ entities) ps t ((kind, id), valid) e h =
          let own =
            owned-discovery_topic cfg.mqtt.discovery.prefix entity.kind cfg.device.id entity.id
              prefix_set no_wildcard kind device_valid id in
          elim (Option-cases (marshal (discovery_payload entity))) [
            | inl failed ↦ absurd (ground (arith, e, failed))
            | inr (encoded, done) ↦ elim (Option-cases (publications entities)) [
              | inl failed ↦ absurd (ground (arith, e, done, failed))
              | inr (later, rest) ↦
                  let this =
                    discovery_topic cfg.mqtt.discovery.prefix entity.kind cfg.device.id entity.id in
                  ground (
                    arith,
                    e,
                    h,
                    own,
                    done,
                    rest,
                    same_iff this t,
                    publications_owned entities later t valid rest,
                  )
            ]
          ]

      -- Every topic that is published for the configured entities is one that the manifest's check
      -- takes as the device's own, if the discovery prefix is set and has no wildcard and the ids and
      -- kinds of device and entities are valid.
      pub desired_topics_owned :
          (ps : List Publication) (t : Bytes)
          → All Nameable cfg.entities
          → desired_discovery_publications ≡ some ps
          → contains (topics_of ps) t ≡ true
          → owned_discovery_topic t cfg.device.id ≡ true
      unfolding desired_discovery_publications contains
      desired_topics_owned ps t valid e h = elim (Bool-cases (discovery_enabled cfg)) [
        | inl on ↦ publications_owned cfg.entities ps t valid (rw on at e) h
        | inr off ↦ publications_owned [] ps t tt (rw off at e) h
      ]
