-- ===== src/Discovery/Configured/Topics.antt =====
-- The topics of the publications are distinct, since the entities' ids are.
use mathlib.Core.List.{reverse}
use mqtt_raspberry_controlle.Base.{
  true, false, Option, some, List, [], ◌∷◌, Bytes, same, same_iff, contains, All, ◌≡◌, ◌∙◌, ap, sym,
  refl, arith, Option-cases, inl, inr,
}
use mqtt_raspberry_controlle.Base.Dict.{Dict}
use mqtt_raspberry_controlle.Config.{Config, Entity}
use mqtt_raspberry_controlle.Discovery.Topics.{
  split_slashes, discovery_topic, valid_discovery_id, is_entity_kind,
}
use mqtt_raspberry_controlle.Discovery.Topics.Ownership.{reverse-discovery_topic}
use mqtt_raspberry_controlle.Base.Sorting.{Distinct}
use mqtt_raspberry_controlle.Discovery.Reconcile.{Publication}
use mqtt_raspberry_controlle.Discovery.Reconcile.Effects.{topics_of}
use mqtt_raspberry_controlle.Discovery.Desired.{
  Value, Nameable, discovery_payload, publication, publications,
}
use mqtt_raspberry_controlle.Discovery.Configured.Ids.{Fresh}

-- The part before the last one, of a list with the last part first.
abbrev second : List Bytes → Bytes
second [] = []
second (_ ∷ []) = []
second (_ ∷ part ∷ _) = part

discovery_topic_id :
    (prefix kind kind' device entity entity' : Bytes)
    → is_entity_kind kind ≡ true
    → is_entity_kind kind' ≡ true
    → valid_discovery_id device ≡ true
    → valid_discovery_id entity ≡ true
    → valid_discovery_id entity' ≡ true
    → discovery_topic prefix kind device entity ≡ discovery_topic prefix kind' device entity'
    → entity ≡ entity'
discovery_topic_id prefix kind kind' device entity entity' hk hk' hd he he' same_topic =
    sym (ap second (reverse-discovery_topic prefix kind device entity hk hd he))
    ∙ (ap (λ t. second (reverse (split_slashes t))) same_topic
        ∙ ap second (reverse-discovery_topic prefix kind' device entity' hk' hd he'))

module _ (cfg : Config) (marshal : Dict Value → Option Bytes)
    (device : valid_discovery_id cfg.device.id ≡ true) where
  topic_of_entity : Entity → Bytes
  topic_of_entity entity =
      discovery_topic cfg.mqtt.discovery.prefix entity.kind cfg.device.id entity.id

  -- Publications of one entity and of some others.
  publications_cases :
      (entity : Entity) (entities : List Entity) (ps : List Publication)
      → publications cfg marshal (entity ∷ entities) ≡ some ps
      → (later : List Publication) × (publications cfg marshal entities ≡ some later)
        × (topics_of ps ≡ topic_of_entity entity ∷ topics_of later)
  unfolding publications publication topic_of_entity
  publications_cases entity entities ps e =
      elim (Option-cases (marshal (discovery_payload cfg entity))) [
        | inl failed ↦ absurd (ground (arith, e, failed))
        | inr (encoded, done) ↦ elim (Option-cases (publications cfg marshal entities)) [
          | inl failed ↦ absurd (ground (arith, e, done, failed))
          | inr (later, rest) ↦
              let listed : ps ≡ publication cfg marshal entity encoded ∷ later =
                ground (arith, e, done, rest) in
              (later, rest, ap topics_of listed)
        ]
      ]

  other_topic :
      (entity : Entity)
      → Nameable entity
      → (seen : List Bytes) (entities : List Entity) (ps : List Publication)
      → contains seen entity.id ≡ true
      → All Nameable entities
      → Fresh seen entities
      → publications cfg marshal entities ≡ some ps
      → contains (topics_of ps) (topic_of_entity entity) ≡ false
  unfolding publications contains topic_of_entity
  other_topic entity named seen [] ps old _ _ e =
      let nothing : ps ≡ [] = ground (arith, e) in rw nothing refl
  other_topic entity (kind, id) seen (other ∷ entities) ps old ((kind', id'), all) (fresh, later)
        e =
      let (rest, e1, listed) = publications_cases other entities ps e in
      let apart =
        discovery_topic_id cfg.mqtt.discovery.prefix other.kind entity.kind cfg.device.id other.id
          entity.id kind' kind device id' id in
      let behind =
        other_topic entity (kind, id) (other.id ∷ seen) entities rest (ground (arith, old)) all
          later e1 in
      let differ : same (topic_of_entity other) (topic_of_entity entity) ≡ false =
        ground
          (arith, same_iff (topic_of_entity other) (topic_of_entity entity), apart, old, fresh) in
      rw listed (ground (arith, differ, behind))

  pub publications-Distinct :
      (seen : List Bytes) (entities : List Entity) (ps : List Publication)
      → All Nameable entities
      → Fresh seen entities
      → publications cfg marshal entities ≡ some ps
      → Distinct (topics_of ps)
  unfolding publications contains
  publications-Distinct seen [] ps _ _ e =
      let nothing : ps ≡ [] = ground (arith, e) in rw nothing tt
  publications-Distinct seen (entity ∷ entities) ps (named, all) (fresh, later) e =
      let (rest, e1, listed) = publications_cases entity entities ps e in
      rw listed (
        other_topic entity named (entity.id ∷ seen) entities rest
            (ground (arith, same_iff entity.id entity.id)) all later e1,
        publications-Distinct (entity.id ∷ seen) entities rest all later e1,
      )
