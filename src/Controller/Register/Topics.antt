-- ===== src/Controller/Register/Topics.antt =====
-- The topics of the commands, which are distinct where the ids are.
use mqtt_raspberry_controlle.Base.{
  true, false, List, [], ◌∷◌, ◌++◌, Bytes, codes, same, same_iff, contains, All, ◌==◌,
  if◌then◌else◌, ◌≡◌, refl, sym, ap, ◌∙◌, arith, Bool-cases, inl, inr,
}
use mqtt_raspberry_controlle.Config.{Config, Entity}
use mqtt_raspberry_controlle.Discovery.Topics.Ownership.{LacksSlash, valid_discovery_id-LacksSlash}
use mqtt_raspberry_controlle.Discovery.Topics.{valid_discovery_id}
use mqtt_raspberry_controlle.Base.Sorting.{Distinct}
use mqtt_raspberry_controlle.Discovery.Desired.{Nameable}
use mqtt_raspberry_controlle.Discovery.Configured.Ids.{Fresh}
use mqtt_raspberry_controlle.Controller.Handlers.{entity_topic}

-- The topic of an entity's commands, in front of some others.
unfoldable pub command_topic : Config → Entity → List Bytes → List Bytes
command_topic cfg entity others =
    if same entity.kind (codes "switch")
    then entity_topic cfg entity.id (codes "set") ∷ others
    else if same entity.kind (codes "button")
    then entity_topic cfg entity.id (codes "press") ∷ others
    else others

unfoldable pub command_topics : Config → List Entity → List Bytes
command_topics cfg [] = []
command_topics cfg (entity ∷ entities) = command_topic cfg entity (command_topics cfg entities)

before_slash : Bytes → Bytes
before_slash [] = []
before_slash (c ∷ s) = let rest = before_slash s in if c == b'/' then [] else c ∷ rest

before_slash-append : (id rest : Bytes) → LacksSlash id → before_slash (id ++ (b'/' ∷ rest)) ≡ id
unfolding before_slash
before_slash-append [] rest h = refl
before_slash-append (c ∷ id) rest (hc, h) = ground (arith, hc, before_slash-append id rest h)

append-cancel : (base x y : Bytes) → base ++ x ≡ base ++ y → x ≡ y
append-cancel [] x y h = h
append-cancel (c ∷ base) x y h = append-cancel base x y (ground (arith, h))

entity_topic_id :
    (cfg : Config) (id id' suffix suffix' : Bytes)
    → valid_discovery_id id ≡ true
    → valid_discovery_id id' ≡ true
    → entity_topic cfg id suffix ≡ entity_topic cfg id' suffix'
    → id ≡ id'
unfolding entity_topic before_slash
entity_topic_id cfg id id' suffix suffix' h h' same_topic =
    let behind : id ++ (b'/' ∷ suffix) ≡ id' ++ (b'/' ∷ suffix') =
      ground (arith, append-cancel cfg.mqtt.base_topic _ _ same_topic) in
    sym (before_slash-append id suffix (valid_discovery_id-LacksSlash id h))
    ∙ (ap before_slash behind
        ∙ before_slash-append id' suffix' (valid_discovery_id-LacksSlash id' h'))

other_command :
    (cfg : Config) (id suffix : Bytes)
    → valid_discovery_id id ≡ true
    → (seen : List Bytes) (entities : List Entity) → contains seen id ≡ true
    → All Nameable entities
    → Fresh seen entities
    → contains (command_topics cfg entities) (entity_topic cfg id suffix) ≡ false
unfolding command_topics command_topic contains
other_command cfg id suffix valid seen [] old _ _ = refl
other_command cfg id suffix valid seen (other ∷ entities) old ((kind, id'), all) (fresh, later) =
    let behind =
      other_command cfg id suffix valid (other.id ∷ seen) entities (ground (arith, old)) all
        later in
    let set = entity_topic_id cfg other.id id (codes "set") suffix id' valid in
    let press = entity_topic_id cfg other.id id (codes "press") suffix id' valid in
    ground (
      arith,
      behind,
      set,
      press,
      old,
      fresh,
      same_iff (entity_topic cfg other.id (codes "set")) (entity_topic cfg id suffix),
      same_iff (entity_topic cfg other.id (codes "press")) (entity_topic cfg id suffix),
    )

pub command_topics-Distinct :
    (cfg : Config) (seen : List Bytes) (entities : List Entity)
    → All Nameable entities
    → Fresh seen entities
    → Distinct (command_topics cfg entities)
unfolding command_topics command_topic contains
command_topics-Distinct cfg seen [] _ _ = tt
command_topics-Distinct cfg seen (entity ∷ entities) ((kind, id), all) (fresh, later) =
    let rest = command_topics-Distinct cfg (entity.id ∷ seen) entities all later in
    let here : contains (entity.id ∷ seen) entity.id ≡ true =
      ground (arith, same_iff entity.id entity.id) in
    let other = λ (suffix : Bytes).
      other_command cfg entity.id suffix id (entity.id ∷ seen) entities here all later in
    elim (Bool-cases (same entity.kind (codes "switch"))) [
      | inl e ↦ rw e (other (codes "set"), rest)
      | inr e ↦ elim (Bool-cases (same entity.kind (codes "button"))) [
        | inl e2 ↦ rw (e, e2) (other (codes "press"), rest)
        | inr e2 ↦ rw (e, e2) rest
      ]
    ]
