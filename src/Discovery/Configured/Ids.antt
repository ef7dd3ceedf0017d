-- ===== src/Discovery/Configured/Ids.antt =====
-- What `Validate` guarantees about the ids that the discovery topics are made of.
use mqtt_raspberry_controlle.Base.{
  ℕ, ◌+◌, true, false, not, List, [], ◌∷◌, Bytes, contains, All, ◌≡◌, ◌∙◌, sym, arith,
}
use mqtt_raspberry_controlle.Base.Checks.{Passed, first_error-Passed, not_failed}
use mqtt_raspberry_controlle.Config.{Config, Entity}
use mqtt_raspberry_controlle.Config.Outside.{Outside}
use mqtt_raspberry_controlle.Config.Validation.Names.{id_pattern}
use mqtt_raspberry_controlle.Config.Validation.Names.Patterns.{id_pattern-valid_discovery_id}
use mqtt_raspberry_controlle.Config.Validation.Entities.{
  validate_kind, validate_entity, validate_entities,
}
use mqtt_raspberry_controlle.Discovery.Topics.{valid_discovery_id, is_entity_kind}
use mqtt_raspberry_controlle.Discovery.Desired.{Nameable}

-- No id stands in `seen` or twice in the list.
abbrev pub Fresh : List Bytes → List Entity → Type 0
Fresh seen [] = Unit {0}
Fresh seen (entity ∷ entities) =
    (contains seen entity.id ≡ false) × Fresh (entity.id ∷ seen) entities

pub valid_id : (s : Bytes) → not (id_pattern s) ≡ false → valid_discovery_id s ≡ true
valid_id s h = sym (id_pattern-valid_discovery_id s) ∙ ground (arith, h)

module _ (o : Outside) (c : Config) where
  kind_known :
      (entity : Entity) → Passed (validate_kind o c entity) → is_entity_kind entity.kind ≡ true
  unfolding validate_kind is_entity_kind
  kind_known entity h = ground (arith, h)

  entity-Nameable :
      (i : ℕ) (seen : List Bytes) (entity : Entity)
      → Passed (validate_entity o c i seen entity)
      → Nameable entity × (contains seen entity.id ≡ false)
  unfolding validate_entity
  entity-Nameable i seen entity h =
      let (id, (fresh, (name, (kind, _)))) = first_error-Passed _ h in
      ((kind_known entity kind, valid_id entity.id (not_failed _ _ id)), not_failed _ _ fresh)

  pub validate_entities-Fresh :
      (i : ℕ) (seen : List Bytes) (entities : List Entity)
      → Passed (validate_entities o c i seen entities)
      → All Nameable entities × Fresh seen entities
  unfolding validate_entities
  validate_entities-Fresh i seen [] h = (tt, tt)
  validate_entities-Fresh i seen (entity ∷ entities) h =
      let (this, (rest, _)) = first_error-Passed _ h in
      let (nameable, fresh) = entity-Nameable i seen entity this in
      let (all, later) = validate_entities-Fresh (i + 1) (entity.id ∷ seen) entities rest in
      ((nameable, all), (fresh, later))
