-- ===== src/Config/Validation/Names/Patterns.antt =====
-- The two patterns accept what the hand-written loops of the program accept.
use mqtt_raspberry_controlle.Base.{[], ◌∷◌, Bytes, ◌≡◌, refl, arith}
use mqtt_raspberry_controlle.Discovery.Topics.{
  is_id_start, is_id_byte, all_id_bytes, valid_discovery_id,
}
use mqtt_raspberry_controlle.Config.Expansion.{
  is_ascii_letter, is_name_byte, all_name_bytes, valid_environment_name,
}
use mqtt_raspberry_controlle.Config.Validation.Names.{
  in_class, match_rest, match_pattern, id_pattern, env_name_pattern, single,
}

rest_of_id :
    (s : Bytes)
    → match_rest ((b'a', b'z') ∷ (b'0', b'9') ∷ single b'_' ∷ single b'-' ∷ []) s ≡ all_id_bytes s
unfolding match_rest in_class all_id_bytes is_id_byte is_id_start
rest_of_id [] = refl
rest_of_id (c ∷ s) = ground (arith, rest_of_id s)

-- The pattern of ids in `Validate` and the loop of `validDiscoveryID` accept the same texts.
pub id_pattern-valid_discovery_id : (s : Bytes) → id_pattern s ≡ valid_discovery_id s
unfolding id_pattern match_pattern in_class valid_discovery_id is_id_start
id_pattern-valid_discovery_id [] = refl
id_pattern-valid_discovery_id (c ∷ s) = ground (arith, rest_of_id s)

rest_of_name :
    (s : Bytes)
    → match_rest ((b'A', b'Z') ∷ (b'a', b'z') ∷ (b'0', b'9') ∷ single b'_' ∷ []) s
      ≡ all_name_bytes s
unfolding match_rest in_class all_name_bytes is_name_byte is_ascii_letter
rest_of_name [] = refl
rest_of_name (c ∷ s) = ground (arith, rest_of_name s)

name_pattern-valid_environment_name : (s : Bytes) → env_name_pattern s ≡ valid_environment_name s
unfolding env_name_pattern match_pattern in_class valid_environment_name is_ascii_letter
name_pattern-valid_environment_name [] = refl
name_pattern-valid_environment_name (c ∷ s) = ground (arith, rest_of_name s)

-- The pattern of ids accepts what the loop of `validDiscoveryID` accepts, and the pattern of environment
-- names in `validateCommandAction` what the loop of `validEnvironmentName` accepts.
pub patterns_agree :
    (s : Bytes)
    → (id_pattern s ≡ valid_discovery_id s) × (env_name_pattern s ≡ valid_environment_name s)
patterns_agree s = (id_pattern-valid_discovery_id s, name_pattern-valid_environment_name s)
