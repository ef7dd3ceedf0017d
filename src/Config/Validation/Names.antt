-- ===== src/Config/Validation/Names.antt =====
-- config/validation.go: the two patterns, durations and topics.
pub mod Patterns
use mqtt_raspberry_controlle.Base.{
  ℕ, Bool, true, false, not, ◌&&◌, ◌||◌, Option, none, some, List, [], ◌∷◌, Bytes, codes, is_empty,
  contains_any, leb, ◌==◌, if◌then◌else◌,
}
use mqtt_raspberry_controlle.Base.Int.{is_positive}
use mqtt_raspberry_controlle.Base.Result.{ok, err}
use mqtt_raspberry_controlle.Base.Space.{trim_space}
use mqtt_raspberry_controlle.Base.Checks.{Check, fail_if, first_error}
use mqtt_raspberry_controlle.Config.Outside.{Outside}
use mqtt_raspberry_controlle.Config.Validation.Errors.{
  Place, ConfigError, invalid_duration, not_positive, empty_topic, wildcard_topic,
}

-- A class of bytes as the ranges of a bracket expression, with both ends.
abbrev pub Class : Type 0
Class = List (ℕ × ℕ)

unfoldable pub in_class : Class → ℕ → Bool
in_class [] c = false
in_class ((low, high) ∷ ranges) c = (leb low c && leb c high) || in_class ranges c

-- The pattern `[…]*$`
unfoldable pub match_rest : Class → Bytes → Bool
unfolding in_class
match_rest class [] = true
match_rest class (c ∷ s) = in_class class c && match_rest class s

-- The pattern `^[…][…]*$`
unfoldable pub match_pattern : Class → Class → Bytes → Bool
unfolding match_rest
match_pattern first later [] = false
match_pattern first later (c ∷ s) = in_class first c && match_rest later s

abbrev pub single : ℕ → ℕ × ℕ
single c = (c, c)

abbrev pub lower_and_digits : Class
lower_and_digits = (b'a', b'z') ∷ (b'0', b'9') ∷ []

-- ^[a-z0-9][a-z0-9_-]*$
unfoldable pub id_pattern : Bytes → Bool
id_pattern =
    match_pattern lower_and_digits ((b'a', b'z') ∷ (b'0', b'9') ∷ single b'_' ∷ single b'-' ∷ [])

-- ^[A-Za-z_][A-Za-z0-9_]*$
unfoldable pub env_name_pattern : Bytes → Bool
env_name_pattern =
    match_pattern ((b'A', b'Z') ∷ (b'a', b'z') ∷ single b'_' ∷ [])
      ((b'A', b'Z') ∷ (b'a', b'z') ∷ (b'0', b'9') ∷ single b'_' ∷ [])

unfoldable pub validate_positive_duration : Outside → Place → Bytes → Check ConfigError
validate_positive_duration o name raw = elim (o.parse_duration raw) [
  | none ↦ err (invalid_duration name)
  | some duration ↦ fail_if (not (is_positive duration)) (not_positive name)
]

-- if raw != "" { validatePositiveDuration(name, raw) }
unfoldable pub optional_duration : Outside → Place → Bytes → Check ConfigError
optional_duration o name raw = if is_empty raw then ok tt else validate_positive_duration o name raw

unfoldable pub validate_topic_prefix : Place → Bytes → Check ConfigError
validate_topic_prefix name topic = first_error (
    fail_if (is_empty topic) (empty_topic name)
    ∷ fail_if (contains_any topic (codes "+#")) (wildcard_topic name)
    ∷ [])

unfoldable pub topic_if : Bool → Place → Bytes → Check ConfigError
topic_if enabled name topic = if enabled then validate_topic_prefix name topic else ok tt

unfoldable pub validate_publish_topic : Place → Bytes → Check ConfigError
validate_publish_topic name topic = first_error (
    fail_if (is_empty (trim_space topic)) (empty_topic name)
    ∷ validate_topic_prefix name topic
    ∷ [])
