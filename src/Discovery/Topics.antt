-- ===== src/Discovery/Topics.antt =====
-- controller/discovery.go: topic names, the manifest's validity, and the two set operations.
pub mod Ownership
pub mod Sets
pub mod Validity
use mathlib.Core.List.{reverse}
use mqtt_raspberry_controlle.Base.{
  ℕ, Bool, true, false, not, ◌&&◌, ◌||◌, List, [], ◌∷◌, ◌++◌, Bytes, codes, same, is_empty,
  contains, contains_any, leb, ltb, ◌==◌, if◌then◌else◌, sort_strings,
}
use mqtt_raspberry_controlle.Base.Result.{Result, ok, err}

-- A negative version, which is not supported either, is left out.
pub record DiscoveryState : Type 0 where
  pub version : ℕ
  pub owner_id : Bytes
  pub device_id : Bytes
  pub topics : List Bytes

abbrev pub discovery_state_version : ℕ
discovery_state_version = 1

-- strings.Split(s, "/"); `part` is the part that is being read
pub split_from : Bytes → Bytes → List Bytes
split_from part [] = part ∷ []
split_from part (c ∷ s) = elim (c == b'/') [
  | true ↦ part ∷ split_from [] s
  | false ↦ split_from (part ++ c ∷ []) s
]

unfoldable pub split_slashes : Bytes → List Bytes
unfolding split_from
split_slashes s = split_from [] s

-- strings.Join(parts, "/")
unfoldable pub join_slashes : List Bytes → Bytes
join_slashes [] = []
join_slashes (p ∷ []) = p
join_slashes (p ∷ q ∷ ps) = p ++ (b'/' ∷ join_slashes (q ∷ ps))

unfoldable pub is_id_start : ℕ → Bool
is_id_start c = (leb b'a' c && leb c b'z') || (leb b'0' c && leb c b'9')

unfoldable pub is_id_byte : ℕ → Bool
unfolding is_id_start
is_id_byte c = is_id_start c || (c == b'_') || (c == b'-')

unfoldable pub all_id_bytes : Bytes → Bool
unfolding is_id_byte
all_id_bytes [] = true
all_id_bytes (c ∷ rest) = if is_id_byte c then all_id_bytes rest else false

unfoldable pub valid_discovery_id : Bytes → Bool
unfolding is_id_start all_id_bytes
valid_discovery_id [] = false
valid_discovery_id (c ∷ rest) = if is_id_start c then all_id_bytes rest else false

unfoldable pub is_entity_kind : Bytes → Bool
is_entity_kind k =
    same k (codes "switch") || same k (codes "button") || same k (codes "binary_sensor")

-- `parts` holds the parts of the topic with the last one first, so parts[len(parts)-k] is its k-th.
owned_parts : List Bytes → Bytes → Bool
unfolding is_entity_kind
owned_parts (config ∷ entity ∷ device ∷ kind ∷ p ∷ ps) device_id =
    if not (same config (codes "config"))
      || (not (same device device_id) || not (valid_discovery_id entity))
    then false
    else if not (is_entity_kind kind)
    then false
    else let prefix = join_slashes (reverse (p ∷ ps)) in
      not (is_empty prefix) && not (contains_any prefix (codes "+#"))
owned_parts _ device_id = false

unfoldable pub owned_discovery_topic : Bytes → Bytes → Bool
unfolding owned_parts split_slashes
owned_discovery_topic topic device_id = owned_parts (reverse (split_slashes topic)) device_id

-- fmt.Sprintf("%s/%s/%s/%s/config", prefix, type, device, entity)
unfoldable pub discovery_topic : Bytes → Bytes → Bytes → Bytes → Bytes
discovery_topic prefix kind device entity =
    prefix ++ (b'/' ∷ (kind ++ (b'/' ∷ (device ++ (b'/' ∷ (entity ++ codes "/config"))))))

pub data ManifestError : Type 0 where
  unsupported_version : ℕ → ManifestError
  missing_owner_id invalid_device_id : ManifestError
  foreign_topic : Bytes → ManifestError
  duplicate_topic : Bytes → ManifestError

-- `seen` is the set of the topics before.
unfoldable pub validate_topics : Bytes → List Bytes → List Bytes → Result ManifestError (Unit {0})
validate_topics device_id seen [] = ok tt
validate_topics device_id seen (topic ∷ topics) =
    if not (owned_discovery_topic topic device_id)
    then err (foreign_topic topic)
    else if contains seen topic
    then err (duplicate_topic topic)
    else validate_topics device_id (topic ∷ seen) topics

unfoldable pub validate_discovery_state : DiscoveryState → Result ManifestError (Unit {0})
unfolding validate_topics
validate_discovery_state state =
    if (state.version == 0)
      && (is_empty state.owner_id && (is_empty state.device_id && is_empty state.topics))
    then ok tt
    else if not (state.version == discovery_state_version)
    then err (unsupported_version state.version)
    else if is_empty state.owner_id
    then err missing_owner_id
    else if not (valid_discovery_id state.device_id)
    then err invalid_device_id
    else validate_topics state.device_id [] state.topics

-- set[topic] = struct{}{} for each topic
collect_set : List Bytes → List Bytes → List Bytes
collect_set set [] = set
collect_set set (topic ∷ topics) =
    collect_set (if contains set topic then set else topic ∷ set) topics

pub union_topics : List Bytes → List Bytes → List Bytes
unfolding collect_set
union_topics first second = sort_strings (collect_set [] (first ++ second))

keep_missing : List Bytes → List Bytes → List Bytes
keep_missing desired [] = []
keep_missing desired (topic ∷ previous) =
    let rest = keep_missing desired previous in
    if contains desired topic then rest else topic ∷ rest

pub difference_topics : List Bytes → List Bytes → List Bytes
unfolding keep_missing
difference_topics previous desired = sort_strings (keep_missing desired previous)
