-- ===== src/Discovery/Topics/Validity.antt =====
-- Which lists of topics `validateDiscoveryState` accepts.
use mqtt_raspberry_controlle.Base.Sorting.{Distinct, sort_strings-Distinct}
use mqtt_raspberry_controlle.Base.{
  true, false, List, [], ◌∷◌, ◌++◌, Bytes, same_iff, is_empty, contains, ◌≡◌, refl, arith,
  Bool-cases, ◌⊎◌, inl, inr,
}
use mqtt_raspberry_controlle.Base.Result.{ok}
use mqtt_raspberry_controlle.Discovery.Topics.{
  DiscoveryState, discovery_state_version, owned_discovery_topic, valid_discovery_id,
  validate_topics, validate_discovery_state, collect_set, union_topics,
}
use mqtt_raspberry_controlle.Discovery.Topics.Sets.{contains-union_topics}

-- Every topic belongs to the device.
abbrev pub AllOwned : Bytes → List Bytes → Type 0
AllOwned device_id topics =
    (t : Bytes) → contains topics t ≡ true → owned_discovery_topic t device_id ≡ true

collect_set-Distinct : (set ts : List Bytes) → Distinct set → Distinct (collect_set set ts)
unfolding collect_set
collect_set-Distinct set [] d = d
collect_set-Distinct set (t ∷ ts) d = elim (Bool-cases (contains set t)) [
  | inl e ↦ rw e (collect_set-Distinct set ts d)
  | inr e ↦ rw e (collect_set-Distinct (t ∷ set) ts (e, d))
]

pub union_topics-Distinct : (first second : List Bytes) → Distinct (union_topics first second)
unfolding union_topics
union_topics-Distinct first second =
    sort_strings-Distinct (collect_set [] (first ++ second))
      (collect_set-Distinct [] (first ++ second) tt)

pub union_topics-AllOwned :
    (device_id : Bytes) (first second : List Bytes)
    → AllOwned device_id first
    → AllOwned device_id second
    → AllOwned device_id (union_topics first second)
union_topics-AllOwned device_id first second h k t there =
    ground (arith, there, contains-union_topics t first second, h t, k t)

validate_topics_passes :
    (device_id : Bytes) (seen ts : List Bytes)
    → AllOwned device_id ts
    → Distinct ts
    → ((t : Bytes) → contains ts t ≡ true → contains seen t ≡ false)
    → validate_topics device_id seen ts ≡ ok tt
unfolding validate_topics contains
validate_topics_passes device_id seen [] own d fresh = refl
validate_topics_passes device_id seen (t ∷ ts) own (first, d) fresh =
    let here : contains (t ∷ ts) t ≡ true = ground (arith, same_iff t t) in
    rw (own t here, fresh t here)
      (validate_topics_passes device_id (t ∷ seen) ts (λ s h. own s (ground (arith, h))) d
        (λ s h. ground (arith, h, first, same_iff t s, fresh s (ground (arith, h)))))

validate_topics-AllOwned :
    (device_id : Bytes) (seen ts : List Bytes)
    → validate_topics device_id seen ts ≡ ok tt
    → AllOwned device_id ts
unfolding validate_topics contains
validate_topics-AllOwned device_id seen [] h t there = cc
validate_topics-AllOwned device_id seen (t ∷ ts) h s there =
    elim (Bool-cases (owned_discovery_topic t device_id)) [
      | inr e ↦ absurd (ground (arith, rw e at h))
      | inl own ↦ elim (Bool-cases (contains seen t)) [
        | inl e ↦ absurd (ground (arith, rw (own, e) at h))
        | inr e ↦ ground (
          arith,
          there,
          own,
          same_iff t s,
          validate_topics-AllOwned device_id (t ∷ seen) ts (rw (own, e) at h) s,
        )
      ]
    ]

-- A manifest of the current version with an owner, a valid device and topics of its own, each listed
-- once, is valid.
pub validate_discovery_state_passes :
    (s : DiscoveryState)
    → s.version ≡ discovery_state_version
    → is_empty s.owner_id ≡ false
    → valid_discovery_id s.device_id ≡ true
    → AllOwned s.device_id s.topics
    → Distinct s.topics
    → validate_discovery_state s ≡ ok tt
unfolding validate_discovery_state contains
validate_discovery_state_passes s version owner device own d =
    rw (version, owner, device) (validate_topics_passes s.device_id [] s.topics own d (λ t h. refl))

empty_is_nil : {A : Type 0} (xs : List A) → is_empty xs ≡ true → xs ≡ []
unfolding is_empty
empty_is_nil [] h = refl
empty_is_nil (x ∷ xs) h = cc

valid_discovery_id-not_empty : (s : Bytes) → valid_discovery_id s ≡ true → is_empty s ≡ false
unfolding valid_discovery_id is_empty
valid_discovery_id-not_empty [] h = cc
valid_discovery_id-not_empty (c ∷ s) h = refl

-- The initial manifest, or one whose fields passed each check.
valid_cases :
    (s : DiscoveryState)
    → validate_discovery_state s ≡ ok tt
    → (s.topics ≡ [])
      ⊎ ((valid_discovery_id s.device_id ≡ true)
          × (validate_topics s.device_id [] s.topics ≡ ok tt))
unfolding validate_discovery_state
valid_cases s h = ground (arith, h, empty_is_nil s.topics)

-- The topics of a valid manifest belong to its device; one without a device has no topics.
pub validate_discovery_state-AllOwned :
    (s : DiscoveryState)
    → validate_discovery_state s ≡ ok tt
    → AllOwned s.device_id s.topics × (is_empty s.device_id ≡ true → s.topics ≡ [])
unfolding contains
validate_discovery_state-AllOwned s h = elim (valid_cases s h) [
  | inl nothing ↦ (λ t there. absurd (ground (arith, rw nothing at there)), λ _. nothing)
  | inr (valid, passed) ↦ (
    validate_topics-AllOwned s.device_id [] s.topics passed,
    λ e. absurd (ground (arith, e, valid_discovery_id-not_empty s.device_id valid)),
  )
]
