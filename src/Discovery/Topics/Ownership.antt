-- ===== src/Discovery/Topics/Ownership.antt =====
-- `ownedDiscoveryTopic` accepts exactly the topics that `desiredDiscoveryPublications` forms.
use mathlib.Core.List.{reverse, reverse-append, reverse-reverse}
use mqtt_raspberry_controlle.Base.{
  true, false, List, [], ◌∷◌, ◌++◌, append_assoc, append-nil, Bytes, codes, same, same_iff,
  is_empty, contains_any, All, ◌≡◌, ◌≢◌, ◌↔◌, refl, sym, ap, ◌∙◌, inl, inr, arith, Bool-cases,
}
use mqtt_raspberry_controlle.Discovery.Topics.{
  split_from, split_slashes, join_slashes, all_id_bytes, valid_discovery_id, is_entity_kind,
  owned_parts, owned_discovery_topic, discovery_topic,
}

abbrev pub LacksSlash : Bytes → Type 0
LacksSlash = All (λ c. c ≢ b'/')

split-append :
    (part xs rest : Bytes)
    → split_from part (xs ++ b'/' ∷ rest) ≡ split_from part xs ++ split_from [] rest
unfolding split_from
split-append part [] rest = refl
split-append part (c ∷ xs) rest =
    ground (arith, split-append [] xs rest, split-append (part ++ c ∷ []) xs rest)

split-LacksSlash : (part xs : Bytes) → LacksSlash xs → split_from part xs ≡ (part ++ xs) ∷ []
unfolding split_from
split-LacksSlash part [] _ = rw append-nil
split-LacksSlash part (c ∷ xs) (hc, h) =
    ground (arith, split-LacksSlash (part ++ c ∷ []) xs h, append_assoc part (c ∷ []) xs)

split-ne-nil : (part xs : Bytes) → split_from part xs ≢ []
unfolding split_from
split-ne-nil part [] = λ e. cc
split-ne-nil part (c ∷ xs) = ground (arith, split-ne-nil (part ++ c ∷ []) xs)

join-cons :
    (p : Bytes) (ps : List Bytes) → ps ≢ [] → join_slashes (p ∷ ps) ≡ p ++ (b'/' ∷ join_slashes ps)
unfolding join_slashes
join-cons p [] h = absurd (h refl)
join-cons p (q ∷ ps) h = refl

join-split_from : (part xs : Bytes) → join_slashes (split_from part xs) ≡ part ++ xs
unfolding split_from
join-split_from part [] = unfold join_slashes in (sym (append-nil part))
join-split_from part (c ∷ xs) = ground (
  arith,
  join-cons part (split_from [] xs) (split-ne-nil [] xs),
  join-split_from [] xs,
  join-split_from (part ++ c ∷ []) xs,
  append_assoc part (c ∷ []) xs,
)

all_id_bytes-LacksSlash : (v : Bytes) → all_id_bytes v ≡ true → LacksSlash v
unfolding all_id_bytes
all_id_bytes-LacksSlash [] h = tt
all_id_bytes-LacksSlash (c ∷ v) h = ground (arith, all_id_bytes-LacksSlash v)

pub valid_discovery_id-LacksSlash : (v : Bytes) → valid_discovery_id v ≡ true → LacksSlash v
unfolding valid_discovery_id
valid_discovery_id-LacksSlash [] h = tt
valid_discovery_id-LacksSlash (c ∷ v) h = ground (arith, all_id_bytes-LacksSlash v)

is_entity_kind-LacksSlash : (k : Bytes) → is_entity_kind k ≡ true → LacksSlash k
unfolding is_entity_kind
is_entity_kind-LacksSlash k h = elim (Bool-cases (same k (codes "switch"))) [
  | inl e ↦ rw ((same_iff k _).0 e) (omega arith)
  | inr switch ↦ elim (Bool-cases (same k (codes "button"))) [
    | inl e ↦ rw ((same_iff k _).0 e) (omega arith)
    | inr button ↦ rw ((same_iff k (codes "binary_sensor")).0 (ground arith)) (omega arith)
  ]
]

split-discovery_topic :
    (prefix kind device entity : Bytes)
    → LacksSlash kind
    → LacksSlash device
    → LacksSlash entity
    → split_slashes (discovery_topic prefix kind device entity)
      ≡ split_from [] prefix ++ (kind ∷ device ∷ entity ∷ codes "config" ∷ [])
unfolding split_slashes discovery_topic
split-discovery_topic prefix kind device entity hk hd he =
    rw
      (
        split-append [] prefix,
        split-append [] kind,
        split-append [] device,
        split-append [] entity,
        split-LacksSlash [] kind hk,
        split-LacksSlash [] device hd,
        split-LacksSlash [] entity he,
      )
      refl

-- What `ownedDiscoveryTopic` asks of the parts, the prefix being those before the last four.
abbrev PartsFit : Bytes → Bytes → Bytes → Bytes → Bytes → Bytes → Type 0
PartsFit prefix kind device entity config device_id =
    (config ≡ codes "config")
    × (device ≡ device_id)
    × (valid_discovery_id entity ≡ true)
    × (is_entity_kind kind ≡ true)
    × (prefix ≢ [])
    × (contains_any prefix (codes "+#") ≡ false)

is_empty_iff : (v : Bytes) → (is_empty v ≡ false) ↔ (v ≢ [])
unfolding is_empty
is_empty_iff [] = (λ h. cc, λ h. absurd (h refl))
is_empty_iff (c ∷ v) = (λ h e. cc, λ h. refl)

owned_parts_iff :
    (config entity device kind : Bytes) (before : List Bytes) (device_id : Bytes)
    → before ≢ []
    → (owned_parts (config ∷ entity ∷ device ∷ kind ∷ before) device_id ≡ true)
      ↔ PartsFit (join_slashes (reverse before)) kind device entity config device_id
unfolding owned_parts
owned_parts_iff config entity device kind [] device_id h = absurd (h refl)
owned_parts_iff config entity device kind (p ∷ ps) device_id h = ground (
  arith,
  same_iff config (codes "config"),
  same_iff device device_id,
  is_empty_iff (join_slashes (reverse (p ∷ ps))),
)

reverse-ne-nil : (ps : List Bytes) → ps ≢ [] → reverse ps ≢ []
reverse-ne-nil ps h e = h (sym (reverse-reverse ps) ∙ ap reverse e)

-- The parts of a discovery topic, the last one first.
pub reverse-discovery_topic :
    (prefix kind device entity : Bytes)
    → is_entity_kind kind ≡ true
    → valid_discovery_id device ≡ true
    → valid_discovery_id entity ≡ true
    → reverse (split_slashes (discovery_topic prefix kind device entity))
      ≡ codes "config" ∷ entity ∷ device ∷ kind ∷ reverse (split_from [] prefix)
reverse-discovery_topic prefix kind device entity hk hd he =
    ap reverse (
      split-discovery_topic prefix kind device entity (is_entity_kind-LacksSlash kind hk)
        (valid_discovery_id-LacksSlash device hd) (valid_discovery_id-LacksSlash entity he))
    ∙ reverse-append (split_from [] prefix) (kind ∷ device ∷ entity ∷ codes "config" ∷ [])

pub owned-discovery_topic :
    (prefix kind device entity : Bytes)
    → prefix ≢ []
    → contains_any prefix (codes "+#") ≡ false
    → is_entity_kind kind ≡ true
    → valid_discovery_id device ≡ true
    → valid_discovery_id entity ≡ true
    → owned_discovery_topic (discovery_topic prefix kind device entity) device ≡ true
unfolding owned_discovery_topic
owned-discovery_topic prefix kind device entity hp hw hk hd he =
    let before = split_from [] prefix in
    let parts = reverse-discovery_topic prefix kind device entity hk hd he in
    let joined : join_slashes (reverse (reverse before)) ≡ prefix =
      ap join_slashes (reverse-reverse before) ∙ join-split_from [] prefix in
    rw parts (
      (owned_parts_iff (codes "config") entity device kind (reverse before) device
          (reverse-ne-nil before (split-ne-nil [] prefix))).1
        (refl, refl, he, hk, rw joined hp, rw joined hw))

join-append :
    (ps qs : List Bytes)
    → ps ≢ []
    → qs ≢ []
    → join_slashes (ps ++ qs) ≡ join_slashes ps ++ (b'/' ∷ join_slashes qs)
unfolding join_slashes
join-append [] qs hp hq = absurd (hp refl)
join-append (p ∷ []) qs hp hq = join-cons p qs hq
join-append (p ∷ q ∷ ps) qs hp hq =
    rw (join-append (q ∷ ps) qs (λ e. cc) hq) (sym (append_assoc p _ _))

-- `topic` is PREFIX/KIND/DEVICE/ENTITY/config with a prefix that holds no wildcard.
abbrev pub Formed : Bytes → Bytes → Type 0
Formed topic device_id =
    (prefix : Bytes) × (kind : Bytes) × (entity : Bytes) × (topic
      ≡ discovery_topic prefix kind device_id entity)
    × (prefix ≢ [])
    × (contains_any prefix (codes "+#") ≡ false)
    × (is_entity_kind kind ≡ true)
    × (valid_discovery_id entity ≡ true)

Formed-of_parts :
    (topic device_id : Bytes) (parts : List Bytes)
    → join_slashes (reverse parts) ≡ topic
    → owned_parts parts device_id ≡ true
    → Formed topic device_id
unfolding owned_parts discovery_topic join_slashes
Formed-of_parts topic device_id (config ∷ entity ∷ device ∷ kind ∷ p ∷ ps) e h =
    let before = reverse (p ∷ ps) in
    let last_four = kind ∷ device ∷ entity ∷ config ∷ [] in
    let fit = (owned_parts_iff config entity device kind (p ∷ ps) device_id (λ e. cc)).0 h in
    let text : topic ≡ join_slashes before ++ (b'/' ∷ join_slashes last_four) =
      sym e
      ∙ ap join_slashes (reverse-append (config ∷ entity ∷ device ∷ kind ∷ []) (p ∷ ps))
      ∙ join-append before last_four (reverse-ne-nil (p ∷ ps) (λ e. cc)) (λ e. cc) in
    (join_slashes before, kind, entity, rw (← fit.1, ← fit.0) text, fit.4, fit.5, fit.3, fit.2)
Formed-of_parts topic device_id _ e h = cc

owned_discovery_topic-Formed :
    (topic device_id : Bytes)
    → owned_discovery_topic topic device_id ≡ true
    → Formed topic device_id
unfolding owned_discovery_topic split_slashes
owned_discovery_topic-Formed topic device_id h =
    Formed-of_parts topic device_id (reverse (split_from [] topic))
      (ap join_slashes (reverse-reverse _) ∙ join-split_from [] topic) h

-- For a device with a valid id, `ownedDiscoveryTopic` accepts exactly the topics that are formed from a
-- prefix that is set and has no wildcard, whatever slashes it holds, a kind of entity, and a valid id of
-- an entity.
pub owned_discovery_topic_iff :
    (topic device_id : Bytes)
    → valid_discovery_id device_id ≡ true
    → (owned_discovery_topic topic device_id ≡ true) ↔ Formed topic device_id
owned_discovery_topic_iff topic device_id hd = (
  owned_discovery_topic-Formed topic device_id,
  λ (prefix, kind, entity, e, hp, hw, hk, he).
      rw e (owned-discovery_topic prefix kind device_id entity hp hw hk hd he),
)
