-- ===== src/Controller/Dedupe.antt =====
-- controller/controller.go: `acceptMessage` and `resetDedupe`. The key of a message is the pair of its
-- topic and its message id, whose print "topic:id" tells two pairs apart.
pub mod Window
pub mod Refinement
pub mod Redelivery
use mqtt_raspberry_controlle.Base.{
  ℕ, zero, suc, ◌+◌, ◌%◌, ◌^◌, Bool, true, false, not, ◌&&◌, ◌||◌, Option, none, some, List, [],
  ◌∷◌, ◌++◌, Bytes, same, ltb, ◌==◌, if◌then◌else◌, length,
}
use mqtt_raspberry_controlle.Message.{Message}

abbrev pub duplicate_cache_size : ℕ
duplicate_cache_size = 256

pub record Key : Type 0 where
  pub topic : Bytes
  pub message_id : ℕ

unfoldable pub same_key : Key → Key → Bool
same_key a b = same a.topic b.topic && (a.message_id == b.message_id)

pub record DedupeEntry : Type 0 where
  pub key : Key
  pub generation : ℕ

-- The map `dedupe` as a function; a missing key is `none`.
pub record Dedupe : Type 0 where
  pub map : Key → Option ℕ
  pub order : List DedupeEntry
  pub seq : ℕ

pub reset_dedupe : Dedupe → Dedupe
reset_dedupe d = record { map = λ _. none; order = []; seq = 0 }

abbrev pub update : Key → Option ℕ → (Key → Option ℕ) → Key → Option ℕ
update k v m j = if same_key k j then v else m j

-- c.dedupe[oldest.key] == oldest.generation, where a missing key reads as 0
holds_generation : Option ℕ → ℕ → Bool
holds_generation none g = 0 == g
holds_generation (some h) g = h == g

drop_oldest : DedupeEntry → (Key → Option ℕ) → Key → Option ℕ
unfolding holds_generation
drop_oldest oldest m =
    if holds_generation (m oldest.key) oldest.generation then update oldest.key none m else m

-- for len(c.dedupeOrder) > DuplicateCacheSize { … }
trim : (Key → Option ℕ) → List DedupeEntry → (Key → Option ℕ) × List DedupeEntry
trim m [] = (m, [])
trim m (oldest ∷ rest) = elim (ltb duplicate_cache_size (length (oldest ∷ rest))) [
  | true ↦ trim (drop_oldest oldest m) rest
  | false ↦ (m, oldest ∷ rest)
]

pub record_key : Key → Dedupe → Dedupe
record_key k d =
    let generation = (d.seq + 1) % 2 ^ 64 in
    let (m, order) =
      trim (update k (some generation) d.map)
        (d.order ++ record { key = k; generation = generation } ∷ []) in
    record { map = m; order = order; seq = generation }

is_seen : Option ℕ → Bool
is_seen none = false
is_seen (some _) = true

pub key_of : Message → Key
key_of message = record { topic = message.topic; message_id = message.message_id }

-- Why a message is not passed on.
pub data Verdict : Type 0 where
  accepted closed retained duplicate : Verdict

-- `accepting` is c.accepting, `cancelled` is c.ctx.Err() != nil.
unfoldable pub accept_message : Bool → Bool → Message → Dedupe → Verdict × Dedupe
unfolding is_seen
accept_message accepting cancelled message d =
    if not accepting || cancelled
    then (closed, d)
    else if message.retained
    then (retained, d)
    else if ltb 0 message.qos
    then (let seen = is_seen (d.map (key_of message)) in
        let recorded =
          if not message.duplicate || not seen then record_key (key_of message) d else d in
        (if message.duplicate && seen then duplicate else accepted, recorded))
    else (accepted, d)
