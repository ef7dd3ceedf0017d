-- ===== src/Discovery/Reconcile/Effects.antt =====
-- What the parts of `reconcileDiscovery` do to the manifest and to the broker, on success and on any
-- failure.
use mqtt_raspberry_controlle.Base.{
  ◌≤◌, true, false, List, [], ◌∷◌, map, Bytes, same, is_empty, ltb, contains, if◌then◌else◌,
  sort_strings, some, none, Option, ◌≡◌, refl, ◌⊎◌, inl, arith,
}
use mqtt_raspberry_controlle.Base.Result.{Result, ok}
use mqtt_raspberry_controlle.Discovery.Topics.{DiscoveryState}
use mqtt_raspberry_controlle.Discovery.World.{
  corrupt, World, DiscoveryError, perform, retain, later_faults, read_only, replace_manifest,
  set_temporary,
}
use mqtt_raspberry_controlle.Discovery.Reconcile.{
  Settings, Publication, max_discovery_state_size, replace_file, write_discovery_state,
  remove_stale, publish_desired,
}

abbrev pub Broker : Type 0
Broker = Bytes → Option Bytes

abbrev pub sorted : DiscoveryState → DiscoveryState
sorted s = record s { topics = sort_strings s.topics }

-- The state behind a call that had no effect.
abbrev pub next : World → World
next w = record w { faults = later_faults w.faults }

-- A message that was retained for a topic before, and the one that is after the publications.
abbrev pub message : List Publication → Bytes → Option Bytes → Option Bytes
message [] t old = old
message (p ∷ ps) t old =
    message ps t
      (if same p.topic t then (if is_empty p.payload then none else some p.payload) else old)

abbrev pub topics_of : List Publication → List Bytes
topics_of = map (λ p. p.topic)

abbrev pub Removed : List Bytes → World → Result DiscoveryError (Unit {0}) × World → Type 0
Removed stale w (r, w') =
    (w'.manifest ≡ w.manifest)
    × ((t : Bytes) → (w'.broker t ≡ w.broker t) ⊎ (w'.broker t ≡ none))
    × (r ≡ ok tt → (t : Bytes) → w'.broker t ≡ (if contains stale t then none else w.broker t))

pub remove_stale-Removed : (stale : List Bytes) (w : World) → Removed stale w (remove_stale stale w)
unfolding remove_stale contains perform retain is_empty
remove_stale-Removed [] w = (refl, λ t. inl refl, λ _ t. refl)
remove_stale-Removed (topic ∷ stale) w =
    let (kept, less, all) = remove_stale-Removed stale (retain topic [] (next w)) in
    (ground arith, λ t. ground (arith, less t), λ h t. ground (arith, all (ground arith) t))

abbrev pub Published : List Publication → World → Result DiscoveryError (Unit {0}) × World → Type 0
Published ps w (r, w') =
    (w'.manifest ≡ w.manifest)
    × ((t : Bytes) → (w'.broker t ≡ w.broker t) ⊎ (contains (topics_of ps) t ≡ true))
    × (r ≡ ok tt → (t : Bytes) → w'.broker t ≡ message ps t (w.broker t))

pub publish_desired-Published :
    (ps : List Publication) (w : World) → Published ps w (publish_desired ps w)
unfolding publish_desired contains perform retain
publish_desired-Published [] w = (refl, λ t. inl refl, λ _ t. refl)
publish_desired-Published (p ∷ ps) w =
    let (kept, more, all) = publish_desired-Published ps (retain p.topic p.payload (next w)) in
    (ground arith, λ t. ground (arith, more t), λ h t. ground (arith, all (ground arith) t))

-- The state with no more faults to come.
abbrev pub calm : World → World
calm w = record w { faults = [] }

replace_file_works :
    (s : DiscoveryState) (w : World)
    → replace_file s (calm w) ≡ (ok tt, calm (replace_manifest s w))
unfolding replace_file perform read_only replace_manifest set_temporary
replace_file_works s w = refl

-- Without faults the write succeeds, if the text is not too long.
pub write_discovery_state_works :
    (c : Settings) (s : DiscoveryState) (w : World)
    → c.encoded_size (sorted s) ≤ max_discovery_state_size
    → write_discovery_state c s (calm w) ≡ (ok tt, calm (replace_manifest (sorted s) w))
unfolding write_discovery_state perform read_only set_temporary replace_manifest
write_discovery_state_works c s w fits =
    let small : ltb max_discovery_state_size (c.encoded_size (sorted s)) ≡ false = ground arith in
    rw (small, replace_file_works (sorted s) (record w { temporary = some corrupt })) refl

pub remove_stale_works :
    (stale : List Bytes) (w : World)
    → (w' : World) × (remove_stale stale (calm w) ≡ (ok tt, calm w'))
unfolding remove_stale perform retain
remove_stale_works [] w = (w, refl)
remove_stale_works (topic ∷ stale) w = remove_stale_works stale (retain topic [] w)

pub publish_desired_works :
    (ps : List Publication) (w : World)
    → (w' : World) × (publish_desired ps (calm w) ≡ (ok tt, calm w'))
unfolding publish_desired perform retain
publish_desired_works [] w = (w, refl)
publish_desired_works (p ∷ ps) w = publish_desired_works ps (retain p.topic p.payload w)
