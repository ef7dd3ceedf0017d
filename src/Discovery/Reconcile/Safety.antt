-- ===== src/Discovery/Reconcile/Safety.antt =====
-- The manifest lists every retained discovery message, at each point where the process may stop.
use mqtt_raspberry_controlle.Base.{
  codes, Bool, true, false, not, ◌&&◌, List, [], Bytes, same, is_empty, contains, none, ◌≡◌, refl,
  sym, subst, ap, ◌∙◌, ◌⊎◌, inl, inr, arith, Bool-cases, Option-cases,
}
use mqtt_raspberry_controlle.Base.Result.{Result, ok, err}
use mqtt_raspberry_controlle.Discovery.Topics.{DiscoveryState}
use mqtt_raspberry_controlle.Discovery.World.{
  Stored, absent, corrupt, holds, World, DiscoveryError, system_call, pure, perform, read_only,
  after, ◌>>=◌, ◌>>◌,
}
use mqtt_raspberry_controlle.Discovery.Reconcile.{
  Settings, Publication, manifest_of, empty_device, decode, write_discovery_state,
  publish_discovery_changes, load_discovery_state, check_manifest, release_device, update_topics,
  reconcile_discovery, no_state,
}
use mqtt_raspberry_controlle.Discovery.Reconcile.Effects.{next}
use mqtt_raspberry_controlle.Discovery.Reconcile.Writing.{write_discovery_state-Written}
use mqtt_raspberry_controlle.Discovery.Reconcile.Tracking.{
  listed, Within, Tracked, after_cases, write-Tracked, changes-Within, changes_success,
}
use mqtt_raspberry_controlle.Discovery.Reconcile.Updating.{update_topics-Tracked}

-- What holds where the next step goes on with the manifest `current`.
abbrev pub Ready : Result DiscoveryError DiscoveryState × World → Type 0
Ready (ok current, w) = Tracked w × Within current.topics w.broker
Ready (err _, w) = Tracked w

nothing_left :
    (topics : List Bytes) (w w1 : World) (a : Unit {0})
    → Within topics w.broker
    → publish_discovery_changes topics [] w ≡ (ok a, w1)
    → Within [] w1.broker
unfolding contains
nothing_left topics w w1 tt inside e t there =
    let now = changes_success topics [] w w1 e t in
    elim (Option-cases (w.broker t)) [
      | inl gone ↦ absurd (there (now ∙ ground arith))
      | inr (m, present) ↦
          let old : contains topics t ≡ true = inside t (λ e. cc) in
          absurd (there (now ∙ ground arith))
    ]

module _ (c : Settings) (previous : DiscoveryState) where
  empty_device-Ready :
      (w : World)
      → Tracked w
      → Within previous.topics w.broker
      → listed w.manifest ≡ previous.topics
      → Ready (empty_device c previous w)
  unfolding empty_device manifest_of no_state contains
  empty_device-Ready w tracked inside stored =
      let (within, same_manifest) =
        changes-Within previous.topics [] previous.topics w inside (λ t h. cc) in
      go (publish_discovery_changes previous.topics [] w) refl (
        subst (λ l. Within l (publish_discovery_changes previous.topics [] w).1.broker)
          (sym (ap listed same_manifest ∙ stored)) within)
    where
      finish :
          (x : Result DiscoveryError (Unit {0}) × World)
          → Tracked x.1
          → Within [] x.1.broker
          → Ready (after (λ _. pure no_state) x)
      finish (ok _, w2) t n = (t, n)
      finish (err _, w2) t n = t

      go :
          (x : Result DiscoveryError (Unit {0}) × World)
          → publish_discovery_changes previous.topics [] w ≡ x
          → Tracked x.1
          → Ready (after (λ _. write_discovery_state c (manifest_of c []) >>= λ _. pure no_state) x)
      go (ok a, w1) e t =
          let empty = nothing_left previous.topics w w1 a inside e in
          let (kept, _, _) = write_discovery_state-Written c (manifest_of c []) w1 in
          finish (write_discovery_state c (manifest_of c []) w1)
            (write-Tracked c (manifest_of c []) w1 t empty) (rw kept empty)
      go (err _, w1) e t = t

  pub release_device-Ready :
      (w : World)
      → Tracked w
      → Within previous.topics w.broker
      → listed w.manifest ≡ previous.topics
      → Ready (release_device c previous w)
  unfolding release_device
  release_device-Ready w tracked inside stored = elim (Bool-cases foreign) [
    | inl e ↦ rw e (empty_device-Ready w tracked inside stored)
    | inr e ↦ rw e (tracked, inside)
  ]
    where
      foreign : Bool
      foreign = not (is_empty previous.device_id) && not (same previous.device_id c.device_id)

-- Checking the manifest changes nothing.
pub check_manifest_state :
    (c : Settings) (previous : DiscoveryState) (w : World) → (check_manifest c previous w).1 ≡ w
unfolding check_manifest
check_manifest_state c previous w = ground arith

-- Loading gives the topics that the manifest lists, and changes neither manifest nor broker.
abbrev pub Loaded : World → Result DiscoveryError DiscoveryState × World → Type 0
Loaded w (ok previous, w') =
    (listed w'.manifest ≡ previous.topics) × (w'.manifest ≡ w.manifest) × (w'.broker ≡ w.broker)
Loaded w (err _, w') = (w'.manifest ≡ w.manifest) × (w'.broker ≡ w.broker)

pub read_only_cases :
    (e : DiscoveryError) (w : World)
    → (perform e read_only w ≡ (ok tt, next w)) ⊎ (perform e read_only w ≡ (err e, next w))
unfolding perform read_only
read_only_cases e w = ground arith

decode-Loaded : (m : Stored) (w : World) → w.manifest ≡ m → Loaded w (decode m w)
unfolding decode no_state
decode-Loaded absent w e = (ap listed e, refl, refl)
decode-Loaded corrupt w e = (refl, refl)
decode-Loaded (holds s) w e = (ap listed e, refl, refl)

pub load-Loaded : (w : World) → Loaded w (load_discovery_state w)
unfolding load_discovery_state
load-Loaded w = elim (read_only_cases (system_call (codes "open")) w) [
  | inl e ↦ rw e (decode-Loaded w.manifest (next w) refl)
  | inr e ↦ rw e (refl, refl)
]

module _ (c : Settings) (ps : List Publication) where
  from_manifest :
      (x : Result DiscoveryError DiscoveryState × World)
      → Ready x
      → Tracked (after (update_topics c ps) x).1
  from_manifest (ok current, w) (tracked, inside) =
      update_topics-Tracked c ps current w tracked inside
  from_manifest (err _, w) tracked = tracked

  from_Loaded :
      (w : World) (x : Result DiscoveryError DiscoveryState × World)
      → Tracked w
      → Loaded w x
      → Tracked
          (after
            (λ previous.
              check_manifest c previous >> (release_device c previous >>= update_topics c ps))
            x).1
  from_Loaded w (err _, w1) tracked (m, b) = rw (m, b) tracked
  from_Loaded w (ok previous, w1) tracked (l, m, b) =
      let tracked1 : Tracked w1 = rw (m, b) tracked in
      let same_state = check_manifest_state c previous w1 in
      after_cases Tracked _ (check_manifest c previous w1) (rw same_state tracked1) λ _ w2 e.
        let e2 : w2 ≡ w1 = sym (ap (λ x. x.1) e) ∙ same_state in
        rw e2 (
          from_manifest (release_device c previous w1)
            (release_device-Ready c previous w1 tracked1 (rw l at tracked1) l))

  reconcile-Tracked :
      (w : World)
      → is_empty c.state_file ≡ false
      → Tracked w
      → Tracked (reconcile_discovery c ps w).1
  unfolding reconcile_discovery
  reconcile-Tracked w configured tracked =
      rw configured (elim (read_only_cases (system_call (codes "lock")) w) [
        | inl e ↦
            rw e
              (from_Loaded (next w) (load_discovery_state (next w)) tracked (load-Loaded (next w)))
        | inr e ↦ rw e tracked
      ])

-- Each topic has no retained message, or is listed in the manifest.
abbrev pub IsTracked : World → Type 0
IsTracked w = (t : Bytes) → (w.broker t ≡ none) ⊎ (contains (listed w.manifest) t ≡ true)

pub IsTracked-Tracked : (w : World) → IsTracked w → Tracked w
IsTracked-Tracked w h t present = elim (h t) [ inl gone ↦ absurd (present gone) | inr e ↦ e ]

Tracked-IsTracked : (w : World) → Tracked w → IsTracked w
Tracked-IsTracked w h t = elim (Option-cases (w.broker t)) [
  | inl gone ↦ inl gone
  | inr (m, there) ↦ inr (h t (λ e. cc))
]

-- Whatever fails, each topic has no retained message or is listed in the manifest behind a
-- reconciliation, if that was so before it and a state file is configured.
pub reconcile-IsTracked :
    (c : Settings) (ps : List Publication) (w : World)
    → is_empty c.state_file ≡ false
    → IsTracked w
    → IsTracked (reconcile_discovery c ps w).1
reconcile-IsTracked c ps w configured tracked =
    Tracked-IsTracked (reconcile_discovery c ps w).1
      (reconcile-Tracked c ps w configured (IsTracked-Tracked w tracked))
