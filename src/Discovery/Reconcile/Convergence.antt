-- ===== src/Discovery/Reconcile/Convergence.antt =====
-- What a reconciliation that succeeds has reached, and that it succeeds where nothing fails.
use mqtt_raspberry_controlle.Base.{
  codes, ◌≤◌, Bool, true, false, not, ◌&&◌, List, [], Bytes, same, same_iff, is_empty, none, ◌≡◌,
  refl, sym, subst, ◌≢◌, ap, ◌∙◌, ◌⊎◌, inl, inr, arith, Bool-cases,
}
use mqtt_raspberry_controlle.Base.Result.{Result, ok, err}
use mqtt_raspberry_controlle.Discovery.Topics.{
  DiscoveryState, union_topics, difference_topics, validate_discovery_state,
}
use mqtt_raspberry_controlle.Discovery.World.{
  Stored, absent, corrupt, holds, World, replace_manifest, DiscoveryError, system_call, perform,
  read_only, after, ◌>>=◌, ◌>>◌, M,
}
use mqtt_raspberry_controlle.Discovery.Reconcile.{
  Settings, Publication, max_discovery_state_size, manifest_of, empty_device, decode,
  write_discovery_state, publish_discovery_changes, load_discovery_state, check_manifest,
  release_device, update_topics, reconcile_discovery, no_state,
}
use mqtt_raspberry_controlle.Discovery.Reconcile.Effects.{sorted, message, topics_of}
use mqtt_raspberry_controlle.Discovery.Reconcile.Tracking.{Within, Tracked, changes_exact}
use mqtt_raspberry_controlle.Discovery.Reconcile.Effects.{
  calm, write_discovery_state_works, remove_stale_works, publish_desired_works,
}
use mqtt_raspberry_controlle.Discovery.Reconcile.Safety.{
  Ready, Loaded, load-Loaded, release_device-Ready, check_manifest_state, read_only_cases,
  IsTracked, IsTracked-Tracked,
}
use mqtt_raspberry_controlle.Discovery.Reconcile.Updating.{write_success}

-- Inversion of a bind that succeeded.
after_ok :
    {A B : Type 0} (k : A → M B) (x : Result DiscoveryError A × World) {b : B} {w' : World}
    → after k x ≡ (ok b, w')
    → (a : A) × (w : World) × (x ≡ (ok a, w)) × (k a w ≡ (ok b, w'))
after_ok k (ok a, w) h = (a, w, refl, h)
after_ok k (err e, w) h = cc

module _ (c : Settings) (ps : List Publication) where
  -- The manifest lists the desired topics, and the broker retains the publications and nothing else.
  abbrev pub Reconciled : World → Type 0
  Reconciled w =
      (w.manifest ≡ holds (sorted (manifest_of c (topics_of ps))))
      × ((t : Bytes) → w.broker t ≡ message ps t none)

  update_topics-Reconciled :
      (previous : DiscoveryState) (w w' : World)
      → Within previous.topics w.broker
      → update_topics c ps previous w ≡ (ok tt, w')
      → Reconciled w'
  unfolding update_topics
  update_topics-Reconciled previous w w' inside h =
      let (a, w1, e1, h1) =
        after_ok _
          (write_discovery_state c (manifest_of c (union_topics previous.topics (topics_of ps))) w)
          h in
      let (b, w2, e2, h2) =
        after_ok _
          (publish_discovery_changes (difference_topics previous.topics (topics_of ps)) ps w1) h1 in
      let (kept1, _) = write_success c _ a w w1 e1 in
      let (kept3, stored) = write_success c _ tt w2 w' h2 in
      (
        stored,
        λ t.
            ap (λ f. f t) kept3
            ∙ changes_exact previous.topics ps w1 w2 (rw kept1 inside) (unit_result b e2) t,
      )
    where
      unit_result :
          (b : Unit {0}) {x : Result DiscoveryError (Unit {0}) × World} {w : World}
          → x ≡ (ok b, w)
          → x ≡ (ok tt, w)
      unit_result tt e = e

  from_world :
      (w w0 w' : World)
      → Tracked w0
      → after
          (λ previous.
            check_manifest c previous >> (release_device c previous >>= update_topics c ps))
          (load_discovery_state w0)
        ≡ (ok tt, w')
      → Reconciled w'
  from_world w w0 w' tracked h =
      let (previous, w1, e1, h1) = after_ok _ (load_discovery_state w0) h in
      let (l, m, b) = subst (Loaded w0) e1 (load-Loaded w0) in
      let (_, w2, e2, h2) = after_ok _ (check_manifest c previous w1) h1 in
      let same_state : w1 ≡ w2 = sym (check_manifest_state c previous w1) ∙ ap (λ x. x.1) e2 in
      let tracked1 : Tracked w1 = rw (m, b) tracked in
      let ready = release_device-Ready c previous w1 tracked1 (rw l at tracked1) l in
      let (current, w3, e3, h3) = after_ok _ (release_device c previous w2) h2 in
      let ready3 =
        subst Ready e3 (subst (λ v. Ready (release_device c previous v)) same_state ready) in
      update_topics-Reconciled current w3 w' ready3.1 h3

  -- A reconciliation that succeeds with a state file, from a state whose retained topics the manifest
  -- lists, leaves the broker with the last message that each publication gives its topic and with no
  -- other one, and the manifest with the topics of the publications, sorted.
  pub reconcile-Reconciled :
      (w w' : World)
      → is_empty c.state_file ≡ false
      → IsTracked w
      → reconcile_discovery c ps w ≡ (ok tt, w')
      → Reconciled w'
  unfolding reconcile_discovery
  reconcile-Reconciled w w' configured tracked h =
      let (_, w0, e0, h0) =
        after_ok _ (perform (system_call (codes "lock")) read_only w) (rw configured at h) in
      elim (read_only_cases (system_call (codes "lock")) w) [
        | inl e ↦
            from_world w w0 w'
              (subst Tracked (ap (λ x. x.1) (sym e ∙ e0)) (IsTracked-Tracked w tracked)) h0
        | inr e ↦ cc
      ]

-- What lets a reconciliation without faults succeed: the manifest is absent, or it is valid and the
-- client's own, and the three manifests that may be written are not too long.
pub record Sound (c : Settings) (ps : List Publication) (previous : DiscoveryState) : Type 0 where
  pub valid : validate_discovery_state previous ≡ ok tt
  pub own : (is_empty previous.owner_id ≡ true) ⊎ (previous.owner_id ≡ c.client_id)
  pub empty_fits : c.encoded_size (sorted (manifest_of c [])) ≤ max_discovery_state_size
  pub union_fits :
      (topics : List Bytes)
      → (topics ≡ previous.topics) ⊎ (topics ≡ [])
      → c.encoded_size (sorted (manifest_of c (union_topics topics (topics_of ps))))
        ≤ max_discovery_state_size
  pub final_fits : c.encoded_size (sorted (manifest_of c (topics_of ps))) ≤ max_discovery_state_size

-- The state that loading a manifest gives.
unfoldable pub stored_state : Stored → DiscoveryState
unfolding no_state
stored_state absent = no_state
stored_state corrupt = no_state
stored_state (holds s) = s

changes_work :
    (stale : List Bytes) (ps : List Publication) (w : World)
    → (w' : World) × (publish_discovery_changes stale ps (calm w) ≡ (ok tt, calm w'))
unfolding publish_discovery_changes
changes_work stale ps w =
    let (w1, e1) = remove_stale_works stale w in
    let (w2, e2) = publish_desired_works ps w1 in (w2, rw (e1, e2))

module _ (c : Settings) (ps : List Publication) where
  update_topics_works :
      (previous : DiscoveryState) (w : World)
      → c.encoded_size (sorted (manifest_of c (union_topics previous.topics (topics_of ps))))
        ≤ max_discovery_state_size
      → c.encoded_size (sorted (manifest_of c (topics_of ps))) ≤ max_discovery_state_size
      → (w' : World) × (update_topics c ps previous (calm w) ≡ (ok tt, calm w'))
  unfolding update_topics
  update_topics_works previous w fits last_fits =
      let union = manifest_of c (union_topics previous.topics (topics_of ps)) in
      let (w2, e2) =
        changes_work (difference_topics previous.topics (topics_of ps)) ps
          (replace_manifest (sorted union) w) in
      (
        replace_manifest (sorted (manifest_of c (topics_of ps))) w2,
        rw (write_discovery_state_works c union w fits, e2)
            (write_discovery_state_works c _ w2 last_fits),
      )

  release_device_works :
      (previous : DiscoveryState) (w : World)
      → c.encoded_size (sorted (manifest_of c [])) ≤ max_discovery_state_size
      → (current : DiscoveryState) × (w' : World) × ((current.topics ≡ previous.topics)
          ⊎ (current.topics ≡ []))
        × (release_device c previous (calm w) ≡ (ok current, calm w'))
  unfolding release_device empty_device no_state
  release_device_works previous w fits = elim (Bool-cases foreign) [
    | inl e ↦
        let (w1, e1) = changes_work previous.topics [] w in
        (
          no_state,
          replace_manifest (sorted (manifest_of c [])) w1,
          inr refl,
          rw (e, e1, write_discovery_state_works c (manifest_of c []) w1 fits) refl,
        )
    | inr e ↦ (previous, w, inl refl, rw e refl)
  ]
    where
      foreign : Bool
      foreign = not (is_empty previous.device_id) && not (same previous.device_id c.device_id)

  check_manifest_works :
      (previous : DiscoveryState) (w : World)
      → Sound c ps previous
      → check_manifest c previous w ≡ (ok tt, w)
  unfolding check_manifest
  check_manifest_works previous w v =
      ground (arith, v.valid, v.own, same_iff previous.owner_id c.client_id)

  load_works :
      (w : World)
      → w.manifest ≢ corrupt
      → load_discovery_state (calm w) ≡ (ok (stored_state w.manifest), calm w)
  unfolding load_discovery_state decode stored_state perform read_only
  load_works w h = ground arith

  -- Without faults a reconciliation with a state file succeeds, from a manifest that is absent, or
  -- readable and valid and the client's own, if the manifests that it may write fit their limit.
  pub reconcile_works :
      (w : World)
      → is_empty c.state_file ≡ false
      → w.manifest ≢ corrupt
      → Sound c ps (stored_state w.manifest)
      → (w' : World) × (reconcile_discovery c ps (calm w) ≡ (ok tt, calm w'))
  unfolding reconcile_discovery perform read_only
  reconcile_works w configured readable v =
      let previous = stored_state w.manifest in
      let (current, w1, topics, e1) = release_device_works previous w v.empty_fits in
      let (w2, e2) =
        update_topics_works current w1 (v.union_fits current.topics topics) v.final_fits in
      (
        w2,
        rw (configured, load_works w readable, check_manifest_works previous (calm w) v, e1, e2)
            refl,
      )
