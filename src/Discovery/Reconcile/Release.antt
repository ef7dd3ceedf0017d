-- ===== src/Discovery/Reconcile/Release.antt =====
-- The manifests that the next reconciliation takes, and what `releaseDevice` makes of one.
use mqtt_raspberry_controlle.Base.{
  Bool, true, false, not, ◌&&◌, List, [], ◌∷◌, Bytes, same, same_iff, is_empty, contains,
  contains-sort_strings, ◌≡◌, refl, sym, subst, ap, ◌∙◌, arith, Bool-cases, ◌⊎◌, inl, inr,
}
use mqtt_raspberry_controlle.Base.Result.{Result, ok, err}
use mqtt_raspberry_controlle.Discovery.Topics.{
  DiscoveryState, validate_discovery_state, valid_discovery_id, owned_discovery_topic,
}
use mqtt_raspberry_controlle.Base.Sorting.{Distinct, sort_strings-Distinct}
use mqtt_raspberry_controlle.Discovery.Topics.Validity.{
  AllOwned, validate_discovery_state_passes, validate_discovery_state-AllOwned,
}
use mqtt_raspberry_controlle.Discovery.World.{
  Stored, absent, corrupt, holds, World, DiscoveryError, after, ◌>>=◌, pure,
}
use mqtt_raspberry_controlle.Discovery.Reconcile.{
  Settings, Publication, manifest_of, write_discovery_state, publish_discovery_changes,
  remove_stale, publish_desired, check_manifest, empty_device, release_device, no_state,
}
use mqtt_raspberry_controlle.Discovery.Reconcile.Effects.{
  sorted, remove_stale-Removed, publish_desired-Published,
}
use mqtt_raspberry_controlle.Discovery.Reconcile.Writing.{write_discovery_state-Written}
use mqtt_raspberry_controlle.Discovery.Reconcile.Tracking.{after_cases}

-- There is no manifest, or one that `validateDiscoveryState` accepts and that the client owns, or
-- nobody.
abbrev pub IsAcceptable : Settings → Stored → Type 0
IsAcceptable c absent = Unit {0}
IsAcceptable c corrupt = false ≡ true
IsAcceptable c (holds s) =
    (validate_discovery_state s ≡ ok tt)
    × ((is_empty s.owner_id ≡ true) ⊎ (s.owner_id ≡ c.client_id))

pub changes_manifest :
    (stale : List Bytes) (ps : List Publication) (w : World)
    → (publish_discovery_changes stale ps w).1.manifest ≡ w.manifest
unfolding publish_discovery_changes
changes_manifest stale ps w =
    let (kept, _, _) = remove_stale-Removed stale w in
    after_cases (λ w'. w'.manifest ≡ w.manifest) (λ _. publish_desired ps) (remove_stale stale w)
      kept
      λ a w1 e.
        let (kept1, _, _) = publish_desired-Published ps w1 in
        kept1 ∙ (ap (λ x. x.1.manifest) (sym e) ∙ kept)

module _ (c : Settings) (owner : is_empty c.client_id ≡ false)
    (device : valid_discovery_id c.device_id ≡ true) where
  manifest_of-valid :
      (ts : List Bytes)
      → AllOwned c.device_id ts
      → Distinct ts
      → validate_discovery_state (sorted (manifest_of c ts)) ≡ ok tt
  unfolding manifest_of
  manifest_of-valid ts own d =
      validate_discovery_state_passes (sorted (manifest_of c ts)) refl owner device
        (λ t there. own t (sym (contains-sort_strings t ts) ∙ there)) (sort_strings-Distinct ts d)

  pub write-IsAcceptable :
      (ts : List Bytes) (w : World)
      → AllOwned c.device_id ts
      → Distinct ts
      → IsAcceptable c w.manifest
      → IsAcceptable c (write_discovery_state c (manifest_of c ts) w).1.manifest
  unfolding manifest_of
  write-IsAcceptable ts w own d old =
      let (_, either, _) = write_discovery_state-Written c (manifest_of c ts) w in
      elim either [ inl e ↦ rw e old | inr e ↦ rw e (manifest_of-valid ts own d, inr refl) ]

  -- What release_device gives to the rest.
  abbrev pub Usable : Result DiscoveryError DiscoveryState × World → Type 0
  Usable (ok current, w) = IsAcceptable c w.manifest × AllOwned c.device_id current.topics
  Usable (err _, w) = IsAcceptable c w.manifest

  no_topics-AllOwned : AllOwned c.device_id []
  unfolding contains
  no_topics-AllOwned t there = cc

  empty_device-Usable :
      (previous : DiscoveryState) (w : World)
      → IsAcceptable c w.manifest
      → Usable (empty_device c previous w)
  unfolding empty_device no_state
  empty_device-Usable previous w old =
      go (publish_discovery_changes previous.topics [] w)
        (subst (IsAcceptable c) (sym (changes_manifest previous.topics [] w)) old)
    where
      finish :
          (x : Result DiscoveryError (Unit {0}) × World)
          → IsAcceptable c x.1.manifest
          → Usable (after (λ _. pure no_state) x)
      finish (ok _, w1) h = (h, no_topics-AllOwned)
      finish (err _, w1) h = h

      go :
          (x : Result DiscoveryError (Unit {0}) × World)
          → IsAcceptable c x.1.manifest
          → Usable
              (after (λ _. write_discovery_state c (manifest_of c []) >>= λ _. pure no_state) x)
      go (ok _, w1) h =
          finish (write_discovery_state c (manifest_of c []) w1)
            (write-IsAcceptable [] w1 no_topics-AllOwned tt h)
      go (err _, w1) h = h

  empty_is_nil : (xs : Bytes) → is_empty xs ≡ true → xs ≡ []
  unfolding is_empty
  empty_is_nil [] h = refl
  empty_is_nil (x ∷ xs) h = cc

  -- A valid manifest that is not of another device.
  own_manifest :
      (s : DiscoveryState)
      → validate_discovery_state s ≡ ok tt
      → (not (is_empty s.device_id) && not (same s.device_id c.device_id)) ≡ false
      → AllOwned c.device_id s.topics
  own_manifest s valid home t there =
      let (own, nothing) = validate_discovery_state-AllOwned s valid in
      elim (Bool-cases (is_empty s.device_id)) [
        | inl e ↦ no_topics-AllOwned t (rw (nothing e) at there)
        | inr e ↦
            let same_device : s.device_id ≡ c.device_id =
              (same_iff s.device_id c.device_id).0 (ground (arith, home, e)) in
            subst (λ d. owned_discovery_topic t d ≡ true) same_device (own t there)
      ]

  pub release_device-Usable :
      (previous : DiscoveryState) (w : World)
      → validate_discovery_state previous ≡ ok tt
      → IsAcceptable c w.manifest
      → Usable (release_device c previous w)
  unfolding release_device
  release_device-Usable previous w valid old = elim (Bool-cases foreign) [
    | inl e ↦ rw e (empty_device-Usable previous w old)
    | inr e ↦ rw e (old, own_manifest previous valid e)
  ]
    where
      foreign : Bool
      foreign = not (is_empty previous.device_id) && not (same previous.device_id c.device_id)

  pub checked_valid :
      (previous : DiscoveryState) (w w1 : World) (a : Unit {0})
      → check_manifest c previous w ≡ (ok a, w1)
      → validate_discovery_state previous ≡ ok tt
  unfolding check_manifest
  checked_valid previous w w1 tt h = ground (arith, h)
