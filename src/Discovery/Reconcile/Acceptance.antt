-- ===== src/Discovery/Reconcile/Acceptance.antt =====
-- The manifest that a reconciliation leaves is one that the next reconciliation takes.
use mqtt_raspberry_controlle.Base.{
  true, false, List, codes, is_empty, ◌≡◌, refl, sym, subst, ap, ◌∙◌, arith, inl, inr,
}
use mqtt_raspberry_controlle.Base.Result.{Result, ok, err}
use mqtt_raspberry_controlle.Discovery.Topics.{
  DiscoveryState, valid_discovery_id, union_topics, difference_topics,
}
use mqtt_raspberry_controlle.Base.Sorting.{Distinct}
use mqtt_raspberry_controlle.Discovery.Topics.Validity.{
  AllOwned, union_topics-Distinct, union_topics-AllOwned,
}
use mqtt_raspberry_controlle.Discovery.World.{World, DiscoveryError, system_call, after, ◌>>=◌}
use mqtt_raspberry_controlle.Discovery.Reconcile.{
  Settings, Publication, manifest_of, write_discovery_state, publish_discovery_changes, decode,
  load_discovery_state, check_manifest, release_device, update_topics, reconcile_discovery,
}
use mqtt_raspberry_controlle.Discovery.Reconcile.Effects.{next, topics_of}
use mqtt_raspberry_controlle.Discovery.Reconcile.Tracking.{after_cases}
use mqtt_raspberry_controlle.Discovery.Reconcile.Safety.{check_manifest_state, read_only_cases}
use mqtt_raspberry_controlle.Discovery.Reconcile.Release.{
  checked_valid, IsAcceptable, changes_manifest, write-IsAcceptable, Usable, release_device-Usable,
}

module _ (c : Settings) (owner : is_empty c.client_id ≡ false)
    (device : valid_discovery_id c.device_id ≡ true) where
  module _ (ps : List Publication) where
    update_topics-IsAcceptable :
        (previous : DiscoveryState) (w : World)
        → AllOwned c.device_id (topics_of ps)
        → Distinct (topics_of ps)
        → AllOwned c.device_id previous.topics
        → IsAcceptable c w.manifest
        → IsAcceptable c (update_topics c ps previous w).1.manifest
    unfolding update_topics
    update_topics-IsAcceptable previous w own d old_own old =
        let desired = topics_of ps in
        let union = union_topics previous.topics desired in
        let P : World → Type 0 = λ w. IsAcceptable c w.manifest in
        let first =
          write-IsAcceptable c owner device union w
            (union_topics-AllOwned c.device_id previous.topics desired old_own own)
            (union_topics-Distinct previous.topics desired) old in
        after_cases P _ (write_discovery_state c (manifest_of c union) w) first λ a w1 e1.
          let first1 : P w1 = rw (ap (λ x. x.1) e1) at first in
          let same_manifest = changes_manifest (difference_topics previous.topics desired) ps w1 in
          let second = subst (IsAcceptable c) (sym same_manifest) first1 in
          after_cases P _
            (publish_discovery_changes (difference_topics previous.topics desired) ps w1) second
            λ b w2 e2.
              write-IsAcceptable c owner device desired w2 own d (rw (ap (λ x. x.1) e2) at second)

    module _ (own : AllOwned c.device_id (topics_of ps)) (d : Distinct (topics_of ps)) where
      from_Usable :
          (x : Result DiscoveryError DiscoveryState × World)
          → Usable c owner device x
          → IsAcceptable c (after (update_topics c ps) x).1.manifest
      from_Usable (ok current, w) (old, old_own) =
          update_topics-IsAcceptable current w own d old_own old
      from_Usable (err _, w) old = old

      from_manifest :
          (previous : DiscoveryState) (w : World)
          → IsAcceptable c w.manifest
          → IsAcceptable c
              (after
                (λ _. release_device c previous >>= update_topics c ps)
                (check_manifest c previous w)).1.manifest
      from_manifest previous w old =
          let unchanged = check_manifest_state c previous w in
          after_cases (λ w1. IsAcceptable c w1.manifest) _ (check_manifest c previous w)
            (rw unchanged old)
            λ a w1 e.
              let same_world : w ≡ w1 = sym unchanged ∙ ap (λ x. x.1) e in
              from_Usable (release_device c previous w1) (
                release_device-Usable c owner device previous w1
                  (checked_valid c owner device previous w w1 a e) (rw same_world at old))

      loaded_manifest : (w : World) → (load_discovery_state w).1.manifest ≡ w.manifest
      unfolding load_discovery_state decode
      loaded_manifest w = elim (read_only_cases (system_call (codes "open")) w) [
        | inl e ↦ rw e (ground arith)
        | inr e ↦ rw e refl
      ]

      -- Whatever fails, the manifest that a reconciliation leaves is absent, or valid and of the client or
      -- of nobody, if it was so before, the client and the device have their ids, and the topics of the
      -- publications belong to the device and are distinct.
      pub reconcile-IsAcceptable :
          (w : World)
          → is_empty c.state_file ≡ false
          → IsAcceptable c w.manifest
          → IsAcceptable c (reconcile_discovery c ps w).1.manifest
      unfolding reconcile_discovery
      reconcile-IsAcceptable w configured old =
          rw configured (elim (read_only_cases (system_call (codes "lock")) w) [
            | inr e ↦ rw e old
            | inl e ↦ rw e (
                after_cases (λ w1. IsAcceptable c w1.manifest) _ (load_discovery_state (next w))
                  (rw (loaded_manifest (next w)) old)
                  λ previous w1 e1.
                    from_manifest previous w1
                      (rw (sym (ap (λ x. x.1.manifest) e1) ∙ loaded_manifest (next w)) old))
          ])
