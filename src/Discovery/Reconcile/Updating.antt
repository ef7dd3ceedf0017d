-- ===== src/Discovery/Reconcile/Updating.antt =====
-- controller/discovery.go: broker and manifest while `reconcileDiscovery` updates the topics.
use mqtt_raspberry_controlle.Base.{
  contains-sort_strings, true, List, Bytes, contains, sort_strings, ◌≡◌, sym, subst, ap, ◌∙◌, arith,
}
use mqtt_raspberry_controlle.Base.Result.{ok}
use mqtt_raspberry_controlle.Discovery.Topics.{DiscoveryState, union_topics, difference_topics}
use mqtt_raspberry_controlle.Discovery.Topics.Sets.{contains-union_topics}
use mqtt_raspberry_controlle.Discovery.World.{holds, World}
use mqtt_raspberry_controlle.Discovery.Reconcile.{
  Settings, Publication, manifest_of, write_discovery_state, publish_discovery_changes,
  update_topics,
}
use mqtt_raspberry_controlle.Discovery.Reconcile.Effects.{sorted, topics_of}
use mqtt_raspberry_controlle.Discovery.Reconcile.Writing.{write_discovery_state-Written}
use mqtt_raspberry_controlle.Discovery.Reconcile.Tracking.{
  listed, Within, Tracked, after_cases, write-Tracked, changes-Within, changes_exact,
  message-Within,
}

pub write_success :
    (c : Settings) (s : DiscoveryState) (a : Unit {0}) (w w1 : World)
    → write_discovery_state c s w ≡ (ok a, w1)
    → (w1.broker ≡ w.broker) × (w1.manifest ≡ holds (sorted s))
write_success c s tt w w1 e =
    let (kept, _, done) = write_discovery_state-Written c s w in
    (rw (ap (λ x. x.1) e) at kept, rw (ap (λ x. x.1) e) at (done (ap (λ x. x.0) e)))

module _ (c : Settings) (ps : List Publication) (previous : DiscoveryState) where
  -- The last write, behind changes that succeeded.
  final_write-Tracked :
      (w1 w2 : World) (a : Unit {0})
      → Tracked w2
      → Within previous.topics w1.broker
      → publish_discovery_changes (difference_topics previous.topics (topics_of ps)) ps w1
        ≡ (ok a, w2)
      → Tracked (write_discovery_state c (manifest_of c (topics_of ps)) w2).1
  unfolding manifest_of
  final_write-Tracked w1 w2 tt tracked inside e =
      write-Tracked c (manifest_of c (topics_of ps)) w2 tracked λ t there.
        message-Within ps t
          (λ gone. there (changes_exact previous.topics ps w1 w2 inside e t ∙ gone))

  pub update_topics-Tracked :
      (w : World)
      → Tracked w
      → Within previous.topics w.broker
      → Tracked (update_topics c ps previous w).1
  unfolding update_topics manifest_of
  update_topics-Tracked w tracked inside =
      let desired = topics_of ps in
      let union = union_topics previous.topics desired in
      let wide : Within union w.broker =
        λ t h. ground (arith, contains-union_topics t previous.topics desired, inside t h) in
      after_cases Tracked _ (write_discovery_state c (manifest_of c union) w)
        (write-Tracked c _ w tracked wide)
        λ a w1 e1.
          let (kept, new) = write_success c (manifest_of c union) a w w1 e1 in
          let listed_union : Within (sort_strings union) w1.broker =
            λ t h. contains-sort_strings t union ∙ wide t (rw kept at h) in
          let covers : (t : Bytes)
              → contains desired t ≡ true
              → contains (sort_strings union) t ≡ true =
            λ t h. ground (
              arith,
              contains-sort_strings t union,
              contains-union_topics t previous.topics desired,
            ) in
          let (within, same_manifest) =
            changes-Within (difference_topics previous.topics desired) ps (sort_strings union) w1
              listed_union covers in
          let tracked2 : Tracked
              (publish_discovery_changes (difference_topics previous.topics desired) ps w1).1 =
            subst
              (λ m.
                Within (listed m)
                  (publish_discovery_changes (difference_topics previous.topics desired) ps
                    w1).1.broker)
              (sym (same_manifest ∙ new)) within in
          after_cases Tracked _
            (publish_discovery_changes (difference_topics previous.topics desired) ps w1) tracked2
            λ b w2 e2.
              final_write-Tracked w1 w2 b (rw (ap (λ x. x.1) e2) at tracked2) (rw kept inside) e2
