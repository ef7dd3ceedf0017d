-- ===== src/Discovery/Reconcile/Tracking.antt =====
-- What the manifest is for: whatever fails and wherever the process stops, each discovery message that
-- the broker retains is listed in the manifest, and can be removed later.
use mqtt_raspberry_controlle.Base.{
  contains-sort_strings, true, false, List, [], ◌∷◌, Bytes, contains, if◌then◌else◌, none, Option,
  ◌≡◌, refl, ◌≢◌, ap, ◌∙◌, inl, inr, arith, Bool-cases, Option-cases,
}
use mqtt_raspberry_controlle.Base.Result.{Result, ok, err}
use mqtt_raspberry_controlle.Discovery.Topics.{DiscoveryState, difference_topics}
use mqtt_raspberry_controlle.Discovery.Topics.Sets.{contains-difference_topics}
use mqtt_raspberry_controlle.Discovery.World.{
  Stored, absent, corrupt, holds, World, DiscoveryError, after, M,
}
use mqtt_raspberry_controlle.Discovery.Reconcile.{
  Settings, Publication, write_discovery_state, remove_stale, publish_desired,
  publish_discovery_changes,
}
use mqtt_raspberry_controlle.Discovery.Reconcile.Effects.{
  Broker, message, topics_of, Removed, remove_stale-Removed, publish_desired-Published,
}
use mqtt_raspberry_controlle.Discovery.Reconcile.Writing.{write_discovery_state-Written}

abbrev pub listed : Stored → List Bytes
listed absent = []
listed corrupt = []
listed (holds s) = s.topics

-- Every retained topic is in the list.
abbrev pub Within : List Bytes → Broker → Type 0
Within topics broker = (t : Bytes) → broker t ≢ none → contains topics t ≡ true

abbrev pub Tracked : World → Type 0
Tracked w = Within (listed w.manifest) w.broker

-- A predicate holds behind two steps if it holds behind the first one, in case that fails, and behind
-- the second one from each state that the first one leaves when it succeeds.
pub after_cases {ℓ} :
    {A B : Type 0} (P : World → Type ℓ) (k : A → M B) (x : Result DiscoveryError A × World)
    → P x.1
    → ((a : A) (w : World) → x ≡ (ok a, w) → P (k a w).1)
    → P (after k x).1
after_cases P k (ok a, w) first second = second a w refl
after_cases P k (err e, w) first second = first

pub write-Tracked :
    (c : Settings) (s : DiscoveryState) (w : World)
    → Tracked w
    → Within s.topics w.broker
    → Tracked (write_discovery_state c s w).1
write-Tracked c s w old new =
    let (kept, either, done) = write_discovery_state-Written c s w in
    elim either [
      | inl e ↦ rw (e, kept) old
      | inr e ↦ rw (e, kept) (λ t h. contains-sort_strings t s.topics ∙ new t h)
    ]

remove-Within :
    (stale topics : List Bytes) (w : World)
    → Within topics w.broker
    → Within topics (remove_stale stale w).1.broker
remove-Within stale topics w h t present =
    let (kept, less, all) = remove_stale-Removed stale w in
    elim (less t) [ inl e ↦ h t (rw e at present) | inr e ↦ absurd (present e) ]

publish-Within :
    (ps : List Publication) (topics : List Bytes) (w : World)
    → Within topics w.broker
    → ((t : Bytes) → contains (topics_of ps) t ≡ true → contains topics t ≡ true)
    → Within topics (publish_desired ps w).1.broker
publish-Within ps topics w h sub t present =
    let (kept, more, all) = publish_desired-Published ps w in
    elim (more t) [ inl e ↦ h t (rw e at present) | inr e ↦ sub t e ]

-- The changes keep the manifest, and add topics of the desired publications at most.
pub changes-Within :
    (stale : List Bytes) (ps : List Publication) (topics : List Bytes) (w : World)
    → Within topics w.broker
    → ((t : Bytes) → contains (topics_of ps) t ≡ true → contains topics t ≡ true)
    → let w' = (publish_discovery_changes stale ps w).1 in
      Within topics w'.broker × (w'.manifest ≡ w.manifest)
unfolding publish_discovery_changes
changes-Within stale ps topics w h sub =
    let (kept, _, _) = remove_stale-Removed stale w in
    after_cases (λ w'. Within topics w'.broker × (w'.manifest ≡ w.manifest))
      (λ _. publish_desired ps) (remove_stale stale w) (remove-Within stale topics w h, kept)
      λ _ w1 e.
        let (same_manifest, _, _) = publish_desired-Published ps w1 in
        (
          publish-Within ps topics w1 (rw (ap (λ x. x.1) e) at (remove-Within stale topics w h))
              sub,
          same_manifest ∙ rw (ap (λ x. x.1) e) at kept,
        )

-- A publication that succeeds leaves each topic's last message, and the stale topics without one.
pub changes_success :
    (stale : List Bytes) (ps : List Publication) (w w' : World)
    → publish_discovery_changes stale ps w ≡ (ok tt, w')
    → (t : Bytes) → w'.broker t ≡ message ps t (if contains stale t then none else w.broker t)
unfolding publish_discovery_changes
changes_success stale ps w w' e t = go (remove_stale stale w) (remove_stale-Removed stale w) e
  where
    go :
        (x : Result DiscoveryError (Unit {0}) × World)
        → Removed stale w x
        → after (λ _. publish_desired ps) x ≡ (ok tt, w')
        → w'.broker t ≡ message ps t (if contains stale t then none else w.broker t)
    go (ok tt, w1) (_, _, all) e =
        let (_, _, last) = publish_desired-Published ps w1 in
        let end : (publish_desired ps w1).1 ≡ w' = ap (λ x. x.1) e in
        rw (← end, ← all refl t) (last (ap (λ x. x.0) e) t)
    go (err _, w1) _ e = cc

message_other :
    (ps : List Publication) (t : Bytes) (old : Option Bytes)
    → contains (topics_of ps) t ≡ false
    → message ps t old ≡ old
unfolding contains
message_other [] t old h = refl
message_other (p ∷ ps) t old h = ground (arith, message_other ps t old)

pub message_same :
    (ps : List Publication) (t : Bytes) (old other : Option Bytes)
    → contains (topics_of ps) t ≡ true
    → message ps t old ≡ message ps t other
unfolding contains
message_same [] t old other h = cc
message_same (p ∷ ps) t old other h = ground (arith, message_same ps t old other)

-- From a manifest that lists `previous`, the changes bring the broker to the publications alone.
pub changes_exact :
    (previous : List Bytes) (ps : List Publication) (w w' : World)
    → Within previous w.broker
    → publish_discovery_changes (difference_topics previous (topics_of ps)) ps w ≡ (ok tt, w')
    → (t : Bytes) → w'.broker t ≡ message ps t none
changes_exact previous ps w w' h e t =
    let now = changes_success _ ps w w' e t in
    let is_stale = contains-difference_topics t previous (topics_of ps) in
    elim (Bool-cases (contains (topics_of ps) t)) [
      | inl desired ↦ now ∙ message_same ps t _ _ desired
      | inr other ↦ elim (Option-cases (w.broker t)) [
        | inl gone ↦ now ∙ ap (message ps t) (ground arith)
        | inr (m, there) ↦
            let old : contains previous t ≡ true = h t (λ e. cc) in
            now ∙ ap (message ps t) (ground arith)
      ]
    ]

pub message-Within :
    (ps : List Publication) (t : Bytes)
    → message ps t none ≢ none
    → contains (topics_of ps) t ≡ true
message-Within ps t h = elim (Bool-cases (contains (topics_of ps) t)) [
  | inl e ↦ e
  | inr e ↦ absurd (h (message_other ps t none e))
]
