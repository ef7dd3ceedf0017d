-- ===== src/Discovery/Configured/Acceptance.antt =====
-- A validated configuration never leaves a manifest that the next start refuses.
use mqtt_raspberry_controlle.Base.{
  ltb, ◌≤◌, ℕ, Bool, true, false, Option, some, List, [], ◌∷◌, Bytes, codes, is_empty, contains,
  contains_any, All, ◌≡◌, ◌≢◌, refl, sym, subst, arith, Bool-cases, Option-cases, inl, inr,
}
use mqtt_raspberry_controlle.Base.Dict.{Dict}
use mqtt_raspberry_controlle.Base.Result.{Result, err}
use mqtt_raspberry_controlle.Base.Checks.{Passed, first_error-Passed, not_failed}
use mqtt_raspberry_controlle.Config.{Config}
use mqtt_raspberry_controlle.Config.Defaults.{discovery_enabled}
use mqtt_raspberry_controlle.Config.Outside.{Outside}
use mqtt_raspberry_controlle.Config.Validation.Errors.{Place}
use mqtt_raspberry_controlle.Config.Validation.{validate}
use mqtt_raspberry_controlle.Config.Validation.Names.{validate_topic_prefix, topic_if}
use mqtt_raspberry_controlle.Discovery.Topics.{DiscoveryState, valid_discovery_id}
use mqtt_raspberry_controlle.Base.Sorting.{Distinct}
use mqtt_raspberry_controlle.Discovery.Topics.Validity.{AllOwned}
use mqtt_raspberry_controlle.Discovery.World.{World, DiscoveryError, marshal_failed}
use mqtt_raspberry_controlle.Discovery.Reconcile.{Publication, reconcile_discovery}
use mqtt_raspberry_controlle.Discovery.Reconcile.Effects.{topics_of}
use mqtt_raspberry_controlle.Discovery.Reconcile.Release.{IsAcceptable}
use mqtt_raspberry_controlle.Discovery.Reconcile.Acceptance.{reconcile-IsAcceptable}
use mqtt_raspberry_controlle.Discovery.Desired.{
  Value, Nameable, desired_discovery_publications, desired_topics_owned,
}
use mqtt_raspberry_controlle.Config.Defaults.{mqtt_qos}
use mqtt_raspberry_controlle.Discovery.Configured.{discovery_qos, settings_of, reconcile_configured}
use mqtt_raspberry_controlle.Discovery.Configured.Ids.{Fresh, valid_id, validate_entities-Fresh}
use mqtt_raspberry_controlle.Discovery.Configured.Topics.{publications-Distinct}

-- What discovery needs of a configuration.
pub record Discoverable (c : Config) : Type 0 where
  pub device : valid_discovery_id c.device.id ≡ true
  pub client : is_empty c.mqtt.client_id ≡ false
  pub prefix :
      discovery_enabled c ≡ true
      → (c.mqtt.discovery.prefix ≢ []) × (contains_any c.mqtt.discovery.prefix (codes "+#") ≡ false)
  pub qos : (1 ≤ discovery_qos c) × (discovery_qos c ≤ 2)
  pub nameable : All Nameable c.entities
  pub fresh : Fresh [] c.entities

prefix_usable :
    (enabled : Bool) (name : Place) (prefix : Bytes)
    → Passed (topic_if enabled name prefix)
    → enabled ≡ true
    → (prefix ≢ []) × (contains_any prefix (codes "+#") ≡ false)
unfolding topic_if validate_topic_prefix is_empty
prefix_usable enabled name [] h on =
    let filled = not_failed _ _ (first_error-Passed _ (rw on at h)).0 in
    absurd (ground (arith, filled))
prefix_usable enabled name (b ∷ prefix) h on =
    (λ e. cc, not_failed _ _ (first_error-Passed _ (rw on at h)).1.0)

discovery_qos_range :
    (c : Config) → ltb 2 (mqtt_qos c) ≡ false → (1 ≤ discovery_qos c) × (discovery_qos c ≤ 2)
unfolding discovery_qos
discovery_qos_range c h = ground arith

pub validate-Discoverable : (o : Outside) (c : Config) → Passed (validate o c) → Discoverable c
unfolding validate
validate-Discoverable o c h =
    let (_, (id, (_, (client, (_, (prefix, (_, (qos, (_, (_, (_, (_, (entities, _))))))))))))) =
      first_error-Passed _ h in
    let (nameable, fresh) = validate_entities-Fresh o c 0 [] c.entities entities in
    record {
      device = valid_id c.device.id (not_failed _ _ id);
      client = not_failed _ _ client;
      prefix = prefix_usable (discovery_enabled c) _ c.mqtt.discovery.prefix prefix;
      qos = discovery_qos_range c (not_failed _ _ qos);
      nameable = nameable;
      fresh = fresh;
    }

module _ (c : Config) (marshal : Dict Value → Option Bytes)
    (encoded_size : DiscoveryState → ℕ) where
  desired_listed :
      (ps : List Publication)
      → Discoverable c
      → desired_discovery_publications c marshal ≡ some ps
      → AllOwned c.device.id (topics_of ps) × Distinct (topics_of ps)
  unfolding desired_discovery_publications contains
  desired_listed ps d e = elim (Bool-cases (discovery_enabled c)) [
    | inl on ↦
        let (set, plain) = d.prefix on in
        (
          λ t there. desired_topics_owned c marshal set plain d.device ps t d.nameable e there,
          publications-Distinct c marshal d.device [] c.entities ps d.nameable d.fresh (rw on at e),
        )
    | inr off ↦
        let nothing : ps ≡ [] = ground (arith, rw off at e) in rw nothing (λ t there. cc, tt)
  ]

  -- With a configuration that `Validate` accepts and a state file, a reconciliation leaves no manifest,
  -- or one that `validateDiscoveryState` accepts and that the client owns, or nobody, if that was so
  -- before; whatever fails on the way.
  pub configured-IsAcceptable :
      (o : Outside) (w : World)
      → Passed (validate o c)
      → is_empty c.mqtt.discovery.state_file ≡ false
      → IsAcceptable (settings_of c marshal encoded_size) w.manifest
      → IsAcceptable
          (settings_of c marshal encoded_size)
          (reconcile_configured c marshal encoded_size w).1.manifest
  unfolding reconcile_configured
  configured-IsAcceptable o w accepted configured old =
      let settings = settings_of c marshal encoded_size in
      let run = reconcile_configured c marshal encoded_size w in
      let P : Result DiscoveryError (Unit {0}) × World → Type 0 =
        λ x. IsAcceptable settings x.1.manifest in
      let d = validate-Discoverable o c accepted in
      elim (Option-cases (desired_discovery_publications c marshal)) [
        | inl failed ↦
            let ends : run ≡ (err marshal_failed, w) = rw (reconcile_configured, failed) refl in
            subst P (sym ends) old
        | inr (ps, e) ↦
            let (own, distinct) = desired_listed ps d e in
            let goes_on : run ≡ reconcile_discovery settings ps w =
              rw (reconcile_configured, e) refl in
            subst P (sym goes_on)
              (reconcile-IsAcceptable settings d.client d.device ps own distinct w configured old)
      ]
