-- ===== src/Tests/Discovery.antt =====
-- controller/discovery.go at a device whose old entity is gone and whose new one is not yet published.
use mqtt_raspberry_controlle.Base.{
  ◌+◌, true, Option, none, some, List, [], ◌∷◌, Bytes, codes, same, contains, contains_any,
  is_empty, if◌then◌else◌, ◌≡◌, ◌↔◌, refl, inr, length, arith,
}
use mqtt_raspberry_controlle.Base.Result.{ok}
use mqtt_raspberry_controlle.Discovery.Topics.{
  DiscoveryState, valid_discovery_id, owned_discovery_topic, join_slashes, validate_discovery_state,
}
use mqtt_raspberry_controlle.Discovery.Topics.Ownership.{owned_discovery_topic_iff, Formed}
use mqtt_raspberry_controlle.Discovery.World.{Fault, works, lost, holds, World}
use mqtt_raspberry_controlle.Discovery.Reconcile.{
  Publication, Settings, reconcile_discovery, manifest_of,
}
use mqtt_raspberry_controlle.Discovery.Reconcile.Effects.{calm}
use mqtt_raspberry_controlle.Discovery.Reconcile.Safety.{IsTracked, reconcile-IsTracked}
use mqtt_raspberry_controlle.Discovery.Reconcile.Convergence.{
  Sound, stored_state, Reconciled, reconcile_works, reconcile-Reconciled,
}

abbrev old_topic : Bytes
old_topic = codes "homeassistant/switch/pi/fan/config"

abbrev new_topic : Bytes
new_topic = codes "homeassistant/switch/pi/lamp/config"

abbrev settings : Settings
settings = record {
  state_file = codes "/var/lib/state.json";
  client_id = codes "pi";
  device_id = codes "pi";
  encoded_size = λ s. 100 + length s.owner_id + length s.device_id;
}

abbrev lamp : List Publication
lamp = record { entity_id = codes "lamp"; topic = new_topic; payload = codes "{}" } ∷ []

abbrev stored : DiscoveryState
stored = record {
  version = 1;
  owner_id = codes "pi";
  device_id = codes "pi";
  topics = old_topic ∷ [];
}

abbrev retained_before : Bytes → Option Bytes
retained_before t = if same old_topic t then some (codes "{}") else none

abbrev pub before : List Fault → World
before fs = record {
  manifest = holds stored;
  temporary = none;
  broker = retained_before;
  faults = fs;
}

before-IsTracked : (fs : List Fault) → IsTracked (before fs)
unfolding contains
before-IsTracked fs t = ground arith

-- The process stops behind the removal of the old topic, whose publication reports an error.
abbrev pub faults : List Fault
faults =
    works ∷ works ∷ works ∷ works ∷ works ∷ works ∷ works ∷ works ∷ works ∷ works ∷ works ∷ works
    ∷ lost ∷ []

reconcile-IsTracked_example : IsTracked (reconcile_discovery settings lamp (before faults)).1
unfolding is_empty
reconcile-IsTracked_example =
    reconcile-IsTracked settings lamp (before faults) refl (before-IsTracked faults)

stored-Sound : Sound settings lamp stored
unfolding validate_discovery_state is_empty valid_discovery_id owned_discovery_topic same
    join_slashes contains_any manifest_of contains
stored-Sound = record {
  valid = refl;
  own = inr refl;
  empty_fits = omega arith;
  union_fits = λ topics h. omega arith;
  final_fits = omega arith;
}

reconcile_works_example :
    (w : World) × (reconcile_discovery settings lamp (calm (before [])) ≡ (ok tt, calm w))
unfolding is_empty stored_state
reconcile_works_example = reconcile_works settings lamp (before []) refl (λ e. cc) stored-Sound

reconcile-Reconciled_example : Reconciled settings lamp (calm reconcile_works_example.0)
unfolding is_empty
reconcile-Reconciled_example =
    reconcile-Reconciled settings lamp (calm (before [])) (calm reconcile_works_example.0) refl
      (before-IsTracked []) reconcile_works_example.1

owned_discovery_topic_iff_example :
    (owned_discovery_topic new_topic (codes "pi") ≡ true) ↔ Formed new_topic (codes "pi")
unfolding valid_discovery_id
owned_discovery_topic_iff_example = owned_discovery_topic_iff new_topic (codes "pi") refl
