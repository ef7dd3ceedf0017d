-- ===== src/Tests/Desired.antt =====
-- The publications of a configuration with one switch.
use mqtt_raspberry_controlle.Base.{Option, some, List, [], ◌∷◌, Bytes, codes, ◌≡◌, refl}
use mqtt_raspberry_controlle.Base.Dict.{Dict}
use mqtt_raspberry_controlle.Config.{Config}
use mqtt_raspberry_controlle.Config.Defaults.{discovery_enabled}
use mqtt_raspberry_controlle.Tests.Config.{minimal}
use mqtt_raspberry_controlle.Tests.Handlers.{lamp}
use mqtt_raspberry_controlle.Discovery.Topics.{discovery_topic}
use mqtt_raspberry_controlle.Discovery.Reconcile.{Publication}
use mqtt_raspberry_controlle.Discovery.Desired.{Value, desired_discovery_publications}

abbrev pub house : Config
house = record minimal {
  mqtt = record (minimal.mqtt) {
    discovery = record (minimal.mqtt.discovery) { prefix = codes "home" };
  };
  entities = lamp ∷ [];
}

abbrev pub marshal : Dict Value → Option Bytes
marshal value = some (codes "{}")

abbrev topic : Bytes
topic = discovery_topic (codes "home") (codes "switch") (codes "pi") (codes "lamp")

abbrev published : List Publication
published = record { entity_id = codes "lamp"; topic = topic; payload = codes "{}" } ∷ []

published_for_house : desired_discovery_publications house marshal ≡ some published
unfolding desired_discovery_publications discovery_enabled
published_for_house = refl
