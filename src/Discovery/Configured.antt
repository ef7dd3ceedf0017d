-- ===== src/Discovery/Configured.antt =====
-- controller/discovery.go: `reconcileDiscovery` with the controller's configuration. `encoded_size` is
-- the length of a manifest's JSON text.
pub mod Ids
pub mod Topics
pub mod Acceptance
use mqtt_raspberry_controlle.Base.{ℕ, ltb, if◌then◌else◌, Option, none, some, Bytes}
use mqtt_raspberry_controlle.Base.Dict.{Dict}
use mqtt_raspberry_controlle.Config.{Config}
use mqtt_raspberry_controlle.Config.Defaults.{mqtt_qos}
use mqtt_raspberry_controlle.Discovery.Topics.{DiscoveryState}
use mqtt_raspberry_controlle.Discovery.World.{M, throw, marshal_failed}
use mqtt_raspberry_controlle.Discovery.Reconcile.{Settings, reconcile_discovery}
use mqtt_raspberry_controlle.Discovery.Desired.{Value, desired_discovery_publications}

-- The retained publications are at least acknowledged.
unfoldable pub discovery_qos : Config → ℕ
discovery_qos cfg = if ltb 0 (mqtt_qos cfg) then mqtt_qos cfg else 1

module _ (cfg : Config) (marshal : Dict Value → Option Bytes)
    (encoded_size : DiscoveryState → ℕ) where
  abbrev pub settings_of : Settings
  settings_of = record {
    state_file = cfg.mqtt.discovery.state_file;
    client_id = cfg.mqtt.client_id;
    device_id = cfg.device.id;
    encoded_size = encoded_size;
  }

  unfoldable pub reconcile_configured : M (Unit {0})
  reconcile_configured = elim (desired_discovery_publications cfg marshal) [
    | none ↦ throw marshal_failed
    | some publications ↦ reconcile_discovery settings_of publications
  ]
