-- ===== src/Config/Validation.antt =====
-- config/validation.go: `Validate`. The parts are below: patterns, durations and topics; the broker and
-- its credentials; GPIO lines; actions; entities.
pub mod Errors
pub mod Names
pub mod Files
pub mod Broker
pub mod Tls
pub mod Lines
pub mod Actions
pub mod Entities
use mqtt_raspberry_controlle.Base.{
  Bool, true, false, not, ◌&&◌, ◌||◌, List, [], ◌∷◌, Bytes, codes, same, is_empty, contains_byte,
  ltb, if◌then◌else◌,
}
use mqtt_raspberry_controlle.Base.Result.{Result, ok, err, ◌>>=◌}
use mqtt_raspberry_controlle.Base.Space.{trim_space}
use mqtt_raspberry_controlle.Base.Checks.{Check, fail_if, first_error}
use mqtt_raspberry_controlle.Config.{Config}
use mqtt_raspberry_controlle.Config.Defaults.{mqtt_qos, discovery_enabled}
use mqtt_raspberry_controlle.Config.Paths.{is_abs, clean}
use mqtt_raspberry_controlle.Config.Outside.{Outside}
use mqtt_raspberry_controlle.Config.Validation.Errors.{
  named, ConfigError, invalid_device_id, missing_device_name, missing_client_id, unclean_state_file,
  invalid_qos, no_entities,
}
use mqtt_raspberry_controlle.Config.Validation.Names.{
  id_pattern, optional_duration, validate_topic_prefix, topic_if,
}
use mqtt_raspberry_controlle.Config.Validation.Broker.{validate_mqtt}
use mqtt_raspberry_controlle.Config.Validation.Tls.{tls_if_secure}
use mqtt_raspberry_controlle.Config.Validation.Lines.{validate_gpio}
use mqtt_raspberry_controlle.Config.Validation.Entities.{validate_entities}

-- The condition on the discovery's state file.
unfoldable pub bad_state_file : Bytes → Bool
bad_state_file path =
    not (is_empty path)
    && (contains_byte path 0 || (not (is_abs path) || not (same (clean path) path)))

module _ (o : Outside) (c : Config) where
  unfoldable pub validate : Check ConfigError
  validate = first_error (
      (do secure ← validate_mqtt o c; tls_if_secure o c secure)
      ∷ fail_if (not (id_pattern c.device.id)) (invalid_device_id c.device.id)
      ∷ fail_if (is_empty (trim_space c.device.name)) missing_device_name
      ∷ fail_if (is_empty c.mqtt.client_id) missing_client_id
      ∷ validate_topic_prefix (named (codes "mqtt.base_topic")) c.mqtt.base_topic
      ∷ topic_if (discovery_enabled c) (named (codes "mqtt.discovery.prefix"))
          c.mqtt.discovery.prefix
      ∷ fail_if (bad_state_file c.mqtt.discovery.state_file) unclean_state_file
      ∷ fail_if (ltb 2 (mqtt_qos c)) invalid_qos
      ∷ optional_duration o (named (codes "mqtt.keep_alive")) c.mqtt.keep_alive
      ∷ optional_duration o (named (codes "mqtt.connect_timeout")) c.mqtt.connect_timeout
      ∷ validate_gpio o c.gpio
      ∷ fail_if (is_empty c.entities) no_entities
      ∷ validate_entities o c 0 [] c.entities
      ∷ [])
