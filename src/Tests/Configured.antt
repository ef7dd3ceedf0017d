-- ===== src/Tests/Configured.antt =====
-- A valid configuration, and the manifest behind its reconciliation.
use mqtt_raspberry_controlle.Base.{
  [], ◌∷◌, codes, same, is_empty, contains, contains_any, contains_byte, refl, inr,
}
use mqtt_raspberry_controlle.Base.Dict.{has}
use mqtt_raspberry_controlle.Base.Space.{trim_space, to_lower, fold_case}
use mqtt_raspberry_controlle.Base.Checks.{Passed, fail_if, first_error}
use mqtt_raspberry_controlle.Config.{Config, Entity}
use mqtt_raspberry_controlle.Config.Defaults.{mqtt_qos, discovery_enabled}
use mqtt_raspberry_controlle.Config.Paths.{is_abs, clean}
use mqtt_raspberry_controlle.Config.Validation.{validate, bad_state_file}
use mqtt_raspberry_controlle.Config.Validation.Names.{
  id_pattern, match_pattern, match_rest, in_class, optional_duration, validate_topic_prefix,
  topic_if,
}
use mqtt_raspberry_controlle.Config.Validation.Broker.{
  is_secure, is_network, bad_port, broker_url, is_literal_loopback, network_check, scheme_check,
  url_check, has_password, has_cert, has_tls_option, differ, credentials_check, validate_mqtt,
}
use mqtt_raspberry_controlle.Config.Validation.Tls.{tls_if_secure}
use mqtt_raspberry_controlle.Config.Validation.Lines.{
  check_output, check_outputs, check_inputs, is_used, same_line, same_number, output_key,
  validate_gpio,
}
use mqtt_raspberry_controlle.Config.Validation.Actions.{
  validate_actions_from, is_nil, gpio_check, validate_action, validate_actions,
}
use mqtt_raspberry_controlle.Config.Validation.Entities.{
  state_check, validate_switch, validate_kind, validate_entity, validate_entities,
}
use mqtt_raspberry_controlle.Discovery.Topics.{
  validate_discovery_state, valid_discovery_id, validate_topics, owned_discovery_topic,
  split_slashes, join_slashes,
}
use mqtt_raspberry_controlle.Discovery.Reconcile.Release.{IsAcceptable}
use mqtt_raspberry_controlle.Discovery.Configured.{settings_of, reconcile_configured}
use mqtt_raspberry_controlle.Discovery.Configured.Acceptance.{configured-IsAcceptable}
use mqtt_raspberry_controlle.Tests.Action.{switch_gpio}
use mqtt_raspberry_controlle.Tests.Gpio.{output}
use mqtt_raspberry_controlle.Tests.Desired.{house, marshal}
use mqtt_raspberry_controlle.Tests.Handlers.{lamp}
use mqtt_raspberry_controlle.Tests.Discovery.{before, faults}
use mqtt_raspberry_controlle.Tests.Validation.{outside}

abbrev lit_lamp : Entity
lit_lamp = record lamp {
  on = switch_gpio (codes "lamp") ∷ [];
  off = switch_gpio (codes "lamp") ∷ [];
}

abbrev pub home : Config
home = record house {
  mqtt = record (house.mqtt) {
    client_id = codes "pi";
    base_topic = codes "home";
    discovery = record (house.mqtt.discovery) { state_file = codes "/var/lib/state.json" };
  };
  device = record {
    id = codes "pi";
    name = codes "Pi";
    manufacturer = codes "Raspberry Pi";
    model = codes "4B";
  };
  gpio = record { outputs = (codes "lamp", output 17) ∷ []; inputs = [] };
  entities = lit_lamp ∷ [];
}

pub home_passes : Passed (validate outside home)
unfolding validate validate_mqtt broker_url url_check scheme_check network_check credentials_check
    is_secure is_network bad_port is_literal_loopback has_password has_cert has_tls_option differ
    trim_space to_lower fold_case same is_empty contains contains_any fail_if first_error
    tls_if_secure bad_state_file is_abs clean contains_byte id_pattern match_pattern match_rest
    in_class mqtt_qos optional_duration validate_topic_prefix topic_if discovery_enabled
    validate_gpio check_outputs check_inputs check_output is_used same_line same_number output_key
    is_nil has gpio_check validate_action validate_actions validate_actions_from state_check
    validate_switch validate_kind validate_entity validate_entities join_slashes split_slashes
home_passes = refl

configured-IsAcceptable_example :
    IsAcceptable
      (settings_of home marshal (λ s. 100))
      (reconcile_configured home marshal (λ s. 100) (before faults)).1.manifest
unfolding is_empty validate_discovery_state validate_topics owned_discovery_topic valid_discovery_id
    same contains join_slashes contains_any
configured-IsAcceptable_example =
    configured-IsAcceptable home marshal (λ s. 100) outside (before faults) home_passes refl
      (refl, inr refl)
