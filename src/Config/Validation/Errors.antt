-- ===== src/Config/Validation/Errors.antt =====
-- The errors of config/validation.go, with the data that their texts name.
use mqtt_raspberry_controlle.Base.{ℕ, Bytes}

-- A place in the configuration as the errors name it: a name, a field below a place, and an item
-- of a list; `action_at context i` is "entity context action[i]".
pub data Place : Type 0 where
  named : Bytes → Place
  action_at : Bytes → ℕ → Place
  field : Place → Bytes → Place
  element : Place → ℕ → Place

pub data ConfigError : Type 0 where
  -- the broker, its credentials and TLS
  missing_broker invalid_url user_information query_or_fragment unsupported_scheme : ConfigError
  bad_socket_path missing_host_or_port invalid_port unsafe_websocket_path path_not_allowed :
      ConfigError
  plaintext_remote two_passwords username_without_password : ConfigError
  cert_without_key cert_without_tls tls_without_scheme : ConfigError
  unauthenticated_with_credentials authentication_required : ConfigError
  empty_password_file nul_in_password invalid_min_version invalid_server_name : ConfigError
  no_valid_certificates invalid_key_pair : ConfigError
  cannot_read not_regular bad_permissions : Bytes → ConfigError
  too_long : Bytes → ℕ → ConfigError
  -- the device and the topics
  invalid_device_id : Bytes → ConfigError
  missing_device_name missing_client_id unclean_state_file invalid_qos no_entities : ConfigError
  invalid_duration not_positive empty_topic wildcard_topic : Place → ConfigError
  -- GPIO lines
  invalid_output_key invalid_input_key : Bytes → ConfigError
  negative_line invalid_bias : Place → ConfigError
  line_used_twice : Bytes → ConfigError
  -- entities and actions
  invalid_entity_id : ℕ → Bytes → ConfigError
  duplicate_entity missing_entity_name missing_state unused_state_gpio : Bytes → ConfigError
  missing_actions unsupported_state : Bytes → Bytes → ConfigError
  invalid_source : Bytes → ConfigError
  unknown_output unknown_input unsupported_kind : Bytes → Bytes → ConfigError
  unknown_action_output unsupported_action : Place → Bytes → ConfigError
  missing_value missing_duration invalid_action_qos missing_command : Place → ConfigError
  nul_byte not_absolute cannot_stat not_executable not_a_directory : Place → ConfigError
  invalid_environment_name : Place → Bytes → ConfigError
