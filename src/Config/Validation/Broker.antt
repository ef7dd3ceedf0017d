-- ===== src/Config/Validation/Broker.antt =====
-- config/validation.go: the broker's address, its credentials and TLS.
pub mod Security
use mathlib.Core.List.{reverse}
use mqtt_raspberry_controlle.Base.{
  ℕ, ◌+◌, ◌-◌, ◌*◌, Bool, true, false, not, ◌&&◌, ◌||◌, Option, none, some, List, [], ◌∷◌, ◌++◌,
  Bytes, codes, same, is_empty, contains, contains_any, ltb, leb, ◌==◌, if◌then◌else◌, length,
}
use mqtt_raspberry_controlle.Base.Result.{Result, ok, err, ◌>>=◌}
use mqtt_raspberry_controlle.Base.Space.{trim_space, to_lower, fold_case}
use mqtt_raspberry_controlle.Base.Checks.{Check, fail_if, first_error}
use mqtt_raspberry_controlle.Config.{Config}
use mqtt_raspberry_controlle.Config.Outside.{Outside, Url}
use mqtt_raspberry_controlle.Config.Paths.{is_abs, clean}
use mqtt_raspberry_controlle.Config.Validation.Files.{mqtt_password, read_bounded_regular_file}
use mqtt_raspberry_controlle.Config.Validation.Errors.{
  ConfigError, missing_broker, invalid_url, user_information, query_or_fragment, unsupported_scheme,
  bad_socket_path, missing_host_or_port, invalid_port, unsafe_websocket_path, path_not_allowed,
  plaintext_remote, two_passwords, username_without_password, cert_without_key, cert_without_tls,
  tls_without_scheme, unauthenticated_with_credentials, authentication_required,
  invalid_min_version, invalid_server_name, no_valid_certificates, invalid_key_pair,
}

-- secureMQTTSchemes
unfoldable pub is_secure : Bytes → Bool
is_secure scheme =
    contains
      (codes "ssl"
        ∷ codes "tls"
        ∷ codes "mqtts"
        ∷ codes "mqtt+ssl"
        ∷ codes "tcps"
        ∷ codes "wss"
        ∷ [])
      scheme

unfoldable pub is_network : Bytes → Bool
is_network scheme =
    contains (codes "mqtt" ∷ codes "tcp" ∷ codes "ws" ∷ []) scheme || is_secure scheme

-- A port as strconv.Atoi reads it: digits behind an optional sign. A number above 65535 is as good as
-- one out of range, since both are refused.
digits_value : ℕ → Bytes → Option ℕ
digits_value value [] = some value
digits_value value (c ∷ s) =
    let rest = digits_value (value * 10 + (c - b'0')) s in
    if leb b'0' c && leb c b'9' then rest else none

port_number : Bytes → Option ℕ
unfolding digits_value
port_number [] = none
port_number (c ∷ s) =
    if c == b'-'
    then none
    else if c == b'+'
    then (if is_empty s then none else digits_value 0 s)
    else digits_value 0 (c ∷ s)

unfoldable pub bad_port : Bytes → Bool
unfolding port_number
bad_port s = elim (port_number s) [ none ↦ true | some port ↦ ltb port 1 || ltb 65535 port ]

-- net.JoinHostPort puts a host with a colon into brackets.
join_host_port : Bytes → Bytes → Bytes
join_host_port host port =
    if contains_any host (codes ":")
    then b'[' ∷ (host ++ (b']' ∷ b':' ∷ port))
    else host ++ (b':' ∷ port)

unfoldable pub log_address : Url → Result ConfigError Bytes
unfolding join_host_port
log_address u =
    if same (fold_case u.scheme) (codes "unix")
    then ok (codes "unix://local")
    else if is_empty u.hostname || is_empty u.port
    then err missing_host_or_port
    else ok (to_lower u.scheme ++ (codes "://" ++ join_host_port u.hostname u.port))

unfoldable pub is_literal_loopback : Outside → Bytes → Bool
is_literal_loopback o host =
    same (fold_case host) (codes "localhost")
    || elim (o.parse_ip host) [ none ↦ false | some loopback ↦ loopback ]

unfoldable pub unix_check : Url → Check ConfigError
unix_check u =
    fail_if
      (not (is_empty u.host)
        || (not (is_abs u.path) || (not (same (clean u.path) u.path) || not (is_empty u.raw_path))))
      bad_socket_path

-- The path of a websocket URL, and that of any other one.
path_check : Bytes → Url → Check ConfigError
path_check scheme u =
    if same scheme (codes "ws") || same scheme (codes "wss")
    then fail_if
        (not (is_empty u.path)
          && (not (is_abs u.path)
              || (not (same (clean u.path) u.path) || not (is_empty u.raw_path))))
        unsafe_websocket_path
    else fail_if (not (is_empty u.path)) path_not_allowed

-- a != b on Booleans
unfoldable pub differ : Bool → Bool → Bool
differ true b = not b
differ false b = b

module _ (c : Config) where
  unfoldable pub has_password : Bool
  has_password = not (is_empty c.mqtt.password) || not (is_empty c.mqtt.password_file)

  unfoldable pub has_cert : Bool
  has_cert = not (is_empty c.mqtt.tls.cert_file) || not (is_empty c.mqtt.tls.key_file)

  unfoldable pub has_tls_option : Bool
  has_tls_option =
      not (is_empty c.mqtt.tls.ca_file)
      || (has_cert
          || (not (is_empty c.mqtt.tls.server_name) || not (is_empty c.mqtt.tls.min_version)))

module _ (o : Outside) (c : Config) where
  unfoldable pub broker_url : Result ConfigError Url
  broker_url = elim (o.parse_url c.mqtt.broker) [ none ↦ err invalid_url | some u ↦ ok u ]

  unfoldable pub broker_log_address : Result ConfigError Bytes
  unfolding broker_url log_address
  broker_log_address = do u ← broker_url; log_address u

  unfoldable pub network_check : Bytes → Url → Check ConfigError
  unfolding path_check
  network_check scheme u = first_error (
      fail_if (is_empty u.hostname || is_empty u.port) missing_host_or_port
      ∷ fail_if (bad_port u.port) invalid_port
      ∷ path_check scheme u
      ∷ fail_if
          (not (is_secure scheme)
            && (not c.mqtt.allow_insecure_transport && not (is_literal_loopback o u.hostname)))
          plaintext_remote
      ∷ [])

  unfoldable pub scheme_check : Bytes → Url → Check ConfigError
  scheme_check scheme u =
      if same scheme (codes "unix")
      then unix_check u
      else if is_network scheme
      then network_check scheme u
      else err unsupported_scheme

  unfoldable pub url_check : Url → Check ConfigError
  url_check u = first_error (
      fail_if u.has_user user_information
      ∷ fail_if (not (is_empty u.raw_query) || (u.force_query || not (is_empty u.fragment)))
          query_or_fragment
      ∷ scheme_check (to_lower u.scheme) u
      ∷ [])

  unfoldable pub password_check : Check ConfigError
  password_check = if is_empty c.mqtt.password_file then ok tt else do _ ← mqtt_password o c; ok tt

  unfoldable pub credentials_check : Bool → Check ConfigError
  unfolding password_check
  credentials_check secure = first_error (
      fail_if (not (is_empty c.mqtt.password) && not (is_empty c.mqtt.password_file)) two_passwords
      ∷ fail_if (differ (is_empty c.mqtt.username) (not (has_password c))) username_without_password
      ∷ fail_if (differ (is_empty c.mqtt.tls.cert_file) (is_empty c.mqtt.tls.key_file))
          cert_without_key
      ∷ fail_if (has_cert c && not secure) cert_without_tls
      ∷ fail_if (has_tls_option c && not secure) tls_without_scheme
      ∷ fail_if (c.mqtt.allow_unauthenticated && (has_password c || has_cert c))
          unauthenticated_with_credentials
      ∷ fail_if (not (has_password c) && (not (has_cert c) && not c.mqtt.allow_unauthenticated))
          authentication_required
      ∷ password_check
      ∷ [])

  -- The result says whether the scheme is a secure one.
  unfoldable pub validate_mqtt : Result ConfigError Bool
  validate_mqtt = do
    _ ← fail_if (is_empty (trim_space c.mqtt.broker)) missing_broker
    u ← broker_url
    _ ← url_check u
    _ ← credentials_check (is_secure (to_lower u.scheme))
    ok (is_secure (to_lower u.scheme))
