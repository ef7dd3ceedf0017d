-- ===== src/Config/Validation/Broker/Security.antt =====
-- What holds of the broker and its credentials behind `validateMQTT`.
use mqtt_raspberry_controlle.Base.{
  Bool, true, false, not, ◌&&◌, ◌||◌, some, codes, same, is_empty, ◌≡◌, refl, subst, arith,
  Bool-cases, inl, inr, Option-cases,
}
use mqtt_raspberry_controlle.Base.Result.{ok}
use mqtt_raspberry_controlle.Base.Space.{trim_space, to_lower}
use mqtt_raspberry_controlle.Base.Checks.{
  Passed, first_error-Passed, not_failed, then-Passed, bound_then, ok_injective, fail_if,
}
use mqtt_raspberry_controlle.Config.{Config}
use mqtt_raspberry_controlle.Config.Outside.{Outside, Url}
use mqtt_raspberry_controlle.Config.Validation.Errors.{missing_broker}
use mqtt_raspberry_controlle.Config.Validation.Broker.{
  is_secure, is_network, broker_url, is_literal_loopback, network_check, scheme_check, url_check,
  has_password, has_cert, differ, credentials_check, validate_mqtt,
}

-- The credentials do not cross the network in plain text unless the configuration says so or the broker
-- is on this host; and there is a way to authenticate unless the configuration says that there is none.
pub record Secured (o : Outside) (c : Config) (u : Url) (secure : Bool) : Type 0 where
  pub scheme : secure ≡ is_secure (to_lower u.scheme)
  pub no_user : u.has_user ≡ false
  pub transport :
      (secure
        || (same (to_lower u.scheme) (codes "unix")
            || (c.mqtt.allow_insecure_transport || is_literal_loopback o u.hostname)))
      ≡ true
  pub authenticated : (has_password c || (has_cert c || c.mqtt.allow_unauthenticated)) ≡ true
  pub exclusive : (c.mqtt.allow_unauthenticated && (has_password c || has_cert c)) ≡ false
  pub one_password : (is_empty c.mqtt.password || is_empty c.mqtt.password_file) ≡ true
  pub named : is_empty c.mqtt.username ≡ not (has_password c)
  pub certificate : is_empty c.mqtt.tls.cert_file ≡ is_empty c.mqtt.tls.key_file
  pub certificate_secure : (not (has_cert c) || secure) ≡ true

module _ (o : Outside) (c : Config) where
  network_transport :
      (u : Url)
      → Passed (network_check o c (to_lower u.scheme) u)
      → (is_secure (to_lower u.scheme)
          || (c.mqtt.allow_insecure_transport || is_literal_loopback o u.hostname))
        ≡ true
  unfolding network_check
  network_transport u h =
      let last = not_failed _ _ (first_error-Passed _ h).1.1.1.0 in ground (arith, last)

  scheme_transport :
      (u : Url)
      → Passed (scheme_check o c (to_lower u.scheme) u)
      → (is_secure (to_lower u.scheme)
          || (same (to_lower u.scheme) (codes "unix")
              || (c.mqtt.allow_insecure_transport || is_literal_loopback o u.hostname)))
        ≡ true
  unfolding scheme_check
  scheme_transport u h = elim (Bool-cases (same (to_lower u.scheme) (codes "unix"))) [
    | inl unix ↦ ground (arith, unix)
    | inr other ↦ elim (Bool-cases (is_network (to_lower u.scheme))) [
      | inl network ↦ let t = network_transport u (rw (other, network) at h) in ground (arith, t)
      | inr unknown ↦ absurd (ground (arith, rw (other, unknown) at h))
    ]
  ]

  differ-false : (a b : Bool) → differ a b ≡ false → a ≡ b
  unfolding differ
  differ-false true true h = refl
  differ-false true false h = cc
  differ-false false true h = cc
  differ-false false false h = refl

  pub url_and_credentials :
      (u : Url)
      → Passed (url_check o c u)
      → Passed (credentials_check o c (is_secure (to_lower u.scheme)))
      → Secured o c u (is_secure (to_lower u.scheme))
  unfolding url_check credentials_check
  url_and_credentials u h k =
      let (user, (query, (scheme, _))) = first_error-Passed _ h in
      let (one, (name, (pair, (cert, (tls, (both, (some_way, (file, _)))))))) =
        first_error-Passed _ k in
      let one' = not_failed _ _ one in
      let cert' = not_failed _ _ cert in
      let some_way' = not_failed _ _ some_way in
      record {
        scheme = refl;
        no_user = not_failed _ _ user;
        transport = scheme_transport u scheme;
        authenticated = ground (arith, some_way');
        exclusive = not_failed _ _ both;
        one_password = ground (arith, one');
        named = differ-false _ _ (not_failed _ _ name);
        certificate = differ-false _ _ (not_failed _ _ pair);
        certificate_secure = ground (arith, cert');
      }

  broker_url_parsed : (u : Url) → broker_url o c ≡ ok u → o.parse_url c.mqtt.broker ≡ some u
  unfolding broker_url
  broker_url_parsed u h = elim (Option-cases (o.parse_url c.mqtt.broker)) [
    | inl invalid ↦ absurd (ground (arith, h, invalid))
    | inr (v, parsed) ↦ ground (arith, h, parsed)
  ]

  -- Where `validateMQTT` passes, the broker's text is a URL without user information; the transport is
  -- encrypted, or a Unix socket, or goes to this host, or plain text is allowed explicitly; there is a
  -- password or a client certificate, or the configuration says explicitly that there is none, and not
  -- both; the password has one source, and comes with a user name; and a client certificate has both its
  -- files and an encrypted transport.
  pub validate_mqtt-Secured :
      (secure : Bool)
      → validate_mqtt o c ≡ ok secure
      → (u : Url) × (o.parse_url c.mqtt.broker ≡ some u) × Secured o c u secure
  unfolding validate_mqtt
  validate_mqtt-Secured secure h =
      let (_, h1) =
        then-Passed (fail_if (is_empty (trim_space c.mqtt.broker)) missing_broker) _ h in
      let (u, parsed, h2) = bound_then (broker_url o c) _ h1 in
      let (urls, h3) = then-Passed (url_check o c u) _ h2 in
      let (creds, h4) = then-Passed (credentials_check o c (is_secure (to_lower u.scheme))) _ h3 in
      let same_secure = ok_injective _ _ h4 in
      (
        u,
        broker_url_parsed u parsed,
        subst (Secured o c u) same_secure (url_and_credentials u urls creds),
      )
