-- ===== src/Mqtt/New/Security.antt =====
-- `New` accepts the configurations that `Validate` accepts, and sets TLS where the scheme asks for it.
use mqtt_raspberry_controlle.Base.{
  ℕ, ◌≤◌, Bool, true, false, Option, none, some, [], ◌∷◌, Bytes, codes, same, is_empty, ◌≡◌, refl,
  sym, ap, arith, Bool-cases, ◌⊎◌, inl, inr,
}
use mqtt_raspberry_controlle.Base.Result.{Result, ok, err, ◌>>=◌}
use mqtt_raspberry_controlle.Base.Space.{trim_space, to_lower, fold_case}
use mqtt_raspberry_controlle.Base.Checks.{
  fail_if, Passed, first_error-Passed, not_failed, then-Passed, bound_then, ok_injective,
}
use mqtt_raspberry_controlle.Config.{Config}
use mqtt_raspberry_controlle.Config.Outside.{Outside, Url}
use mqtt_raspberry_controlle.Config.Validation.{validate}
use mqtt_raspberry_controlle.Config.Validation.Errors.{missing_broker}
use mqtt_raspberry_controlle.Config.Validation.Files.{mqtt_password}
use mqtt_raspberry_controlle.Config.Validation.Broker.{
  is_secure, is_network, broker_url, broker_log_address, log_address, network_check, scheme_check,
  url_check, password_check, credentials_check, validate_mqtt,
}
use mqtt_raspberry_controlle.Config.Validation.Broker.Security.{Secured, url_and_credentials}
use mqtt_raspberry_controlle.Config.Validation.Tls.{
  TlsConfig, version_tls12, min_version_of, server_name_of, read_ca, read_certificate,
  mqtt_tls_config, tls_if_secure,
}
use mqtt_raspberry_controlle.Mqtt.New.{Options, is_tls_scheme, tls_options, options_of, new}

fold-unix :
    (s : Bytes) → same (to_lower s) (codes "unix") ≡ true → same (fold_case s) (codes "unix") ≡ true
unfolding to_lower fold_case same
fold-unix [] h = cc
fold-unix (a ∷ []) h = ground (arith, h)
fold-unix (a ∷ b ∷ []) h = ground (arith, h)
fold-unix (a ∷ b ∷ c ∷ []) h = ground (arith, h)
fold-unix (a ∷ b ∷ c ∷ d ∷ []) h = ground (arith, h)
fold-unix (a ∷ b ∷ c ∷ d ∷ e ∷ s) h = ground (arith, h)

-- An error or a result.
result_cases : {E A : Type 0} (r : Result E A) → ((a : A) × (r ≡ ok a)) ⊎ ((e : E) × (r ≡ err e))
result_cases (ok a) = inl (a, refl)
result_cases (err e) = inr (e, refl)

-- A result that is only checked is one.
checked_result : {E A : Type 0} (r : Result E A) → Passed (r >>= λ _. ok tt) → (a : A) × (r ≡ ok a)
checked_result (ok a) h = (a, refl)
checked_result (err e) h = cc

module _ (o : Outside) (cfg : Config) where
  address_logged :
      (u : Url) → Passed (url_check o cfg u) → (address : Bytes) × (log_address u ≡ ok address)
  unfolding url_check scheme_check network_check log_address
  address_logged u h =
      let scheme = (first_error-Passed _ h).1.1.0 in
      elim (result_cases (log_address u)) [
        | inl logged ↦ logged
        | inr (e, failed) ↦ elim (Bool-cases (same (to_lower u.scheme) (codes "unix"))) [
          | inl unix ↦ absurd (ground (arith, failed, fold-unix u.scheme unix))
          | inr other ↦ elim (Bool-cases (is_network (to_lower u.scheme))) [
            | inr unknown ↦ absurd (ground (arith, rw (other, unknown) at scheme))
            | inl network ↦
                let host =
                  not_failed _ _ (first_error-Passed _ (rw (other, network) at scheme)).0 in
                absurd (ground (arith, failed, host))
          ]
        ]
      ]

  direct_password :
      is_empty cfg.mqtt.password_file ≡ true → mqtt_password o cfg ≡ ok cfg.mqtt.password
  unfolding mqtt_password
  direct_password e = rw e refl

  password_read :
      Passed (password_check o cfg) → (password : Bytes) × (mqtt_password o cfg ≡ ok password)
  unfolding password_check
  password_read h = elim (Bool-cases (is_empty cfg.mqtt.password_file)) [
    | inl e ↦ (cfg.mqtt.password, direct_password e)
    | inr e ↦ checked_result (mqtt_password o cfg) (rw e at h)
  ]

  tls_read :
      (secure : Bool)
      → Passed (tls_if_secure o cfg secure)
      → secure ≡ true
      → (t : TlsConfig) × (mqtt_tls_config o cfg ≡ ok t)
  unfolding tls_if_secure
  tls_read secure h e = checked_result (mqtt_tls_config o cfg) (rw e at h)

  min_version_bound : (v : ℕ) → min_version_of o cfg ≡ ok v → version_tls12 ≤ v
  unfolding min_version_of
  min_version_bound v h = ground (arith, h)

  tls_version : (t : TlsConfig) → mqtt_tls_config o cfg ≡ ok t → version_tls12 ≤ t.min_version
  unfolding mqtt_tls_config
  tls_version t h =
      let (v, e, h1) = bound_then (min_version_of o cfg) _ h in
      let bound = min_version_bound v e in
      let (u, _, h2) = bound_then (broker_url o cfg) _ h1 in
      let (name, _, h3) = bound_then (server_name_of o cfg u) _ h2 in
      let (ca, _, h4) = bound_then (read_ca o cfg) _ h3 in
      let (cert, _, h5) = bound_then (read_certificate o cfg) _ h4 in
      let same_version : v ≡ t.min_version =
        ap (λ (t : TlsConfig). t.min_version) (ok_injective _ _ h5) in
      rw same_version at bound

  -- What the parts of `Validate` have found out about the broker.
  record Checked : Type 0 where
    u : Url
    parsed : broker_url o cfg ≡ ok u
    address : Bytes
    logged : log_address u ≡ ok address
    password : Bytes
    read : mqtt_password o cfg ≡ ok password
    secured : Secured o cfg u (is_secure (to_lower u.scheme))
    tls : is_secure (to_lower u.scheme) ≡ true → (t : TlsConfig) × (mqtt_tls_config o cfg ≡ ok t)

  validate-Checked : Passed (validate o cfg) → Checked
  unfolding validate validate_mqtt credentials_check
  validate-Checked h =
      let first = (first_error-Passed _ h).0 in
      let (secure, mqtt, tls) = bound_then (validate_mqtt o cfg) (tls_if_secure o cfg) first in
      let (_, h1) =
        then-Passed (fail_if (is_empty (trim_space cfg.mqtt.broker)) missing_broker) _ mqtt in
      let (u, parsed, h2) = bound_then (broker_url o cfg) _ h1 in
      let (urls, h3) = then-Passed (url_check o cfg u) _ h2 in
      let (creds, h4) =
        then-Passed (credentials_check o cfg (is_secure (to_lower u.scheme))) _ h3 in
      let same_secure = ok_injective _ _ h4 in
      let (address, logged) = address_logged u urls in
      let (password, read) = password_read (first_error-Passed _ creds).1.1.1.1.1.1.1.0 in
      record {
        u = u;
        parsed = parsed;
        address = address;
        logged = logged;
        password = password;
        read = read;
        secured = url_and_credentials o cfg u urls creds;
        tls = tls_read (is_secure (to_lower u.scheme)) (rw (sym same_secure) at tls);
      }

  log_address-ok :
      (u : Url) (address : Bytes)
      → broker_url o cfg ≡ ok u
      → log_address u ≡ ok address
      → broker_log_address o cfg ≡ ok address
  unfolding broker_log_address
  log_address-ok u address parsed logged = rw parsed logged

  -- TLS of version 1.2 or later is set exactly where the scheme is a secure one.
  abbrev pub TlsFits : Bool → Option TlsConfig → Type 0
  TlsFits true tls = (t : TlsConfig) × (tls ≡ some t) × (version_tls12 ≤ t.min_version)
  TlsFits false tls = tls ≡ none

  tls_options-fit :
      (scheme : Bytes)
      → (is_secure scheme ≡ true → (t : TlsConfig) × (mqtt_tls_config o cfg ≡ ok t))
      → (tls : Option TlsConfig) × (tls_options o cfg scheme ≡ ok tls)
        × TlsFits (is_secure scheme) tls
  unfolding tls_options is_tls_scheme is_secure
  tls_options-fit scheme read = elim (Bool-cases (is_secure scheme)) [
    | inl e ↦
        let (t, made) = read e in (some t, rw (e, made) refl, rw e (t, refl, tls_version t made))
    | inr e ↦ (none, rw e refl, rw e refl)
  ]

  -- Where `Validate` passes, `New` succeeds. Its options have the password of the configuration, and TLS
  -- of version 1.2 or later exactly if the broker's scheme is a secure one; and with any other scheme the
  -- credentials go to a Unix socket or to this host, or plain text is allowed explicitly.
  pub new-Secured :
      Passed (validate o cfg)
      → (options : Options) × (u : Url) × (broker_url o cfg ≡ ok u)
        × (new o cfg ≡ ok options)
        × (mqtt_password o cfg ≡ ok options.password)
        × TlsFits (is_secure (to_lower u.scheme)) options.tls
        × Secured o cfg u (is_secure (to_lower u.scheme))
  unfolding new options_of
  new-Secured h =
      let c = validate-Checked h in
      let (tls, made, fits) = tls_options-fit (to_lower c.u.scheme) c.tls in
      (
        options_of o cfg c.password tls,
        c.u,
        c.parsed,
        rw (h, c.read, log_address-ok c.u c.address c.parsed c.logged, c.parsed, made) refl,
        c.read,
        fits,
        c.secured,
      )
