-- ===== src/Config/Validation/Tls.antt =====
-- config/validation.go: `MQTTTLSConfig`.
use mathlib.Core.List.{reverse}
use mqtt_raspberry_controlle.Base.{
  ℕ, ◌*◌, Bool, true, false, not, ◌&&◌, ◌||◌, Option, none, some, List, [], ◌∷◌, ◌++◌, Bytes, codes,
  same, is_empty, contains_any, ltb, leb, ◌==◌, if◌then◌else◌, length,
}
use mqtt_raspberry_controlle.Base.Result.{Result, ok, err, ◌>>=◌}
use mqtt_raspberry_controlle.Base.Space.{trim_space}
use mqtt_raspberry_controlle.Base.Checks.{Check}
use mqtt_raspberry_controlle.Config.{Config}
use mqtt_raspberry_controlle.Config.Outside.{Outside, Url}
use mqtt_raspberry_controlle.Config.Validation.Files.{read_bounded_regular_file}
use mqtt_raspberry_controlle.Config.Validation.Broker.{broker_url}
use mqtt_raspberry_controlle.Config.Validation.Errors.{
  ConfigError, invalid_min_version, invalid_server_name, no_valid_certificates, invalid_key_pair,
}

-- What is set of a tls.Config; a certificate pool is its PEM text, a certificate its two files.
pub record TlsConfig : Type 0 where
  pub min_version : ℕ
  pub server_name : Bytes
  pub root_ca : Option Bytes
  pub certificate : Option (Bytes × Bytes)

abbrev pub version_tls12 : ℕ
version_tls12 = 0x0303

abbrev pub version_tls13 : ℕ
version_tls13 = 0x0304

abbrev max_pem_size : ℕ
max_pem_size = 4 * 1024 * 1024

-- The parts of a host name between its dots; `part` is the part that is being read.
labels_from : Bytes → Bytes → List Bytes
labels_from part [] = part ∷ []
labels_from part (c ∷ s) = elim (c == b'.') [
  | true ↦ part ∷ labels_from [] s
  | false ↦ labels_from (part ++ c ∷ []) s
]

all_label_bytes : Bytes → Bool
all_label_bytes [] = true
all_label_bytes (c ∷ s) =
    ((leb b'a' c && leb c b'z')
      || ((leb b'A' c && leb c b'Z') || ((leb b'0' c && leb c b'9') || (c == b'-'))))
    && all_label_bytes s

starts_with : ℕ → Bytes → Bool
starts_with b [] = false
starts_with b (c ∷ _) = c == b

valid_label : Bytes → Bool
unfolding all_label_bytes starts_with
valid_label label =
    not (is_empty label)
    && (leb (length label) 63
        && (not (starts_with b'-' label)
            && (not (starts_with b'-' (reverse label)) && all_label_bytes label)))

all_labels : List Bytes → Bool
unfolding valid_label
all_labels [] = true
all_labels (label ∷ labels) = valid_label label && all_labels labels

module _ (o : Outside) where
  unfoldable pub valid_tls_server_name : Bytes → Bool
  unfolding starts_with labels_from all_labels
  valid_tls_server_name name =
      if is_empty name || (not (same (trim_space name) name) || contains_any name (codes "/@?#[]"))
      then false
      else elim (o.parse_ip name) [
        | some _ ↦ true
        | none ↦
            if ltb 253 (length name) || (starts_with b'.' name || starts_with b'.' (reverse name))
            then false
            else all_labels (labels_from [] name)
      ]

module _ (o : Outside) (c : Config) where
  unfoldable pub min_version_of : Result ConfigError ℕ
  min_version_of =
      if is_empty c.mqtt.tls.min_version || same c.mqtt.tls.min_version (codes "1.2")
      then ok version_tls12
      else if same c.mqtt.tls.min_version (codes "1.3")
      then ok version_tls13
      else err invalid_min_version

  unfoldable pub server_name_of : Url → Result ConfigError Bytes
  server_name_of u =
      if is_empty c.mqtt.tls.server_name
      then ok u.hostname
      else if not (valid_tls_server_name o c.mqtt.tls.server_name)
      then err invalid_server_name
      else ok c.mqtt.tls.server_name

  unfoldable pub read_ca : Result ConfigError (Option Bytes)
  read_ca = if is_empty c.mqtt.tls.ca_file then ok none else do
    pem ← read_bounded_regular_file o c.mqtt.tls.ca_file max_pem_size false
    if o.append_certs pem then ok (some pem) else err no_valid_certificates

  unfoldable pub read_certificate : Result ConfigError (Option (Bytes × Bytes))
  read_certificate = if is_empty c.mqtt.tls.cert_file then ok none else do
    cert ← read_bounded_regular_file o c.mqtt.tls.cert_file max_pem_size false
    key ← read_bounded_regular_file o c.mqtt.tls.key_file max_pem_size true
    if o.key_pair cert key then ok (some (cert, key)) else err invalid_key_pair

  unfoldable pub mqtt_tls_config : Result ConfigError TlsConfig
  unfolding min_version_of server_name_of read_ca read_certificate
  mqtt_tls_config = do
    min_version ← min_version_of
    u ← broker_url o c
    server_name ← server_name_of u
    root_ca ← read_ca
    certificate ← read_certificate
    ok (record {
      min_version = min_version;
      server_name = server_name;
      root_ca = root_ca;
      certificate = certificate;
    })

  -- if secure { if _, err := c.MQTTTLSConfig(); err != nil { return err } }
  unfoldable pub tls_if_secure : Bool → Check ConfigError
  tls_if_secure secure = if secure then (do _ ← mqtt_tls_config; ok tt) else ok tt
