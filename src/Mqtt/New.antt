-- ===== src/Mqtt/New.antt =====
-- mqtt/client.go: `New`, as the options that it gives to the library. The client itself is `idle_client`.
pub mod Security
use mqtt_raspberry_controlle.Base.{
  ℕ, ◌*◌, ◌^◌, Bool, true, false, Option, none, some, List, [], ◌∷◌, ◌++◌, Bytes, codes, contains,
  if◌then◌else◌,
}
use mqtt_raspberry_controlle.Base.Int.{ℤ}
use mqtt_raspberry_controlle.Base.Result.{Result, ok, err, ◌>>=◌}
use mqtt_raspberry_controlle.Base.Space.{to_lower}
use mqtt_raspberry_controlle.Config.{Config}
use mqtt_raspberry_controlle.Config.Defaults.{mqtt_qos, mqtt_keep_alive, mqtt_connect_timeout}
use mqtt_raspberry_controlle.Config.Outside.{Outside}
use mqtt_raspberry_controlle.Config.Validation.{validate}
use mqtt_raspberry_controlle.Config.Validation.Errors.{ConfigError}
use mqtt_raspberry_controlle.Config.Validation.Files.{mqtt_password}
use mqtt_raspberry_controlle.Config.Validation.Broker.{broker_url, broker_log_address}
use mqtt_raspberry_controlle.Config.Validation.Tls.{TlsConfig, mqtt_tls_config}

-- A retained message that the broker sends when the connection is lost.
pub record Will : Type 0 where
  pub topic : Bytes
  pub payload : Bytes
  pub qos : ℕ
  pub retained : Bool

-- paho.ClientOptions, with times in nanoseconds.
pub record Options : Type 0 where
  pub broker : Bytes
  pub client_id : Bytes
  pub username : Bytes
  pub password : Bytes
  pub clean_session : Bool
  pub auto_reconnect : Bool
  pub connect_retry : Bool
  pub connect_timeout : ℤ
  pub keep_alive : ℤ
  pub ping_timeout : ℕ
  pub order_matters : Bool
  pub tls : Option TlsConfig
  pub will : Will

-- The cases of the switch in New.
unfoldable pub is_tls_scheme : Bytes → Bool
is_tls_scheme scheme =
    contains
      (codes "ssl"
        ∷ codes "tls"
        ∷ codes "mqtts"
        ∷ codes "mqtt+ssl"
        ∷ codes "tcps"
        ∷ codes "wss"
        ∷ [])
      scheme

module _ (o : Outside) (cfg : Config) where
  unfoldable pub tls_options : Bytes → Result ConfigError (Option TlsConfig)
  tls_options scheme =
      if is_tls_scheme scheme then (do tls ← mqtt_tls_config o cfg; ok (some tls)) else ok none

  unfoldable pub options_of : Bytes → Option TlsConfig → Options
  options_of password tls = record {
    broker = cfg.mqtt.broker;
    client_id = cfg.mqtt.client_id;
    username = cfg.mqtt.username;
    password = password;
    clean_session = true;
    auto_reconnect = true;
    connect_retry = false;
    connect_timeout = mqtt_connect_timeout o.parse_duration cfg;
    keep_alive = mqtt_keep_alive o.parse_duration cfg;
    ping_timeout = 10 * 10 ^ 9;
    order_matters = true;
    tls = tls;
    will = record {
      topic = cfg.mqtt.base_topic ++ codes "/status";
      payload = codes "offline";
      qos = mqtt_qos cfg;
      retained = true;
    };
  }

  unfoldable pub new : Result ConfigError Options
  new = do
    _ ← validate o cfg
    password ← mqtt_password o cfg
    _ ← broker_log_address o cfg
    u ← broker_url o cfg
    tls ← tls_options (to_lower u.scheme)
    ok (options_of password tls)
