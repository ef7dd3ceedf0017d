-- ===== src/Tests/Config.antt =====
-- The expansion and the defaults at concrete values.
use mqtt_raspberry_controlle.Base.{
  true, false, none, some, List, [], ◌∷◌, codes, same, if◌then◌else◌, ◌≡◌,
}
use mqtt_raspberry_controlle.Base.Int.{pos}
use mqtt_raspberry_controlle.Config.{Config}
use mqtt_raspberry_controlle.Config.Expansion.{Lookup, expand_value}
use mqtt_raspberry_controlle.Config.Expansion.Tokens.{Token, IsReading, spell_all, meaning}
use mqtt_raspberry_controlle.Config.Expansion.Reading.{
  expand_value_total, quote, expand_value-quote,
}

abbrev pub environment : Lookup
environment name = if same name (codes "HOST") then some (codes "$broker") else none

expand_value_total_example :
    (ts : List Token) × IsReading ts
    × (spell_all ts ≡ codes "tcp://${HOST}:$${PORT}$")
    × (expand_value environment (codes "tcp://${HOST}:$${PORT}$") ≡ meaning environment ts [])
expand_value_total_example = expand_value_total environment (codes "tcp://${HOST}:$${PORT}$")

expand_value-quote_example :
    expand_value environment (quote (codes "a${HOST}")) ≡ (codes "a${HOST}", [])
expand_value-quote_example = expand_value-quote environment (codes "a${HOST}")

abbrev pub minimal : Config
minimal = record {
  mqtt = record {
    broker = codes "tcp://localhost:1883";
    username = [];
    password = [];
    password_file = [];
    allow_unauthenticated = true;
    allow_insecure_transport = false;
    tls = record {
      ca_file = [];
      cert_file = [];
      key_file = [];
      server_name = [];
      min_version = [];
    };
    client_id = [];
    base_topic = codes "/home/";
    qos = none;
    keep_alive = [];
    connect_timeout = [];
    discovery = record { enabled = none; prefix = []; state_file = [] };
  };
  device = record { id = codes "pi"; name = codes "Pi"; manufacturer = []; model = [] };
  gpio = record {
    outputs =
        (codes "lamp", record { chip = []; line = pos 17; active_low = false; initial = false })
        ∷ [];
    inputs = [];
  };
  entities = [];
}
