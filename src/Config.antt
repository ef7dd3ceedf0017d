-- ===== src/Config.antt =====
-- config/config.go: the configuration as the YAML decoder leaves it. Each struct is a record; a
-- pointer that may be nil is an `Option`, and a map is an association list in iteration order.
pub mod Expansion
pub mod Defaults
pub mod Paths
pub mod Outside
pub mod Validation
pub mod Loading
use mqtt_raspberry_controlle.Base.{ℕ, Bool, Option, List, Bytes}
use mqtt_raspberry_controlle.Base.Int.{ℤ}
use mqtt_raspberry_controlle.Base.Dict.{Dict}

pub record Tls : Type 0 where
  pub ca_file : Bytes
  pub cert_file : Bytes
  pub key_file : Bytes
  pub server_name : Bytes
  pub min_version : Bytes

pub record Discovery : Type 0 where
  pub enabled : Option Bool
  pub prefix : Bytes
  pub state_file : Bytes

pub record Mqtt : Type 0 where
  pub broker : Bytes
  pub username : Bytes
  pub password : Bytes
  pub password_file : Bytes
  pub allow_unauthenticated : Bool
  pub allow_insecure_transport : Bool
  pub tls : Tls
  pub client_id : Bytes
  pub base_topic : Bytes
  pub qos : Option ℕ
  pub keep_alive : Bytes
  pub connect_timeout : Bytes
  pub discovery : Discovery

pub record Device : Type 0 where
  pub id : Bytes
  pub name : Bytes
  pub manufacturer : Bytes
  pub model : Bytes

pub record GpioOutput : Type 0 where
  pub chip : Bytes
  pub line : ℤ
  pub active_low : Bool
  pub initial : Bool

pub record GpioInput : Type 0 where
  pub chip : Bytes
  pub line : ℤ
  pub active_low : Bool
  pub bias : Bytes
  pub debounce : Bytes

pub record Gpio : Type 0 where
  pub outputs : Dict GpioOutput
  pub inputs : Dict GpioInput

-- `type` is the source's name of the field `kind`, here and in the records below.
pub record Action : Type 0 where
  pub kind : Bytes
  pub gpio : Bytes
  pub value : Option Bool
  pub command : Bytes
  pub args : List Bytes
  pub working_dir : Bytes
  pub env : Dict Bytes
  pub timeout : Bytes
  pub duration : Bytes
  pub topic : Bytes
  pub payload : Bytes
  pub qos : Option ℕ
  pub retain : Bool
  pub ignore_error : Bool

-- StateConfig and SourceConfig
pub record Line : Type 0 where
  pub kind : Bytes
  pub gpio : Bytes

pub record Entity : Type 0 where
  pub id : Bytes
  pub kind : Bytes
  pub name : Bytes
  pub icon : Bytes
  pub device_class : Bytes
  pub initial_state : Option Bool
  pub state : Line
  pub source : Line
  pub on : List Action
  pub off : List Action
  pub press : List Action

pub record Config : Type 0 where
  pub mqtt : Mqtt
  pub device : Device
  pub gpio : Gpio
  pub entities : List Entity
