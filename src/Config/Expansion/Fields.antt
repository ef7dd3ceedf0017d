-- ===== src/Config/Expansion/Fields.antt =====
-- config/expansion.go: which fields of the configuration are expanded, and in which order. The source
-- overwrites the fields in place; on an error `Load` drops the configuration, so here it is a result.
pub mod Report
pub mod Items
pub mod Leaves
pub mod Actions
pub mod Walk
use mqtt_raspberry_controlle.Base.{
  ℕ, ◌+◌, Option, none, some, List, [], ◌∷◌, Bytes, codes, is_empty, if◌then◌else◌, sort_strings,
}
use mqtt_raspberry_controlle.Base.Dict.{Dict, keys, lookup, insert}
use mqtt_raspberry_controlle.Base.Result.{Result, ok, err, ◌>>=◌}
use mqtt_raspberry_controlle.Config.{Config, Mqtt, Device, GpioOutput, GpioInput, Entity, Action}
use mqtt_raspberry_controlle.Config.Expansion.{Lookup, expand_value}

-- The path of a field, which error messages print: `below p name` is p.name, `key p k` is p[k] with
-- the key quoted, and `index p i` is p[i].
pub data FieldPath : Type 0 where
  root : Bytes → FieldPath
  below : FieldPath → Bytes → FieldPath
  key : FieldPath → Bytes → FieldPath
  index : FieldPath → ℕ → FieldPath

-- expand config field PATH: missing environment variable NAME
pub data ExpandError : Type 0 where
  missing_variable : FieldPath → Bytes → ExpandError

abbrev pub Expands : Type 0 → Type 0
Expands A = Result ExpandError A

-- for _, name := range sortedKeys(m) { v := m[name]; …; m[name] = v }
module _ {V : Type 0} (expand : FieldPath → V → Expands V) (path : FieldPath) where
  unfoldable pub expand_entry : Bytes → Option V → Dict V → Expands (Dict V)
  expand_entry name none m = ok m
  expand_entry name (some v) m = do v' ← expand (key path name) v; ok (insert name v' m)

  unfoldable pub expand_names : List Bytes → Dict V → Expands (Dict V)
  unfolding expand_entry
  expand_names [] m = ok m
  expand_names (name ∷ names) m = do m' ← expand_entry name (lookup name m) m; expand_names names m'

  -- for i := range list { … &list[i] … }
  unfoldable pub expand_list : ℕ → List V → Expands (List V)
  expand_list i [] = ok []
  expand_list i (v ∷ vs) = do
    v' ← expand (index path i) v
    vs' ← expand_list (i + 1) vs
    ok (v' ∷ vs')

unfoldable pub expand_map :
    {V : Type 0} → (FieldPath → V → Expands V) → FieldPath → Dict V → Expands (Dict V)
unfolding expand_names
expand_map expand path m = expand_names expand path (sort_strings (keys m)) m

module _ (env : Lookup) where
  unfoldable pub expand_field : FieldPath → Bytes → Expands Bytes
  expand_field path value =
      let (expanded, missing) = expand_value env value in
      if is_empty missing then ok expanded else err (missing_variable path missing)

  unfoldable pub expand_mqtt : Mqtt → Expands Mqtt
  expand_mqtt m = do
    broker ← expand_field (root (codes "mqtt.broker")) m.broker
    username ← expand_field (root (codes "mqtt.username")) m.username
    password ← expand_field (root (codes "mqtt.password")) m.password
    password_file ← expand_field (root (codes "mqtt.password_file")) m.password_file
    ca_file ← expand_field (root (codes "mqtt.tls.ca_file")) m.tls.ca_file
    cert_file ← expand_field (root (codes "mqtt.tls.cert_file")) m.tls.cert_file
    key_file ← expand_field (root (codes "mqtt.tls.key_file")) m.tls.key_file
    server_name ← expand_field (root (codes "mqtt.tls.server_name")) m.tls.server_name
    min_version ← expand_field (root (codes "mqtt.tls.min_version")) m.tls.min_version
    client_id ← expand_field (root (codes "mqtt.client_id")) m.client_id
    base_topic ← expand_field (root (codes "mqtt.base_topic")) m.base_topic
    keep_alive ← expand_field (root (codes "mqtt.keep_alive")) m.keep_alive
    connect_timeout ← expand_field (root (codes "mqtt.connect_timeout")) m.connect_timeout
    prefix ← expand_field (root (codes "mqtt.discovery.prefix")) m.discovery.prefix
    state_file ← expand_field (root (codes "mqtt.discovery.state_file")) m.discovery.state_file
    ok (record m {
      broker = broker;
      username = username;
      password = password;
      password_file = password_file;
      tls = record {
        ca_file = ca_file;
        cert_file = cert_file;
        key_file = key_file;
        server_name = server_name;
        min_version = min_version;
      };
      client_id = client_id;
      base_topic = base_topic;
      keep_alive = keep_alive;
      connect_timeout = connect_timeout;
      discovery = record (m.discovery) { prefix = prefix; state_file = state_file };
    })

  unfoldable pub expand_device : Device → Expands Device
  expand_device d = do
    id ← expand_field (root (codes "device.id")) d.id
    name ← expand_field (root (codes "device.name")) d.name
    manufacturer ← expand_field (root (codes "device.manufacturer")) d.manufacturer
    model ← expand_field (root (codes "device.model")) d.model
    ok (record { id = id; name = name; manufacturer = manufacturer; model = model })

  unfoldable pub expand_output : FieldPath → GpioOutput → Expands GpioOutput
  expand_output path output = do
    chip ← expand_field (below path (codes "chip")) output.chip
    ok (record output { chip = chip })

  unfoldable pub expand_input : FieldPath → GpioInput → Expands GpioInput
  expand_input path input = do
    chip ← expand_field (below path (codes "chip")) input.chip
    bias ← expand_field (below path (codes "bias")) input.bias
    debounce ← expand_field (below path (codes "debounce")) input.debounce
    ok (record input { chip = chip; bias = bias; debounce = debounce })

  unfoldable pub expand_action : FieldPath → Action → Expands Action
  unfolding expand_map expand_list
  expand_action path a = do
    kind ← expand_field (below path (codes "type")) a.kind
    gpio ← expand_field (below path (codes "gpio")) a.gpio
    command ← expand_field (below path (codes "command")) a.command
    args ← expand_list expand_field (below path (codes "args")) 0 a.args
    working_dir ← expand_field (below path (codes "working_dir")) a.working_dir
    env_values ← expand_map expand_field (below path (codes "env")) a.env
    timeout ← expand_field (below path (codes "timeout")) a.timeout
    duration ← expand_field (below path (codes "duration")) a.duration
    topic ← expand_field (below path (codes "topic")) a.topic
    payload ← expand_field (below path (codes "payload")) a.payload
    ok (record a {
      kind = kind;
      gpio = gpio;
      command = command;
      args = args;
      working_dir = working_dir;
      env = env_values;
      timeout = timeout;
      duration = duration;
      topic = topic;
      payload = payload;
    })

  unfoldable pub expand_entity : FieldPath → Entity → Expands Entity
  unfolding expand_action expand_list
  expand_entity path e = do
    id ← expand_field (below path (codes "id")) e.id
    kind ← expand_field (below path (codes "type")) e.kind
    name ← expand_field (below path (codes "name")) e.name
    icon ← expand_field (below path (codes "icon")) e.icon
    device_class ← expand_field (below path (codes "device_class")) e.device_class
    state_kind ← expand_field (below path (codes "state.type")) e.state.kind
    state_gpio ← expand_field (below path (codes "state.gpio")) e.state.gpio
    source_kind ← expand_field (below path (codes "source.type")) e.source.kind
    source_gpio ← expand_field (below path (codes "source.gpio")) e.source.gpio
    on ← expand_list expand_action (below path (codes "on")) 0 e.on
    off ← expand_list expand_action (below path (codes "off")) 0 e.off
    press ← expand_list expand_action (below path (codes "press")) 0 e.press
    ok (record e {
      id = id;
      kind = kind;
      name = name;
      icon = icon;
      device_class = device_class;
      state = record { kind = state_kind; gpio = state_gpio };
      source = record { kind = source_kind; gpio = source_gpio };
      on = on;
      off = off;
      press = press;
    })

  unfoldable pub expand_environment : Config → Expands Config
  unfolding expand_mqtt expand_device expand_output expand_input expand_map expand_list
      expand_entity
  expand_environment c = do
    mqtt ← expand_mqtt c.mqtt
    device ← expand_device c.device
    outputs ← expand_map expand_output (root (codes "gpio.outputs")) c.gpio.outputs
    inputs ← expand_map expand_input (root (codes "gpio.inputs")) c.gpio.inputs
    entities ← expand_list expand_entity (root (codes "entities")) 0 c.entities
    ok (record {
      mqtt = mqtt;
      device = device;
      gpio = record { outputs = outputs; inputs = inputs };
      entities = entities;
    })
