-- ===== src/Config/Expansion/Fields/Leaves.antt =====
-- config/expansion.go: the walk over the broker, the device and a line.
use mqtt_raspberry_controlle.Base.{List, [], ◌∷◌, codes, ◌≡◌}
use mqtt_raspberry_controlle.Config.{Mqtt, Device, GpioOutput, GpioInput}
use mqtt_raspberry_controlle.Config.Expansion.{Lookup}
use mqtt_raspberry_controlle.Config.Expansion.Fields.{
  FieldPath, root, below, expand_mqtt, expand_device, expand_output, expand_input,
}
use mqtt_raspberry_controlle.Config.Expansion.Fields.Report.{
  Field, report, report-ok, report-field, expanded,
}

module _ (env : Lookup) where
  unfoldable pub mqtt_fields : Mqtt → List Field
  mqtt_fields m =
      (root (codes "mqtt.broker"), m.broker)
      ∷ (root (codes "mqtt.username"), m.username)
      ∷ (root (codes "mqtt.password"), m.password)
      ∷ (root (codes "mqtt.password_file"), m.password_file)
      ∷ (root (codes "mqtt.tls.ca_file"), m.tls.ca_file)
      ∷ (root (codes "mqtt.tls.cert_file"), m.tls.cert_file)
      ∷ (root (codes "mqtt.tls.key_file"), m.tls.key_file)
      ∷ (root (codes "mqtt.tls.server_name"), m.tls.server_name)
      ∷ (root (codes "mqtt.tls.min_version"), m.tls.min_version)
      ∷ (root (codes "mqtt.client_id"), m.client_id)
      ∷ (root (codes "mqtt.base_topic"), m.base_topic)
      ∷ (root (codes "mqtt.keep_alive"), m.keep_alive)
      ∷ (root (codes "mqtt.connect_timeout"), m.connect_timeout)
      ∷ (root (codes "mqtt.discovery.prefix"), m.discovery.prefix)
      ∷ (root (codes "mqtt.discovery.state_file"), m.discovery.state_file)
      ∷ []

  unfoldable pub mqtt_expanded : Mqtt → Mqtt
  mqtt_expanded m = record m {
    broker = expanded env m.broker;
    username = expanded env m.username;
    password = expanded env m.password;
    password_file = expanded env m.password_file;
    tls = record {
      ca_file = expanded env m.tls.ca_file;
      cert_file = expanded env m.tls.cert_file;
      key_file = expanded env m.tls.key_file;
      server_name = expanded env m.tls.server_name;
      min_version = expanded env m.tls.min_version;
    };
    client_id = expanded env m.client_id;
    base_topic = expanded env m.base_topic;
    keep_alive = expanded env m.keep_alive;
    connect_timeout = expanded env m.connect_timeout;
    discovery = record (m.discovery) {
      prefix = expanded env m.discovery.prefix;
      state_file = expanded env m.discovery.state_file;
    };
  }

  pub expand_mqtt-report :
      (m : Mqtt) → expand_mqtt env m ≡ report env (mqtt_fields m) (mqtt_expanded m)
  unfolding expand_mqtt mqtt_fields mqtt_expanded
  expand_mqtt-report m = search (report-field env, report-ok env) depth 17

  unfoldable pub device_fields : Device → List Field
  device_fields d =
      (root (codes "device.id"), d.id)
      ∷ (root (codes "device.name"), d.name)
      ∷ (root (codes "device.manufacturer"), d.manufacturer)
      ∷ (root (codes "device.model"), d.model)
      ∷ []

  unfoldable pub device_expanded : Device → Device
  device_expanded d = record {
    id = expanded env d.id;
    name = expanded env d.name;
    manufacturer = expanded env d.manufacturer;
    model = expanded env d.model;
  }

  pub expand_device-report :
      (d : Device) → expand_device env d ≡ report env (device_fields d) (device_expanded d)
  unfolding expand_device device_fields device_expanded
  expand_device-report d = search (report-field env, report-ok env)

  unfoldable pub output_fields : FieldPath → GpioOutput → List Field
  output_fields path output = (below path (codes "chip"), output.chip) ∷ []

  unfoldable pub output_expanded : GpioOutput → GpioOutput
  output_expanded output = record output { chip = expanded env output.chip }

  pub expand_output-report :
      (path : FieldPath) (output : GpioOutput)
      → expand_output env path output
        ≡ report env (output_fields path output) (output_expanded output)
  unfolding expand_output output_fields output_expanded
  expand_output-report path output = search (report-field env, report-ok env)

  unfoldable pub input_fields : FieldPath → GpioInput → List Field
  input_fields path input =
      (below path (codes "chip"), input.chip)
      ∷ (below path (codes "bias"), input.bias)
      ∷ (below path (codes "debounce"), input.debounce)
      ∷ []

  unfoldable pub input_expanded : GpioInput → GpioInput
  input_expanded input = record input {
    chip = expanded env input.chip;
    bias = expanded env input.bias;
    debounce = expanded env input.debounce;
  }

  pub expand_input-report :
      (path : FieldPath) (input : GpioInput)
      → expand_input env path input ≡ report env (input_fields path input) (input_expanded input)
  unfolding expand_input input_fields input_expanded
  expand_input-report path input = search (report-field env, report-ok env)
