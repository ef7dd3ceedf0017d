-- ===== src/Tests/Validation.antt =====
-- config/validation.go at a small configuration.
use mathlib.Core.List.{Permᴰ}
use mathlib.Core.List.Permᴰ
use mathlib.Core.Quot
use mqtt_raspberry_controlle.Base.{
  take, drop, ◌++◌, ◌≤◌, true, false, none, some, [], ◌∷◌, Bytes, codes, same, is_empty, contains,
  contains_any, length, contains_byte, ◌≡◌, refl,
}
use mqtt_raspberry_controlle.Base.Dict.{has}
use mqtt_raspberry_controlle.Base.Int.{pos}
use mqtt_raspberry_controlle.Base.Result.{ok}
use mqtt_raspberry_controlle.Base.Space.{trim_space, to_lower, fold_case}
use mqtt_raspberry_controlle.Base.Checks.{Passed, fail_if, first_error}
use mqtt_raspberry_controlle.Config.{Config, Gpio}
use mqtt_raspberry_controlle.Config.Outside.{Outside, Url, FileInfo}
use mqtt_raspberry_controlle.Config.Validation.Names.{
  id_pattern, match_pattern, match_rest, in_class, optional_duration,
}
use mqtt_raspberry_controlle.Config.Validation.Files.{
  is_private, read_bounded_regular_file, max_credential_file_size, mqtt_password, trim_newline,
}
use mqtt_raspberry_controlle.Config.Validation.Files.Bounds.{Readable, mqtt_password_usable}
use mqtt_raspberry_controlle.Config.Validation.Broker.{
  is_secure, is_network, bad_port, broker_url, is_literal_loopback, network_check, scheme_check,
  url_check, has_password, has_cert, has_tls_option, differ, credentials_check, validate_mqtt,
}
use mqtt_raspberry_controlle.Config.Validation.Broker.Security.{Secured, validate_mqtt-Secured}
use mqtt_raspberry_controlle.Config.Validation.Lines.{
  check_output, check_input, check_outputs, check_inputs, is_used, output_key, input_key, same_line,
  same_number, is_bias, validate_gpio,
}
use mqtt_raspberry_controlle.Config.Validation.Lines.Distinct.{
  output_lines, input_lines, AllDistinct, validate_gpio-AllDistinct,
}
use mqtt_raspberry_controlle.Config.Validation.Lines.Accepting.{passes}
use mqtt_raspberry_controlle.Config.Validation.Lines.Order.{Reordered, validate_gpio_order}
use mqtt_raspberry_controlle.Config.Validation.Actions.{
  validate_actions_from, validate_actions, validate_action, gpio_check, is_nil,
}
use mqtt_raspberry_controlle.Action.Sequence.{execute}
use mqtt_raspberry_controlle.Action.Sequence.Validated.{is_regular_outcome, execute_regular}
use mqtt_raspberry_controlle.Tests.Config.{minimal}
use mqtt_raspberry_controlle.Tests.Action.{targets, switch_gpio}
use mqtt_raspberry_controlle.Tests.Gpio.{output, door, board}

abbrev local_broker : Url
local_broker = record {
  scheme = codes "tcp";
  has_user = false;
  host = codes "localhost:1883";
  hostname = codes "localhost";
  port = codes "1883";
  path = [];
  raw_path = [];
  raw_query = [];
  force_query = false;
  fragment = [];
}

abbrev private_file : FileInfo
private_file = record {
  is_regular = true;
  is_dir = false;
  permissions = 384;
  special = false;
  size = 4;
}

abbrev pub outside : Outside
outside = record {
  parse_duration = λ raw. some (pos 1000);
  parse_url = λ raw. some local_broker;
  parse_ip = λ host. none;
  stat = λ path. some private_file;
  open_file = λ path. some (record { info = some private_file; content = some (codes "key\n") });
  append_certs = λ pem. true;
  key_pair = λ cert key. true;
}

abbrev gpio : Gpio
gpio = record {
  outputs = (codes "relay", output 17) ∷ (codes "lamp", output 4) ∷ [];
  inputs = (codes "door", door) ∷ [];
}

gpio_passes : Passed (validate_gpio outside gpio)
unfolding validate_gpio check_outputs check_inputs check_output check_input is_used output_key
    input_key same_line same_number is_bias optional_duration id_pattern match_pattern match_rest
    in_class same is_empty contains fail_if first_error
gpio_passes = refl

validate_gpio-AllDistinct_example :
    AllDistinct (input_lines gpio.inputs (output_lines gpio.outputs []))
validate_gpio-AllDistinct_example = validate_gpio-AllDistinct outside gpio gpio_passes

mqtt_passes : validate_mqtt outside minimal ≡ ok false
unfolding validate_mqtt broker_url url_check scheme_check network_check credentials_check is_secure
    is_network bad_port is_literal_loopback has_password has_cert has_tls_option differ trim_space
    to_lower fold_case same is_empty contains contains_any fail_if first_error
mqtt_passes = refl

validate_mqtt-Secured_example :
    (u : Url) × (outside.parse_url minimal.mqtt.broker ≡ some u) × Secured outside minimal u false
validate_mqtt-Secured_example = validate_mqtt-Secured outside minimal false mqtt_passes

file_passes : read_bounded_regular_file outside (codes "/key") 16 true ≡ ok (codes "key\n")
unfolding read_bounded_regular_file is_private fail_if first_error
file_passes = refl

abbrev with_password : Config
with_password = record minimal {
  mqtt = record (minimal.mqtt) { password_file = codes "/key"; username = codes "pi" };
}

password_passes : mqtt_password outside with_password ≡ ok (codes "key")
unfolding mqtt_password read_bounded_regular_file is_private trim_newline contains_byte fail_if
    first_error is_empty
password_passes = refl

mqtt_password_usable_example :
    (is_empty (codes "key") ≡ false)
    × (contains_byte (codes "key") 0 ≡ false)
    × ((b : Bytes) × (trim_newline b ≡ codes "key")
        × (length b ≤ max_credential_file_size)
        × Readable outside (codes "/key") true b)
unfolding is_empty
mqtt_password_usable_example =
    mqtt_password_usable outside with_password (codes "key") refl password_passes

actions_pass :
    Passed (validate_actions outside minimal (codes "lamp.on") (switch_gpio (codes "lamp") ∷ []))
unfolding validate_actions validate_actions_from validate_action gpio_check is_nil has same fail_if
    first_error
actions_pass = refl

execute_regular_example :
    is_regular_outcome (execute targets minimal (switch_gpio (codes "lamp") ∷ []) []).0 ≡ true
execute_regular_example =
    execute_regular targets outside minimal (codes "lamp.on") (switch_gpio (codes "lamp") ∷ []) []
      actions_pass

-- The board's two outputs in the other order.
abbrev board_again : Gpio
board_again = record board { outputs = drop 1 board.outputs ++ take 1 board.outputs }

validate_gpio_order_example :
    passes (validate_gpio outside board) ≡ passes (validate_gpio outside board_again)
unfolding Reordered
validate_gpio_order_example =
    validate_gpio_order outside board board_again
      (Quot.sound (Permᴰ.swap refl refl, Permᴰ.refl board.inputs))
