-- ===== src/Service/Wiring.antt =====
-- cmd/mqtt-raspberry-controller/main.go: how `run` puts the components together. The executor and the
-- controller act on the manager of the lines and on the client, whose states make up that of the home.
pub mod Switching
use mqtt_raspberry_controlle.Base.{ℕ, Bool, true, false, Option, none, some, List, Bytes, codes}
use mqtt_raspberry_controlle.Base.Result.{Result, ok, err}
use mqtt_raspberry_controlle.Config.{Config, Action}
use mqtt_raspberry_controlle.Action.Sequence.{Targets, Outcome, completed, execute}
use mqtt_raspberry_controlle.Controller.Handlers.{Services}
use mqtt_raspberry_controlle.Gpio.Lines.{Library}
use mqtt_raspberry_controlle.Gpio.{Manager, GpioError, set_output, output_state, input_state}
use mqtt_raspberry_controlle.Mqtt.Transport.{Transport}
use mqtt_raspberry_controlle.Mqtt.Client.{ClientError, publish}
use mqtt_raspberry_controlle.Mqtt.Log.{Limiter, record_rejection}

-- `stopping` is whether the context is done; `rejected` is the controller's rejectedLog, and `now` the
-- time that it asks for.
pub record Home (L H T : Type 0) : Type 0 where
  pub manager : Manager L
  pub hardware : H
  pub network : T
  pub stopping : Bool
  pub rejected : Limiter
  pub now : ℕ

-- What an error of a component says is passed on; here it is the text of its kind.
unfoldable pub gpio_error : Result GpioError (Unit {0}) → Option Bytes
gpio_error (ok _) = none
gpio_error (err _) = some (codes "gpio")

unfoldable pub client_error : Option ClientError → Option Bytes
client_error none = none
client_error (some _) = some (codes "mqtt")

unfoldable pub is_completed : Outcome → Bool
is_completed completed = true
is_completed _ = false

unfoldable pub read_state : Result GpioError Bool → Option Bool
read_state (ok state) = some state
read_state (err _) = none

unfoldable pub succeeds : Option ClientError → Bool
succeeds none = true
succeeds (some _) = false

-- `run_command` and `delay` are those of the executor.
module _ {C L H T : Type 0} (library : Library C L H) (transport : Transport T) (cfg : Config)
    (run_command : Action → Home L H T → Option Bytes × Home L H T)
    (delay : Bytes → Home L H T → Option Bytes × Home L H T) where
  -- action.New(cfg, gpioManager, mqttClient)
  unfoldable pub executor_targets : Targets (Home L H T)
  unfolding gpio_error client_error
  executor_targets = record {
    is_done = λ s. s.stopping;
    set_output = λ name state s.
        let (result, hw) = set_output library name state s.manager s.hardware in
        (gpio_error result, record s { hardware = hw });
    publish = λ topic payload qos retain s.
        let (e, t) = publish transport cfg topic payload qos retain s.network in
        (client_error e, record s { network = t });
    run_command = run_command;
    delay = delay;
  }

  -- controller.New(ctx, cfg, gpioManager, mqttClient, actionExecutor)
  unfoldable pub controller_services : Services (Home L H T)
  unfolding executor_targets is_completed read_state succeeds
  controller_services = record {
    execute = λ actions s.
        let (outcome, s1) = execute executor_targets cfg actions s in (is_completed outcome, s1);
    output_state = λ name s.
        let (result, hw) = output_state library name s.manager s.hardware in
        (read_state result, record s { hardware = hw });
    input_state = λ name s.
        let (result, hw) = input_state library name s.manager s.hardware in
        (read_state result, record s { hardware = hw });
    publish = λ topic payload qos retain s.
        let (e, t) = publish transport cfg topic payload qos retain s.network in
        (succeeds e, record s { network = t });
    record_rejection = λ s. record s { rejected = (record_rejection s.now s.rejected).1 };
  }
