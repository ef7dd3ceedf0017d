-- ===== src/Tests/Mqtt.antt =====
-- The MQTT client at a broker that takes everything.
use mqtt_raspberry_controlle.Base.{
  ℕ, suc, Bool, true, false, none, List, [], ◌∷◌, Bytes, codes, length, same, contains, ◌≡◌, ◌⊎◌,
  refl, arith,
}
use mqtt_raspberry_controlle.Base.Result.{ok}
use mqtt_raspberry_controlle.Base.Space.{to_lower}
use mqtt_raspberry_controlle.Config.Defaults.{mqtt_qos}
use mqtt_raspberry_controlle.Config.Outside.{Url}
use mqtt_raspberry_controlle.Config.Validation.Files.{mqtt_password}
use mqtt_raspberry_controlle.Config.Validation.Broker.{is_secure, broker_url}
use mqtt_raspberry_controlle.Config.Validation.Broker.Security.{Secured}
use mqtt_raspberry_controlle.Mqtt.Log.{Limiter, printf, record_overflow, record_rejection}
use mqtt_raspberry_controlle.Mqtt.Log.Accounting.{Accounted, run_limit, log_lines-Accounted}
use mqtt_raspberry_controlle.Mqtt.Transport.{Transport, finished}
use mqtt_raspberry_controlle.Mqtt.New.{Options, new}
use mqtt_raspberry_controlle.Mqtt.New.Security.{TlsFits, new-Secured}
use mqtt_raspberry_controlle.Mqtt.Client.{
  idle_client, close, begin_callback, end_callback, stop_accepting, handle_connect, publish,
  publish_with_timeout, client_status_topic,
}
use mqtt_raspberry_controlle.Mqtt.Client.Callbacks.{
  System, Steps, begins, works, ends, closes, waited, done, then_step, initial, begin, end,
  enter_close, quiet, is_quiet, no_work_after_wait,
}
use mqtt_raspberry_controlle.Mqtt.Client.Closing.{SaidGoodbye, close_success}
use mqtt_raspberry_controlle.Controller.Register.{Callbacks, register}
use mqtt_raspberry_controlle.Controller.Register.Topics.{command_topic, command_topics}
use mqtt_raspberry_controlle.Controller.Register.Order.{subscribe_each, register_connect}
use mqtt_raspberry_controlle.Tests.Validation.{outside}
use mqtt_raspberry_controlle.Tests.Configured.{home, home_passes}

-- The state is the list of what was done, the last first; each publication takes a second.
abbrev pub transport : Bool → Transport (List Bytes)
transport online = record {
  connect = λ s. (none, s);
  is_connected = λ s. online;
  publish = λ topic payload qos retain timeout s. (finished none, topic ∷ s);
  subscribe = λ topic qos timeout s. (finished none, topic ∷ s);
  disconnect = λ quiesce s. codes "disconnect" ∷ s;
  now = λ s. length s;
  wait_callbacks = λ deadline s. (true, s);
}

close_success_example :
    let (_, c', s') = close (transport true) home 10000000000 idle_client [] in
    (c'.accepting ≡ false)
    × (true ≡ true)
    × (((true ≡ false) × (s' ≡ [])) ⊎ SaidGoodbye (transport true) home 10000000000 [] s')
unfolding close publish_with_timeout idle_client
close_success_example = close_success (transport true) home 10000000000 idle_client [] refl

-- One callback begins, works and ends while Close begins.
abbrev busy : System (List Bytes)
busy = enter_close (begin initial)

abbrev ended : System (List Bytes)
ended = end (record busy { work = suc (busy.work) })

abbrev closed : System (List Bytes)
closed = record ended { phase = quiet }

to_closed : Steps initial closed
unfolding initial begin end enter_close begin_callback end_callback stop_accepting idle_client
to_closed =
    then_step initial ended closed
      (then_step initial (record busy { work = suc (busy.work) }) ended
        (then_step initial busy (record busy { work = suc (busy.work) })
          (then_step initial (begin initial) busy
            (then_step initial initial (begin initial) (done initial) (begins initial))
            (closes (begin initial)))
          (works busy (ground arith)))
        (ends (record busy { work = suc (busy.work) }) (ground arith)))
      (waited ended refl refl)

no_work_after_wait_example :
    ((begin closed).running ≡ 0)
    × ((begin closed).client.callbacks ≡ 0)
    × ((begin closed).work ≡ closed.work)
unfolding is_quiet
no_work_after_wait_example =
    no_work_after_wait closed (begin closed) to_closed refl
      (then_step closed closed (begin closed) (done closed) (begins closed))

abbrev calls : Callbacks (List Bytes)
calls = record {
  begin = λ s. (true, s);
  finish = λ s. s;
  enqueue_switch = λ entity m s. m.topic ∷ s;
  enqueue_button = λ entity m s. m.topic ∷ s;
  reset_dedupe = λ s. codes "reset" ∷ s;
  publish_discovery = λ s. (true, codes "discovery" ∷ s);
  publish_all_states = λ s. codes "states" ∷ s;
}

register_connect_example :
    let (e, c, s1) = register calls (transport false) home idle_client [] in
    (e ≡ none)
    × (s1 ≡ [])
    × ((handle_connect (transport false) home c []).1
        ≡ codes "states"
          ∷ codes "discovery"
          ∷ (publish
              (transport false)
              home
              (client_status_topic (transport false) home)
              (codes "online")
              (mqtt_qos home)
              true
              (subscribe_each calls
                (transport false)
                home
                (command_topics home home.entities)
                (codes "reset" ∷ []))).1)
unfolding command_topics command_topic contains same
register_connect_example =
    register_connect calls (transport false) home outside [] [] home_passes refl

abbrev fresh_limiter : Limiter
fresh_limiter = record { count = 0; last = none }

abbrev times : List ℕ
times = 5 ∷ 6 ∷ 2000000000 ∷ []

log_lines-Accounted_example :
    Accounted 1 3 fresh_limiter (run_limit printf times fresh_limiter)
    × Accounted 0 3 fresh_limiter (run_limit record_overflow times fresh_limiter)
    × Accounted 1 3 fresh_limiter (run_limit record_rejection times fresh_limiter)
log_lines-Accounted_example = log_lines-Accounted times fresh_limiter (ground arith)

new-Secured_example :
    (options : Options) × (u : Url) × (broker_url outside home ≡ ok u)
    × (new outside home ≡ ok options)
    × (mqtt_password outside home ≡ ok options.password)
    × TlsFits outside home (is_secure (to_lower u.scheme)) options.tls
    × Secured outside home u (is_secure (to_lower u.scheme))
new-Secured_example = new-Secured outside home home_passes
