-- ===== src/Service/Interleaving.antt =====
-- cmd/mqtt-raspberry-controller/main.go: `shutdownService` on the whole process. While it runs, the
-- controller's workers and callbacks and the client's callbacks go on; a schedule says in which order.
pub mod Invariants
mod Waits
pub mod Orderly
mod Leaving
pub mod Progress
use mqtt_raspberry_controlle.Base.{
  ℕ, Bool, true, false, not, ◌&&◌, ◌||◌, ◌==◌, List, [], ◌∷◌, Bytes, if◌then◌else◌,
}
use mqtt_raspberry_controlle.Base.Result.{Result, ok, err}
use mqtt_raspberry_controlle.Config.{Config}
use mqtt_raspberry_controlle.Controller.Shutdown.{
  Activity, started, begin_activity, end_activity, end_worker, shut_down_once,
}
use mqtt_raspberry_controlle.Gpio.Lines.{Library}
use mqtt_raspberry_controlle.Gpio.{Manager, set_output, output_state, close}
use mqtt_raspberry_controlle.Mqtt.Client.{stop_accepting}
use mqtt_raspberry_controlle.Mqtt.Client.Callbacks.{
  System, quiet, given_up, begin, end, enter_close, initial,
}
use mqtt_raspberry_controlle.Service.{Parts, ShutdownError, shutdown_service}

-- `met` holds the manager as each use of a line found it, the latest first.
pub record Process (K L H : Type 0) : Type 0 where
  pub activity : Activity
  pub client : System K
  pub manager : Manager L
  pub hardware : H
  pub met : List (Manager L)

-- What a worker or a callback does with a line.
pub data Use : Type 0 where
  sets : Bytes → Bool → Use
  reads : Bytes → Use

-- What happens outside `shutdownService`. `all_done` is the goroutine of Shutdown behind c.wg.Wait().
pub data Event : Type 0 where
  controller_begins controller_ends worker_stops : Event
  signal_comes all_done : Event
  client_begins client_ends : Event
  uses : Use → Event

-- A turn of `shutdownService`, its timer, a broker that does not take the offline status, or another event.
pub data Turn : Type 0 where
  goes_on timer_fires offline_fails : Turn
  meanwhile : Event → Turn

-- The process, and the schedule of what is still to come.
pub record Run (K L H : Type 0) : Type 0 where
  pub process : Process K L H
  pub schedule : List Turn

unfoldable pub announce_end : Activity → Activity
announce_end s = if s.once && s.count == 0 then record s { ended = true } else s

released : {E : Type 0} → Result E (Unit {0}) → Bool
released (ok _) = true
released (err _) = false

module _ {K L H : Type 0} where
  unfoldable pub nobody_runs : Process K L H → Bool
  nobody_runs p = p.activity.workers == 0 && p.activity.callbacks == 0 && p.client.running == 0

  -- Behind the making of controller and client, with the lines opened.
  unfoldable pub serving : Config → Manager L → H → Process K L H
  serving cfg m hw = record {
    activity = started cfg;
    client = initial;
    manager = m;
    hardware = hw;
    met = [];
  }

module _ {C K L H : Type 0} (library : Library C L H) where
  use_line : Use → Process K L H → Process K L H
  use_line (sets name state) p = record p {
    hardware = (set_output library name state p.manager p.hardware).1;
    met = p.manager ∷ p.met;
  }
  use_line (reads name) p = record p {
    hardware = (output_state library name p.manager p.hardware).1;
    met = p.manager ∷ p.met;
  }

  -- An event that cannot happen now changes nothing.
  unfoldable pub happen : Event → Process K L H → Process K L H
  unfolding use_line announce_end nobody_runs
  happen controller_begins p = record p { activity = begin_activity p.activity }
  happen controller_ends p =
      if p.activity.callbacks == 0 then p else record p { activity = end_activity p.activity }
  happen worker_stops p =
      if p.activity.workers == 0 || not p.activity.cancelled
      then p
      else record p { activity = end_worker p.activity }
  happen signal_comes p = record p { activity = record p.activity { cancelled = true } }
  happen all_done p = record p { activity = announce_end p.activity }
  happen client_begins p = record p { client = begin p.client }
  happen client_ends p = if p.client.running == 0 then p else record p { client = end p.client }
  happen (uses u) p = if nobody_runs p then p else use_line u p

  unfoldable pub play : List Turn → Process K L H → Process K L H
  unfolding happen
  play [] p = p
  play (meanwhile e ∷ turns) p = play turns (happen e p)
  play (goes_on ∷ turns) p = play turns p
  play (timer_fires ∷ turns) p = play turns p
  play (offline_fails ∷ turns) p = play turns p

  -- The select of Shutdown. The timer fires at the latest where the schedule ends.
  unfoldable pub await_end : List Turn → Process K L H → Bool × Run K L H
  unfolding happen
  await_end [] p = (false, record { process = p; schedule = [] })
  await_end (goes_on ∷ turns) p =
      let later = await_end turns p in
      if p.activity.ended then (true, record { process = p; schedule = turns }) else later
  await_end (timer_fires ∷ turns) p = (false, record { process = p; schedule = turns })
  await_end (offline_fails ∷ turns) p = await_end turns p
  await_end (meanwhile e ∷ turns) p = await_end turns (happen e p)

  -- The wait of Close, and what it does behind it.
  unfoldable pub await_callbacks : List Turn → Process K L H → Bool × Run K L H
  unfolding happen
  await_callbacks [] p = (
    false,
    record { process = record p { client = record p.client { phase = given_up } }; schedule = [] },
  )
  await_callbacks (timer_fires ∷ turns) p = (
    false,
    record {
      process = record p { client = record p.client { phase = given_up } };
      schedule = turns;
    },
  )
  await_callbacks (goes_on ∷ turns) p =
      let later = await_callbacks turns p in
      if p.client.client.callbacks == 0
      then (
        true,
        record {
          process = record p { client = record p.client { phase = quiet } };
          schedule = turns;
        },
      )
      else later
  await_callbacks (offline_fails ∷ turns) p =
      let later = await_callbacks turns p in
      if p.client.client.callbacks == 0
      then (
        false,
        record {
          process = record p { client = record p.client { phase = quiet } };
          schedule = turns;
        },
      )
      else later
  await_callbacks (meanwhile e ∷ turns) p = await_callbacks turns (happen e p)

  -- The turns up to the next one of `shutdownService`.
  unfoldable pub pass : List Turn → Process K L H → Run K L H
  unfolding happen
  pass [] p = record { process = p; schedule = [] }
  pass (meanwhile e ∷ turns) p = pass turns (happen e p)
  pass (goes_on ∷ turns) p = record { process = p; schedule = turns }
  pass (timer_fires ∷ turns) p = record { process = p; schedule = turns }
  pass (offline_fails ∷ turns) p = record { process = p; schedule = turns }

  -- The methods that `shutdownService` calls, in the process.
  unfoldable pub parts : Parts (Run K L H)
  unfolding pass await_end await_callbacks released
  parts = record {
    stop_accepting = λ r.
        let r1 = pass r.schedule r.process in
        let p = r1.process in
        record r1 {
          process = record p {
            client = record p.client { client = stop_accepting p.client.client };
          };
        };
    shutdown_controller = λ r.
        let r1 = pass r.schedule r.process in
        let p = r1.process in
        await_end r1.schedule (record p { activity = shut_down_once p.activity });
    close_mqtt = λ r.
        let r1 = pass r.schedule r.process in
        let p = r1.process in
        await_callbacks r1.schedule (record p { client = enter_close p.client });
    close_gpio = λ r.
        let r1 = pass r.schedule r.process in
        let p = r1.process in
        let (e, m, hw) = close library p.manager p.hardware in
        (released e, record r1 { process = record p { manager = m; hardware = hw } });
  }

  unfoldable pub shut_down : Run K L H → ShutdownError × Run K L H
  unfolding parts
  shut_down r = shutdown_service parts r
