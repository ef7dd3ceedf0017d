-- ===== src/Service/Startup.antt =====
-- cmd/mqtt-raspberry-controller/main.go: `run`. The components that it makes are operations on the state
-- `S` of the whole process; `false` is an error.
use mqtt_raspberry_controlle.Base.{
  Bool, true, false, not, Option, Bytes, if◌then◌else◌, ◌≡◌, refl, inl, inr, Bool-cases,
}
use mqtt_raspberry_controlle.Base.Result.{Result, ok, err}
use mqtt_raspberry_controlle.Config.{Config}
use mqtt_raspberry_controlle.Config.Outside.{Outside}
use mqtt_raspberry_controlle.Config.Expansion.{Lookup}
use mqtt_raspberry_controlle.Config.Validation.Errors.{ConfigError}
use mqtt_raspberry_controlle.Config.Loading.{LoadError, load, load-Loaded}
use mqtt_raspberry_controlle.Mqtt.New.{Options, new}
use mqtt_raspberry_controlle.Mqtt.New.Security.{new-Secured}
use mqtt_raspberry_controlle.Service.{Parts, ShutdownError, shutdown_service}

-- The methods that `run` calls on the manager, the controller and the client, with what the interfaces
-- of the shutdown have; `wait` is `<-ctx.Done()`.
pub record Components (S : Type 0) : Type 0 where
  pub parts : Parts S
  pub open_outputs : S → Bool × S
  pub register : S → Bool × S
  pub connect : S → Bool × S
  pub open_inputs : S → Bool × S
  pub publish_all_states : S → S
  pub wait : S → S

pub record Flags : Type 0 where
  pub config_path : Bytes
  pub check_config : Bool
  pub show_version : Bool

-- How run ends. An error that is joined with that of the shutdown has it.
pub data Exit : Type 0 where
  version_shown config_valid outputs_failed : Exit
  configuration_error : LoadError → Exit
  client_error : ConfigError → Exit
  register_failed connect_failed inputs_failed stopped : ShutdownError → Exit

unfoldable pub is_client_error : Exit → Bool
is_client_error (client_error e) = true
is_client_error _ = false

module _ {S : Type 0} (made : Config → Options → Components S) where
  stop : Components S → (ShutdownError → Exit) → S → Exit × S
  stop c exit s = let (e, s1) = shutdown_service c.parts s in (exit e, s1)

  -- Behind OpenOutputs.
  start_controller : Components S → S → Exit × S
  unfolding stop
  start_controller c s =
      let (registered, s1) = c.register s in
      if not registered
      then stop c register_failed s1
      else (let (connected, s2) = c.connect s1 in
          if not connected
          then stop c connect_failed s2
          else (let (opened, s3) = c.open_inputs s2 in
              if not opened
              then stop c inputs_failed s3
              else stop c stopped (c.wait (c.publish_all_states s3))))

  start_service : Components S → S → Exit × S
  unfolding start_controller
  start_service c s =
      let (opened, s1) = c.open_outputs s in
      if not opened then (outputs_failed, s1) else start_controller c s1

  module _ (o : Outside) (env : Lookup) (read_file : Bytes → Option Bytes)
      (decode : Bytes → Option Config) where
    with_client : Flags → Config → Result ConfigError Options → S → Exit × S
    unfolding start_service
    with_client flags cfg (err e) s = (client_error e, s)
    with_client flags cfg (ok options) s =
        if flags.check_config then (config_valid, s) else start_service (made cfg options) s

    with_config : Flags → Result LoadError Config → S → Exit × S
    unfolding with_client
    with_config flags (err e) s = (configuration_error e, s)
    with_config flags (ok cfg) s = with_client flags cfg (new o cfg) s

    unfoldable pub run_service : Flags → S → Exit × S
    unfolding with_config
    run_service flags s =
        if flags.show_version
        then (version_shown, s)
        else with_config flags (load o env read_file decode flags.config_path) s

    -- The client was not refused, and nothing was touched, or the outputs could not be opened, or the last call was a shutdown.
    pub data Ended : S → Exit × S → Type 0 where
      untouched : (s : S) (exit : Exit) → is_client_error exit ≡ false → Ended s (exit, s)
      not_opened :
          (cfg : Config) (options : Options) (s : S)
          → ((made cfg options).open_outputs s).0 ≡ false
          → Ended s (outputs_failed, ((made cfg options).open_outputs s).1)
      shut_down :
          (cfg : Config) (options : Options) (s s1 : S) (exit : Exit)
          → is_client_error exit ≡ false
          → Ended s (exit, (shutdown_service (made cfg options).parts s1).1)

    stop-Ended :
        (cfg : Config) (options : Options) (exit : ShutdownError → Exit) (s s1 : S)
        → ((e : ShutdownError) → is_client_error (exit e) ≡ false)
        → Ended s (stop (made cfg options) exit s1)
    unfolding stop
    stop-Ended cfg options exit s s1 other = shut_down cfg options s s1 _ (other _)

    start_service-Ended :
        (cfg : Config) (options : Options) (s : S) → Ended s (start_service (made cfg options) s)
    unfolding start_service start_controller is_client_error
    start_service-Ended cfg options s =
        let c = made cfg options in
        let s1 = (c.open_outputs s).1 in
        let s2 = (c.register s1).1 in
        let s3 = (c.connect s2).1 in
        let s4 = (c.open_inputs s3).1 in
        elim (Bool-cases (c.open_outputs s).0) [
          | inr e ↦ rw e (not_opened cfg options s e)
          | inl e ↦ elim (Bool-cases (c.register s1).0) [
            | inr e1 ↦ rw (e, e1) (stop-Ended cfg options register_failed s s2 λ _. refl)
            | inl e1 ↦ elim (Bool-cases (c.connect s2).0) [
              | inr e2 ↦ rw (e, e1, e2) (stop-Ended cfg options connect_failed s s3 λ _. refl)
              | inl e2 ↦ elim (Bool-cases (c.open_inputs s3).0) [
                | inr e3 ↦ rw (e, e1, e2, e3) (stop-Ended cfg options inputs_failed s s4 λ _. refl)
                | inl e3 ↦
                    rw (e, e1, e2, e3)
                      (stop-Ended cfg options stopped s (c.wait (c.publish_all_states s4))
                        λ _. refl)
              ]
            ]
          ]
        ]

    with_config-Ended :
        (flags : Flags) (path : Bytes) (s : S)
        → Ended s (with_config flags (load o env read_file decode path) s)
    unfolding with_config with_client is_client_error
    with_config-Ended flags path s = go (load o env read_file decode path) refl
      where
        go :
            (r : Result LoadError Config)
            → load o env read_file decode path ≡ r
            → Ended s (with_config flags r s)
        go (err e) h = untouched s (configuration_error e) refl
        go (ok cfg) h =
            let (valid, _, _) = load-Loaded o env read_file decode path cfg h in
            let (options, _, _, made_client, _, _, _) = new-Secured o cfg valid in
            rw made_client (elim (Bool-cases flags.check_config) [
              | inl e ↦ rw e (untouched s config_valid refl)
              | inr e ↦ rw e (start_service-Ended cfg options s)
            ])

    -- However `run` ends: a configuration that was loaded is never refused by the client; and nothing
    -- was touched, or the outputs could not be opened, or the last thing that happened was a shutdown of
    -- controller, client and GPIO lines.
    pub run_service-Ended : (flags : Flags) (s : S) → Ended s (run_service flags s)
    unfolding run_service is_client_error
    run_service-Ended flags s = elim (Bool-cases flags.show_version) [
      | inl e ↦ rw e (untouched s version_shown refl)
      | inr e ↦ rw e (with_config-Ended flags flags.config_path s)
    ]
