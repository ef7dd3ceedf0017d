-- ===== src/Service.antt =====
-- cmd/mqtt-raspberry-controller/main.go: `shutdownService`.
pub mod Startup
pub mod Interleaving
pub mod Wiring
use mqtt_raspberry_controlle.Base.{Bool, true, false, not, if◌then◌else◌, ◌≡◌, arith, if_cases}

-- controllerShutdowner, mqttShutdowner and gpioCloser, on the state `S` of the whole process. The time
-- until the deadline is what each operation reads from its clock; `false` is an error.
pub record Parts (S : Type 0) : Type 0 where
  pub stop_accepting : S → S
  pub shutdown_controller : S → Bool × S
  pub close_mqtt : S → Bool × S
  pub close_gpio : S → Bool × S

pub data ShutdownError : Type 0 where
  clean controller_failed mqtt_failed gpio_failed : ShutdownError

module _ {S : Type 0} (parts : Parts S) where
  unfoldable pub shutdown_service : S → ShutdownError × S
  shutdown_service s =
      let (stopped, s1) = parts.shutdown_controller (parts.stop_accepting s) in
      if not stopped
      then (controller_failed, s1)
      else (let (closed, s2) = parts.close_mqtt s1 in
          if not closed
          then (mqtt_failed, s2)
          else (let (released, s3) = parts.close_gpio s2 in
              (if released then clean else gpio_failed, s3)))

  -- The three places where it returns.
  pub shutdown_service_cases {κ} :
      (P : ShutdownError × S → Type κ) (s : S)
      → let (stopped, s1) = parts.shutdown_controller (parts.stop_accepting s) in
        let (closed, s2) = parts.close_mqtt s1 in
        let (released, s3) = parts.close_gpio s2 in
        (stopped ≡ false → P (controller_failed, s1))
        → (stopped ≡ true → closed ≡ false → P (mqtt_failed, s2))
        → (stopped ≡ true → closed ≡ true → P (if released then clean else gpio_failed, s3))
        → P (shutdown_service s)
  unfolding shutdown_service
  shutdown_service_cases P s first second third =
      let (stopped, s1) = parts.shutdown_controller (parts.stop_accepting s) in
      let (closed, s2) = parts.close_mqtt s1 in
      if_cases P (not stopped) _ _ (λ e. first (ground (arith, e)))
        λ e.
          if_cases P (not closed) _ _ (λ e2. second (ground (arith, e)) (ground (arith, e2)))
            λ e2. third (ground (arith, e)) (ground (arith, e2))
