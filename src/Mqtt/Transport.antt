-- ===== src/Mqtt/Transport.antt =====
-- mqtt/client.go: `pahoTransport`, the interface of the MQTT library that the client uses, and the
-- clock. `S` is the state of everything behind the client: the library, the broker and the handlers.
use mqtt_raspberry_controlle.Base.{ℕ, Bool, Option, Bytes}

-- What WaitTimeout and Error say of a token.
pub data Waited : Type 0 where
  timed_out : Waited
  finished : Option Bytes → Waited

-- A message of the library.
pub record PahoMessage : Type 0 where
  pub topic : Bytes
  pub payload : Bytes
  pub retained : Bool
  pub duplicate : Bool
  pub qos : ℕ
  pub message_id : ℕ

-- Times are nanoseconds. The last argument but one of `publish` and `subscribe` is the time that is
-- waited for the token at most; `wait_callbacks` waits for the callbacks in flight up to a deadline.
pub record Transport (S : Type 0) : Type 0 where
  pub connect : S → Option Bytes × S
  pub is_connected : S → Bool
  pub publish : Bytes → Bytes → ℕ → Bool → ℕ → S → Waited × S
  pub subscribe : Bytes → ℕ → ℕ → S → Waited × S
  pub disconnect : ℕ → S → S
  pub now : S → ℕ
  pub wait_callbacks : ℕ → S → Bool × S
