-- ===== src/Message.antt =====
-- mqtt/client.go: `Message`, which the client hands to the controller.
use mqtt_raspberry_controlle.Base.{ℕ, Bool, Bytes}

pub record Message : Type 0 where
  pub topic : Bytes
  pub payload : Bytes
  pub retained : Bool
  pub duplicate : Bool
  pub qos : ℕ
  pub message_id : ℕ
