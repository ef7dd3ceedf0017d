-- ===== src/Mqtt/Client/Delivery.antt =====
-- mqtt/client.go: what reaches a handler.
use mqtt_raspberry_controlle.Base.{
  length, ltb, if◌then◌else◌, ◌≡◌, refl, arith, Bool-cases, inl, inr,
}
use mqtt_raspberry_controlle.Message.{Message}
use mqtt_raspberry_controlle.Config.{Config}
use mqtt_raspberry_controlle.Mqtt.Transport.{Transport, PahoMessage}
use mqtt_raspberry_controlle.Mqtt.Client.{
  Client, max_command_payload, message_from_paho, dispatch_message, on_message, begin_callback,
  end_callback,
}

module _ {S : Type 0} (transport : Transport S) (cfg : Config) where
  -- A message of at most 4096 bytes reaches its handler, once, and a longer one does not; behind
  -- StopAccepting none does. In each case the callback that began has ended, and the client goes on
  -- accepting as it did.
  pub on_message_delivery :
      (handler : Message → S → S) (m : PahoMessage) (c : Client S) (s : S)
      → let (c', s') = on_message transport cfg handler m c s in
        (c'.callbacks ≡ c.callbacks)
        × (c'.accepting ≡ c.accepting)
        × (s' ≡ (
            if c.accepting
            then (if ltb max_command_payload (length m.payload)
                then s
                else handler (message_from_paho m) s)
            else s))
  unfolding on_message dispatch_message begin_callback end_callback
  on_message_delivery handler m c s = elim (Bool-cases c.accepting) [
    | inr e ↦ rw e (refl, refl, refl)
    | inl e ↦ elim (Bool-cases (ltb max_command_payload (length m.payload))) [
      | inl long ↦ rw (e, long) (ground arith, refl, refl)
      | inr short ↦ rw (e, short) (ground arith, refl, refl)
    ]
  ]
