-- ===== src/Gpio/Inputs.antt =====
-- gpio/manager.go: opening the inputs leaves the outputs alone.
use mqtt_raspberry_controlle.Base.{Bool, [], Bytes, Option, ◌≡◌}
use mqtt_raspberry_controlle.Base.Int.{ℤ}
use mqtt_raspberry_controlle.Base.Result.{ok, err}
use mqtt_raspberry_controlle.Gpio.Lines.{Library}
use mqtt_raspberry_controlle.Gpio.{Manager, Outcome}

module _ {C L H : Type 0} (library : Library C L H) (parse : Bytes → Option ℤ)
    (handler : Option (Bytes → Bool → C)) where
  -- The outputs are as before, and a failure leaves no input open.
  abbrev pub Separate : Manager L → Outcome library → Type 0
  Separate m (ok _, m', hw') = m'.outputs ≡ m.outputs
  Separate m (err _, m', hw') = (m'.outputs ≡ m.outputs) × (m'.inputs ≡ [])
