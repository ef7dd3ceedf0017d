-- ===== src/Gpio/Values.antt =====
-- gpio/manager.go: the state of an output is the one that was set last.
use mqtt_raspberry_controlle.Base.{
  ℕ, Bool, true, false, Option, none, some, Bytes, ◌≡◌, ◌⊎◌, inl, inr, arith, Bool-cases, refl,
}
use mqtt_raspberry_controlle.Base.Dict.{lookup}
use mqtt_raspberry_controlle.Base.Result.{ok, err}
use mqtt_raspberry_controlle.Gpio.Lines.{Library}
use mqtt_raspberry_controlle.Gpio.{
  Manager, set_output, output_state, set_line, line_state, cannot_read,
}

module _ {C L H : Type 0} (library : Library C L H) where
  -- A line reads as it was set, where the read reports no error.
  abbrev pub KeepsValue : Type 0
  KeepsValue =
      (l : L) (v : ℕ) (hw : H)
      → (library.set_value l v hw).0 ≡ true
      → let read = (library.value l (library.set_value l v hw).1).0 in
        (read ≡ none) ⊎ (read ≡ some v)

  set_line-KeepsValue :
      (line : Option L) (name : Bytes) (state : Bool) (hw : H)
      → KeepsValue
      → (set_line library line name state hw).0 ≡ ok tt
      → let read = (line_state library line name (set_line library line name state hw).1).0 in
        (read ≡ err (cannot_read name)) ⊎ (read ≡ ok state)
  unfolding set_line line_state
  set_line-KeepsValue none name state hw kept done = cc
  set_line-KeepsValue (some l) name true hw kept done =
      elim (Bool-cases (library.set_value l 1 hw).0) [
        | inl e ↦ elim (kept l 1 hw e) [ inl r ↦ inl (rw r refl) | inr r ↦ inr (rw r refl) ]
        | inr e ↦ absurd (ground (arith, e, done))
      ]
  set_line-KeepsValue (some l) name false hw kept done =
      elim (Bool-cases (library.set_value l 0 hw).0) [
        | inl e ↦ elim (kept l 0 hw e) [ inl r ↦ inl (rw r refl) | inr r ↦ inr (rw r refl) ]
        | inr e ↦ absurd (ground (arith, e, done))
      ]

  -- Behind a write of an output that succeeds, a read of it fails as unreadable or gives the written
  -- state, if the library's lines read as they were set.
  pub output_state-set_output :
      (m : Manager L) (name : Bytes) (state : Bool) (hw : H)
      → KeepsValue
      → (set_output library name state m hw).0 ≡ ok tt
      → let read = (output_state library name m (set_output library name state m hw).1).0 in
        (read ≡ err (cannot_read name)) ⊎ (read ≡ ok state)
  unfolding set_output output_state
  output_state-set_output m name state hw kept done =
      set_line-KeepsValue (lookup name m.outputs) name state hw kept done
