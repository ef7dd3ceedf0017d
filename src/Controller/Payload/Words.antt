-- ===== src/Controller/Payload/Words.antt =====
-- The words that are commands.
use mqtt_raspberry_controlle.Base.{
  ◌≤◌, Bool, true, false, none, some, Bytes, codes, same, ◌≡◌, refl, inl, inr, arith, length,
  length-append, length-take, take, leb, leb→le, Bool-cases,
}
use mqtt_raspberry_controlle.Base.Space.{trim_space, to_upper}
use mqtt_raspberry_controlle.Controller.Payload.{
  parse_switch_payload, state_payload, bounded_payload,
}

-- The payload that is published for a state reads back as the command for that state.
pub parse-state_payload : (state : Bool) → parse_switch_payload (state_payload state) ≡ some state
unfolding parse_switch_payload state_payload trim_space to_upper same
parse-state_payload true = refl
parse-state_payload false = refl

-- Within white space and in any mix of capitals.
spaced : parse_switch_payload (codes " \tfAlSe\r\n") ≡ some false
unfolding parse_switch_payload trim_space to_upper same
spaced = refl

-- A text that is no command word in capitals is not taken.
unknown : parse_switch_payload (codes "ONE") ≡ none
unfolding parse_switch_payload trim_space to_upper same
unknown = refl

-- What is logged of a payload has 131 bytes at most, and is the payload itself up to 128 bytes.
pub bounded_payload_bound :
    (payload : Bytes)
    → (length (bounded_payload payload) ≤ 131)
      × ((length payload ≤ 128 → bounded_payload payload ≡ payload))
unfolding bounded_payload
bounded_payload_bound payload = elim (Bool-cases (leb (length payload) 128)) [
  | inl e ↦ rw e (omega (arith, leb→le _ _ e), λ h. refl)
  | inr e ↦ rw e (
    omega (arith, length-append (take 128 payload) (codes "..."), length-take 128 payload),
    λ h. absurd (ground arith),
  )
]
