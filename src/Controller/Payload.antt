-- ===== src/Controller/Payload.antt =====
-- controller/controller.go: payloads.
pub mod Words
use mqtt_raspberry_controlle.Base.Space.{trim_space, to_upper}
use mqtt_raspberry_controlle.Base.{
  ℕ, suc, ◌+◌, ◌-◌, Bool, true, false, ◌&&◌, ◌||◌, Option, none, some, List, [], ◌∷◌, ◌++◌, Bytes,
  codes, same, leb, ltb, ◌==◌, if◌then◌else◌, take, length,
}

-- The pair (state, ok); `none` is the source's ok = false.
pub parse_switch_payload : Bytes → Option Bool
parse_switch_payload payload =
    let word = to_upper (trim_space payload) in
    if same word (codes "ON") || (same word (codes "1") || same word (codes "TRUE"))
    then some true
    else if same word (codes "OFF") || (same word (codes "0") || same word (codes "FALSE"))
    then some false
    else none

pub is_press : Bytes → Bool
is_press payload = same (trim_space (to_upper payload)) (codes "PRESS")

pub state_payload : Bool → Bytes
state_payload true = codes "ON"
state_payload false = codes "OFF"

-- What the log shows of a payload.
pub bounded_payload : Bytes → Bytes
bounded_payload payload =
    if leb (length payload) 128 then payload else take 128 payload ++ codes "..."
