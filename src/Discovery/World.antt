-- ===== src/Discovery/World.antt =====
-- The state that controller/discovery.go acts on: the manifest file and its temporary copy, and the
-- retained messages of the broker. Each system call and each publication takes the next fault of a
-- list: it works, or fails with no effect, or fails though its effect has taken place (a time-out). A
-- process that stops in between is a list that goes on with `refused`, since every error is returned
-- at once. The JSON text of the file stands for the state that it encodes.
use mqtt_raspberry_controlle.Base.{
  List, [], ◌∷◌, Bytes, Option, none, some, same, is_empty, if◌then◌else◌,
}
use mqtt_raspberry_controlle.Base.Result.{Result, ok, err}
use mqtt_raspberry_controlle.Discovery.Topics.{DiscoveryState, ManifestError}

pub data Fault : Type 0 where
  works refused lost : Fault

-- `corrupt` is a file that is no private file of the right size or does not decode.
pub data Stored : Type 0 where
  absent corrupt : Stored
  holds : DiscoveryState → Stored

pub record World : Type 0 where
  pub manifest : Stored
  pub temporary : Option Stored
  pub broker : Bytes → Option Bytes
  pub faults : List Fault

pub data DiscoveryError : Type 0 where
  system_call : Bytes → DiscoveryError
  cannot_load : DiscoveryError
  invalid_manifest : ManifestError → DiscoveryError
  foreign_owner : Bytes → DiscoveryError
  too_large : DiscoveryError
  remove_failed : Bytes → DiscoveryError
  publish_failed : Bytes → Bytes → DiscoveryError
  marshal_failed : DiscoveryError

abbrev pub M : Type 0 → Type 0
M A = World → Result DiscoveryError A × World

abbrev pub pure : {A : Type 0} → A → M A
pure a w = (ok a, w)

abbrev pub throw : {A : Type 0} → DiscoveryError → M A
throw e w = (err e, w)

abbrev pub after :
    {A B : Type 0} → (A → M B) → Result DiscoveryError A × World → Result DiscoveryError B × World
after f (ok a, w) = f a w
after f (err e, w) = (err e, w)

infixl 5 ◌>>=◌ ◌>>◌
abbrev pub ◌>>=◌ : {A B : Type 0} → M A → (A → M B) → M B
◌>>=◌ m f w = after f (m w)

abbrev pub ◌>>◌ : {B : Type 0} → M (Unit {0}) → M B → M B
m >> k = m >>= λ _. k

abbrev pub next_fault : List Fault → Fault
next_fault [] = works
next_fault (f ∷ _) = f

abbrev pub later_faults : List Fault → List Fault
later_faults [] = []
later_faults (_ ∷ fs) = fs

-- One call with an effect on the state.
unfoldable pub perform : DiscoveryError → (World → World) → M (Unit {0})
perform e effect w =
    let rest = record w { faults = later_faults w.faults } in
    elim (next_fault w.faults) [
      | works ↦ (ok tt, effect rest)
      | refused ↦ (err e, rest)
      | lost ↦ (err e, effect rest)
    ]

-- A retained publication replaces the topic's message; an empty payload removes it.
unfoldable pub retain : Bytes → Bytes → World → World
retain topic payload w = record w {
  broker =
      λ t. if same topic t then (if is_empty payload then none else some payload) else w.broker t;
}

unfoldable pub replace_manifest : DiscoveryState → World → World
replace_manifest s w = record w { manifest = holds s; temporary = none }

unfoldable pub set_temporary : Option Stored → World → World
set_temporary t w = record w { temporary = t }

unfoldable pub read_only : World → World
read_only w = w
