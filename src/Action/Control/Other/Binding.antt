-- ===== src/Action/Control/Other/Binding.antt =====
-- The check of the executable on Linux and on the other systems.
use mqtt_raspberry_controlle.Base.{
  Bool, true, false, not, ◌&&◌, ◌||◌, Option, some, none, Bytes, ◌≡◌, refl, if◌then◌else◌, inl, inr,
}
use mqtt_raspberry_controlle.Base.Result.{Result, ok, err, Result-cases}
use mqtt_raspberry_controlle.Config.Outside.{FileInfo, is_executable}
use mqtt_raspberry_controlle.Action.Command
use mqtt_raspberry_controlle.Action.Command.{Process, StartError}
use mqtt_raspberry_controlle.Action.Control.Other.{bind_command_executable}

abbrev pub is_none : {A : Type 0} → Option A → Bool
is_none none = true
is_none (some x) = false

-- What os.Stat of the path says.
abbrev pub stat_of : Result StartError FileInfo → Option FileInfo
stat_of (err e) = none
stat_of (ok info) = some info

refused_then :
    {S : Type 0} (regular executable : Bool) (e : StartError) (s t : S)
    → let r : Option StartError × S =
        if not regular || not executable then (some e, s) else (none, t) in
      is_none r.0 ≡ (regular && executable)
refused_then true true e s t = refl
refused_then true false e s t = refl
refused_then false executable e s t = refl

-- Both accept the same executables, where Linux can open the file and the descriptor and the path name
-- the same file.
pub bind_agrees :
    {S : Type 0} (process : Process S) (path : Bytes) (s : S)
    → (process.open_executable path s).0 ≡ none
    → is_none (Command.bind_command_executable process path s).0
      ≡ bind_command_executable
          (λ p. stat_of (process.stat_executable (process.open_executable p s).1))
          path
unfolding Command.bind_command_executable bind_command_executable
bind_agrees process path s opened =
    elim (Result-cases (process.stat_executable (process.open_executable path s).1)) [
      | inl (cause, e) ↦
          rw (Command.bind_command_executable, bind_command_executable, opened, e) refl
      | inr (info, e) ↦
          rw (Command.bind_command_executable, bind_command_executable, opened, e)
            (refused_then info.is_regular (is_executable info) _ _ _)
    ]
