-- ===== src/Tests/Gpio.antt =====
-- gpio/manager.go at a board with two outputs.
use mqtt_raspberry_controlle.Base.{
  ℕ, zero, suc, ◌+◌, true, false, Option, none, some, [], ◌∷◌, codes, ◌==◌, if◌then◌else◌,
  sort_strings, same, ◌≡◌, refl,
}
use mqtt_raspberry_controlle.Base.Int.{pos}
use mqtt_raspberry_controlle.Base.Dict.{has, lookup, insert, keys}
use mqtt_raspberry_controlle.Base.Result.{ok}
use mqtt_raspberry_controlle.Config.{GpioOutput, GpioInput, Gpio}
use mqtt_raspberry_controlle.Gpio.Lines.{Library}
use mqtt_raspberry_controlle.Gpio.{Manager, open_outputs, cannot_open, Outcome}
use mqtt_raspberry_controlle.Gpio.Opening.{Closed, open_outputs_failed}

abbrev pub output : ℕ → GpioOutput
output n = record { chip = codes "gpiochip0"; line = pos n; active_low = false; initial = true }

abbrev pub board : Gpio
board = record { outputs = (codes "relay", output 17) ∷ (codes "lamp", output 4) ∷ []; inputs = [] }

-- A board with `free` lines left; the handles count up, and each keeps its value.
pub record Hardware : Type 0 where
  pub next : ℕ
  pub free : ℕ
  pub level : ℕ → ℕ

abbrev request : ℕ → Hardware → Option ℕ × Hardware
request zero hw = (none, hw)
request (suc n) hw = (some hw.next, record hw { next = hw.next + 1; free = n })

abbrev pub library : Library (Unit {0}) ℕ Hardware
library = record {
  request_line = λ chip offset options hw. request hw.free hw;
  set_value = λ l v hw. (true, record hw { level = λ j. if l == j then v else hw.level j });
  value = λ l hw. (some (hw.level l), hw);
  close_line = λ l hw. (true, hw);
}

abbrev pub with_free : ℕ → Hardware
with_free n = record { next = 1; free = n; level = λ _. 0 }

abbrev pub idle : Manager ℕ
idle = record { config = board; outputs = []; inputs = [] }

abbrev pub opened : Outcome library
opened = open_outputs library idle (with_free 2)

open_outputs_works : opened.0 ≡ ok tt
unfolding open_outputs sort_strings keys lookup same has insert
open_outputs_works = refl

abbrev failed : Outcome library
failed = open_outputs library idle (with_free 1)

open_outputs_failed_example : Closed failed.1
unfolding open_outputs sort_strings keys lookup same has insert
open_outputs_failed_example =
    open_outputs_failed library idle failed.1 (with_free 1) failed.2 (cannot_open (codes "relay"))
      refl

abbrev running : Manager ℕ
running = record {
  config = board;
  outputs = (codes "relay", 1) ∷ (codes "lamp", 2) ∷ [];
  inputs = [];
}

abbrev pub door : GpioInput
door = record {
  chip = codes "gpiochip0";
  line = pos 22;
  active_low = true;
  bias = codes "pull_up";
  debounce = [];
}

abbrev with_doors : Manager ℕ
with_doors = record running {
  config = record board { inputs = (codes "front", door) ∷ (codes "back", door) ∷ [] };
}
