-- ===== src/Gpio.antt =====
-- gpio/manager.go: the manager of GPIO lines. A locked section of the source is one function; a method
-- returns its result, the manager and the hardware's state.
pub mod Lines
pub mod Opening
pub mod Inputs
pub mod Values
pub mod Validated
use mqtt_raspberry_controlle.Base.{
  ℕ, Bool, true, false, Option, none, some, List, [], ◌∷◌, ◌++◌, Bytes, codes, is_empty, ◌==◌,
  if◌then◌else◌, sort_strings,
}
use mqtt_raspberry_controlle.Base.Int.{ℤ, pos}
use mqtt_raspberry_controlle.Base.Dict.{Dict, keys, lookup, has, insert}
use mqtt_raspberry_controlle.Base.Result.{Result, ok, err}
use mqtt_raspberry_controlle.Config.{GpioOutput, GpioInput, Gpio}
use mqtt_raspberry_controlle.Gpio.Lines.{
  LineRequest, Library, Edge, rising, falling, unknown, line_input, line_output, request_gpio_line,
}

-- The field `requestLine` is `requestGPIOLine` of the library.
pub record Manager (L : Type 0) : Type 0 where
  pub config : Gpio
  pub outputs : Dict L
  pub inputs : Dict L

pub data GpioError : Type 0 where
  cannot_open : Bytes → GpioError
  cannot_parse_debounce : Bytes → GpioError
  not_open : Bytes → GpioError
  cannot_set cannot_read cannot_close : Bytes → GpioError

pub state_from_event : Edge → Option Bool
state_from_event rising = some true
state_from_event falling = some false
state_from_event (unknown _) = none

-- The handler is nil or a function of the input's name and state.
pub input_event_handler : {C : Type 0} → Bytes → Option (Bytes → Bool → C) → Edge → Option C
unfolding state_from_event
input_event_handler name none event = none
input_event_handler name (some handler) event = elim (state_from_event event) [
  | none ↦ none
  | some state ↦ some (handler name state)
]

first_error : Option GpioError → Bool → Bytes → Option GpioError
first_error (some e) closed name = some e
first_error none true name = none
first_error none false name = some (cannot_close name)

to_result : Option GpioError → Result GpioError (Unit {0})
to_result none = ok tt
to_result (some e) = err e

consumer : Bytes → Bytes
consumer name = codes "mqtt-raspberry-controller:" ++ name

-- The names of a map in the order of their bytes.
unfoldable pub sorted_output_names : Dict GpioOutput → List Bytes
sorted_output_names values = sort_strings (keys values)

unfoldable pub sorted_input_names : Dict GpioInput → List Bytes
sorted_input_names values = sort_strings (keys values)

module _ {C L H : Type 0} (library : Library C L H) where
  abbrev pub Outcome : Type 0
  Outcome = Result GpioError (Unit {0}) × Manager L × H

  pub new : Gpio → Manager L
  new cfg = record { config = cfg; outputs = []; inputs = [] }

  -- for name, line := range m { line.Close(); delete(m, name) }
  close_all : Dict L → Option GpioError → H → Option GpioError × H
  unfolding first_error
  close_all [] e hw = (e, hw)
  close_all ((name, line) ∷ lines) e hw =
      let (closed, hw') = library.close_line line hw in
      close_all lines (first_error e closed name) hw'

  close_inputs_locked : Manager L → H → Option GpioError × Manager L × H
  unfolding close_all
  close_inputs_locked m hw =
      let (e, hw') = close_all m.inputs none hw in (e, record m { inputs = [] }, hw')

  close_locked : Manager L → H → Option GpioError × Manager L × H
  unfolding close_inputs_locked
  close_locked m hw =
      let (e, m1, hw1) = close_inputs_locked m hw in
      let (e2, hw2) = close_all m1.outputs e hw1 in (e2, record m1 { outputs = [] }, hw2)

  pub close : Manager L → H → Outcome
  unfolding close_locked to_result
  close m hw = let (e, m', hw') = close_locked m hw in (to_result e, m', hw')

  output_request : Bytes → GpioOutput → LineRequest C
  unfolding consumer
  output_request name cfg = record {
    chip = cfg.chip;
    offset = cfg.line;
    consumer = consumer name;
    direction = line_output;
    initial = if cfg.initial then 1 else 0;
    active_low = cfg.active_low;
    bias = [];
    debounce = pos 0;
    both_edges = false;
    event_handler = none;
  }

  -- One round of the loop of OpenOutputs.
  open_output : Bytes → Manager L → H → Outcome
  unfolding output_request request_gpio_line close_locked
  open_output name m hw = elim (lookup name m.config.outputs) [
    | none ↦ (ok tt, m, hw)
    | some cfg ↦
        if has name m.outputs
        then (ok tt, m, hw)
        else let (line, hw1) = request_gpio_line library (output_request name cfg) hw in
          elim line [
            | none ↦ let (_, m2, hw2) = close_locked m hw1 in (err (cannot_open name), m2, hw2)
            | some l ↦ (ok tt, record m { outputs = insert name l m.outputs }, hw1)
          ]
  ]

  -- The loops go on while the rounds succeed.
  on_success : (Manager L → H → Outcome) → Outcome → Outcome
  on_success next (ok _, m, hw) = next m hw
  on_success next (err e, m, hw) = (err e, m, hw)

  open_each : (Bytes → Manager L → H → Outcome) → List Bytes → Manager L → H → Outcome
  unfolding on_success
  open_each open_one [] m hw = (ok tt, m, hw)
  open_each open_one (name ∷ names) m hw =
      on_success (open_each open_one names) (open_one name m hw)

  unfoldable pub open_outputs : Manager L → H → Outcome
  unfolding open_output open_each sorted_output_names
  open_outputs m hw = open_each open_output (sorted_output_names m.config.outputs) m hw

  -- `parse` is time.ParseDuration, `none` its error.
  module _ (parse : Bytes → Option ℤ) (handler : Option (Bytes → Bool → C)) where
    debounce_of : GpioInput → Option ℤ
    debounce_of cfg = if is_empty cfg.debounce then some (pos 0) else parse cfg.debounce

    input_request : Bytes → GpioInput → ℤ → LineRequest C
    unfolding consumer
    input_request name cfg debounce = record {
      chip = cfg.chip;
      offset = cfg.line;
      consumer = consumer name;
      direction = line_input;
      initial = 0;
      active_low = cfg.active_low;
      bias = cfg.bias;
      debounce = debounce;
      both_edges = true;
      event_handler = some (input_event_handler name handler);
    }

    request_input : Bytes → GpioInput → Option ℤ → Manager L → H → Outcome
    unfolding input_request request_gpio_line close_inputs_locked
    request_input name cfg none m hw =
        let (_, m2, hw2) = close_inputs_locked m hw in (err (cannot_parse_debounce name), m2, hw2)
    request_input name cfg (some debounce) m hw =
        let (line, hw1) = request_gpio_line library (input_request name cfg debounce) hw in
        elim line [
          | none ↦ let (_, m2, hw2) = close_inputs_locked m hw1 in (err (cannot_open name), m2, hw2)
          | some l ↦ (ok tt, record m { inputs = insert name l m.inputs }, hw1)
        ]

    -- One round of the loop of OpenInputs.
    open_input : Bytes → Manager L → H → Outcome
    unfolding request_input debounce_of
    open_input name m hw = elim (lookup name m.config.inputs) [
      | none ↦ (ok tt, m, hw)
      | some cfg ↦
          if has name m.inputs
          then (ok tt, m, hw)
          else request_input name cfg (debounce_of cfg) m hw
    ]

    pub open_inputs : Manager L → H → Outcome
    unfolding open_input open_each sorted_input_names
    open_inputs m hw = open_each open_input (sorted_input_names m.config.inputs) m hw

  set_line : Option L → Bytes → Bool → H → Result GpioError (Unit {0}) × H
  set_line none name state hw = (err (not_open name), hw)
  set_line (some l) name state hw =
      let (set, hw') = library.set_value l (if state then 1 else 0) hw in
      (if set then ok tt else err (cannot_set name), hw')

  unfoldable pub set_output : Bytes → Bool → Manager L → H → Result GpioError (Unit {0}) × H
  unfolding set_line
  set_output name state m hw = set_line (lookup name m.outputs) name state hw

  line_state : Option L → Bytes → H → Result GpioError Bool × H
  line_state none name hw = (err (not_open name), hw)
  line_state (some l) name hw =
      let (value, hw') = library.value l hw in
      (elim value [ none ↦ err (cannot_read name) | some v ↦ ok (v == 1) ], hw')

  unfoldable pub output_state : Bytes → Manager L → H → Result GpioError Bool × H
  unfolding line_state
  output_state name m hw = line_state (lookup name m.outputs) name hw

  pub input_state : Bytes → Manager L → H → Result GpioError Bool × H
  unfolding line_state
  input_state name m hw = line_state (lookup name m.inputs) name hw
