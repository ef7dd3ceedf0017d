-- ===== src/Gpio/Lines.antt =====
-- gpio/manager.go: the request of a line, and what the manager uses of the GPIO library. A line, the
-- state of the hardware and a call of the input handler are of types that the library's user gives.
use mqtt_raspberry_controlle.Base.{
  ℕ, Bool, Option, List, [], ◌∷◌, ◌++◌, Bytes, codes, same, if◌then◌else◌,
}
use mqtt_raspberry_controlle.Base.Int.{ℤ, is_positive}

pub data LineDirection : Type 0 where
  line_input line_output : LineDirection

-- The edges of an input line; `unknown` is any other event type.
pub data Edge : Type 0 where
  rising falling : Edge
  unknown : ℕ → Edge

-- An event handler gives the call of the input handler that an event leads to.
pub record LineRequest (C : Type 0) : Type 0 where
  pub chip : Bytes
  pub offset : ℤ
  pub consumer : Bytes
  pub direction : LineDirection
  pub initial : ℕ
  pub active_low : Bool
  pub bias : Bytes
  pub debounce : ℤ
  pub both_edges : Bool
  pub event_handler : Option (Edge → Option C)

pub data LineOption (C : Type 0) : Type 0 where
  with_consumer : Bytes → LineOption C
  as_active_low as_active_high as_input with_both_edges : LineOption C
  with_pull_up with_pull_down with_bias_disabled : LineOption C
  as_output : ℕ → LineOption C
  with_event_handler : Option (Edge → Option C) → LineOption C
  with_debounce : ℤ → LineOption C

-- What the library gives: gpiocdev.RequestLine, and the methods of a line. `none` and `false` are an
-- error.
pub record Library (C L H : Type 0) : Type 0 where
  pub request_line : Bytes → ℤ → List (LineOption C) → H → Option L × H
  pub set_value : L → ℕ → H → Bool × H
  pub value : L → H → Option ℕ × H
  pub close_line : L → H → Bool × H

module _ {C : Type 0} where
  bias_option : Bytes → LineOption C
  bias_option bias =
      if same bias (codes "pull_up")
      then with_pull_up
      else if same bias (codes "pull_down")
      then with_pull_down
      else with_bias_disabled

  direction_options : LineDirection → LineRequest C → List (LineOption C)
  unfolding bias_option is_positive
  direction_options line_output request = as_output request.initial ∷ []
  direction_options line_input request =
      as_input
      ∷ ((if request.both_edges then with_both_edges ∷ [] else [])
          ++ (with_event_handler request.event_handler
              ∷ bias_option request.bias
              ∷ (if is_positive request.debounce then with_debounce request.debounce ∷ [] else [])))

  unfoldable pub line_options : LineRequest C → List (LineOption C)
  unfolding direction_options
  line_options request =
      with_consumer request.consumer
      ∷ (if request.active_low then as_active_low else as_active_high)
      ∷ direction_options request.direction request

  unfoldable pub request_gpio_line :
      {L H : Type 0} → Library C L H → LineRequest C → H → Option L × H
  unfolding line_options
  request_gpio_line library request =
      library.request_line request.chip request.offset (line_options request)
