-- ===== src/Config/Validation/Lines/Order.antt =====
-- config/validation.go: `validateGPIO` ranges over two Go maps, whose order changes from run to run.
use mathlib.Core.List.{Permᴰ}
use mathlib.Core.List.Permᴰ
use mathlib.Core.Quot
use mathlib.Core.Quot.{Quot}
use mathlib.Core.Bool.{Bool-set}
use mqtt_raspberry_controlle.Base.{Bool, List, [], ◌++◌, map, ◌≡◌, refl, sym, ap, ◌∙◌, append-nil}
use mqtt_raspberry_controlle.Base.Dict.{Dict}
use mqtt_raspberry_controlle.Base.Result.{Result, ok, err, ◌>>=◌}
use mqtt_raspberry_controlle.Config.{GpioInput, Gpio}
use mqtt_raspberry_controlle.Config.Outside.{Outside}
use mqtt_raspberry_controlle.Config.Validation.Errors.{ConfigError}
use mqtt_raspberry_controlle.Config.Validation.Lines.{
  LineKey, check_outputs, check_inputs, validate_gpio,
}
use mqtt_raspberry_controlle.Config.Validation.Lines.Accepting.{
  passes, Item, accepts, output_item, input_item, accepts_behind, check_outputs-accepts,
  check_inputs-accepts, accepts-Permᴰ,
}

items : Outside → Gpio → List Item
items o gpio = map output_item gpio.outputs ++ map (input_item o) gpio.inputs

nothing_left :
    (r : Result ConfigError (List LineKey)) → passes (r >>= λ _. ok tt) ≡ accepts_behind r []
unfolding accepts accepts_behind passes
nothing_left (ok used) = refl
nothing_left (err e) = refl

inputs_left :
    (o : Outside) (inputs : Dict GpioInput) (r : Result ConfigError (List LineKey))
    → passes (r >>= λ used. check_inputs o used inputs >>= λ _. ok tt)
      ≡ accepts_behind r (map (input_item o) inputs)
unfolding accepts_behind passes
inputs_left o inputs (ok used) =
    nothing_left (check_inputs o used inputs)
    ∙ check_inputs-accepts o used inputs []
    ∙ ap (accepts used) (append-nil (map (input_item o) inputs))
inputs_left o inputs (err e) = refl

-- `validateGPIO` passes exactly where the independent description holds.
validate_gpio-accepts :
    (o : Outside) (gpio : Gpio) → passes (validate_gpio o gpio) ≡ accepts [] (items o gpio)
unfolding validate_gpio items
validate_gpio-accepts o gpio =
    inputs_left o gpio.inputs (check_outputs o [] gpio.outputs)
    ∙ check_outputs-accepts o [] gpio.outputs (map (input_item o) gpio.inputs)

-- The same maps, read in another order.
unfoldable pub Reordered : Gpio → Gpio → Type 0
Reordered g g' = Permᴰ g.outputs g'.outputs × Permᴰ g.inputs g'.inputs

validate_gpio-Reordered :
    (o : Outside) (g g' : Gpio)
    → Reordered g g'
    → passes (validate_gpio o g) ≡ passes (validate_gpio o g')
unfolding items Reordered
validate_gpio-Reordered o g g' (outputs, inputs) =
    let outputs_moved =
      Permᴰ.append_right (map (input_item o) g.inputs) (Permᴰ.map output_item outputs) in
    let inputs_moved =
      Permᴰ.append_left (map output_item g'.outputs) (Permᴰ.map (input_item o) inputs) in
    validate_gpio-accepts o g
    ∙ accepts-Permᴰ (Permᴰ.trans outputs_moved inputs_moved) []
    ∙ sym (validate_gpio-accepts o g')

-- The GPIO section as Go has it: two maps without an order.
abbrev pub Maps : Type 0
Maps = Quot Reordered

-- Whether a GPIO section is accepted, without a view of an order.
accepted : Outside → Maps → Bool
accepted o = Quot.lift Bool-set (λ g. passes (validate_gpio o g)) (validate_gpio-Reordered o)

-- Whether a GPIO section is accepted does not depend on the order in which the two maps are read: where
-- two lists stand for the same maps, `validateGPIO` accepts both or neither.
pub validate_gpio_order :
    (o : Outside) (g g' : Gpio)
    → ◌≡◌ {A = Maps} (Quot.mk g) (Quot.mk g')
    → passes (validate_gpio o g) ≡ passes (validate_gpio o g')
unfolding accepted
validate_gpio_order o g g' same_maps = ap (accepted o) same_maps
