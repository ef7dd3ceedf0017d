-- ===== src/Config/Validation/Lines/Accepting.antt =====
-- config/validation.go: which outputs and inputs `validateGPIO` accepts, described item by item.
use mathlib.Core.List.{Permᴰ}
use mqtt_raspberry_controlle.Base.{
  codes, Bool, true, false, not, ◌&&◌, List, [], ◌∷◌, ◌++◌, map, Bytes, same, same_iff, ◌≡◌, refl,
  ◌∙◌, arith,
}
use mqtt_raspberry_controlle.Base.Int.{ℤ, pos, negsuc, is_negative}
use mqtt_raspberry_controlle.Base.Dict.{Dict}
use mqtt_raspberry_controlle.Base.Result.{Result, ok, err, ◌>>=◌}
use mqtt_raspberry_controlle.Base.Checks.{Check, fail_if, first_error}
use mqtt_raspberry_controlle.Config.{GpioOutput, GpioInput}
use mqtt_raspberry_controlle.Config.Outside.{Outside}
use mqtt_raspberry_controlle.Config.Validation.Errors.{field, ConfigError}
use mqtt_raspberry_controlle.Config.Validation.Names.{id_pattern, optional_duration}
use mqtt_raspberry_controlle.Config.Validation.Lines.{
  input_place, LineKey, same_number, same_line, is_used, output_key, input_key, check_output,
  is_bias, check_input, check_outputs, check_inputs,
}

unfoldable pub passes : {E A : Type 0} → Result E A → Bool
passes (ok _) = true
passes (err _) = false

-- What the validation looks at in an item, without a view of the others: whether its own fields are
-- valid, and its line.
abbrev pub Item : Type 0
Item = Bool × LineKey

-- The independent description: every item is valid and its line is not used before.
unfoldable pub accepts : List LineKey → List Item → Bool
accepts used [] = true
accepts used ((own, key) ∷ items) = (own && not (is_used key used)) && accepts (key ∷ used) items

unfoldable pub output_item : Bytes × GpioOutput → Item
output_item (name, output) = (id_pattern name && not (is_negative output.line), output_key output)

check_output-item :
    (name : Bytes) (output : GpioOutput) (used : List LineKey)
    → passes (check_output name output used)
      ≡ ((output_item (name, output)).0 && not (is_used (output_item (name, output)).1 used))
unfolding check_output fail_if first_error passes output_item
check_output-item name output used = ground arith

module _ (o : Outside) where
  unfoldable pub input_item : Bytes × GpioInput → Item
  input_item (name, input) = (
    id_pattern name
        && (not (is_negative input.line)
            && (is_bias input.bias
                && passes (
                    optional_duration o (field (input_place name) (codes "debounce"))
                      input.debounce))),
    input_key input,
  )

  check_input-item :
      (name : Bytes) (input : GpioInput) (used : List LineKey)
      → passes (check_input o name input used)
        ≡ ((input_item (name, input)).0 && not (is_used (input_item (name, input)).1 used))
  unfolding check_input fail_if first_error passes input_item
  check_input-item name input used = ground arith

-- The items of the rest, behind a loop.
unfoldable pub accepts_behind : Result ConfigError (List LineKey) → List Item → Bool
accepts_behind (ok used) items = accepts used items
accepts_behind (err e) items = false

bound-behind :
    (check : Check ConfigError) (rest : Result ConfigError (List LineKey)) (items : List Item)
    → accepts_behind (check >>= λ _. rest) items ≡ (passes check && accepts_behind rest items)
unfolding accepts_behind passes
bound-behind (ok tt) rest items = refl
bound-behind (err e) rest items = refl

pub check_outputs-accepts :
    (o : Outside) (used : List LineKey) (outputs : Dict GpioOutput) (items : List Item)
    → accepts_behind (check_outputs o used outputs) items
      ≡ accepts used (map output_item outputs ++ items)
unfolding check_outputs accepts accepts_behind output_item output_key
check_outputs-accepts o used [] items = refl
check_outputs-accepts o used ((name, output) ∷ outputs) items =
    bound-behind (check_output name output used) _ items
    ∙ (rw
        (
          check_output-item name output used,
          check_outputs-accepts o (output_key output ∷ used) outputs items,
        )
        refl)

pub check_inputs-accepts :
    (o : Outside) (used : List LineKey) (inputs : Dict GpioInput) (items : List Item)
    → accepts_behind (check_inputs o used inputs) items
      ≡ accepts used (map (input_item o) inputs ++ items)
unfolding check_inputs accepts accepts_behind input_item input_key
check_inputs-accepts o used [] items = refl
check_inputs-accepts o used ((name, input) ∷ inputs) items =
    bound-behind (check_input o name input used) _ items
    ∙ (rw
        (
          check_input-item o name input used,
          check_inputs-accepts o (input_key input ∷ used) inputs items,
        )
        refl)

same_comm : (a b : Bytes) → same a b ≡ same b a
same_comm a b = ground (arith, same_iff a b, same_iff b a)

same_number_comm : (a b : ℤ) → same_number a b ≡ same_number b a
unfolding same_number
same_number_comm (pos a) (pos b) = ground arith
same_number_comm (negsuc a) (negsuc b) = ground arith
same_number_comm (pos a) (negsuc b) = refl
same_number_comm (negsuc a) (pos b) = refl

same_line_comm : (a b : LineKey) → same_line a b ≡ same_line b a
unfolding same_line
same_line_comm (chip, line) (chip', line') =
    rw (same_comm chip chip', same_number_comm line line') refl

-- Two lists of used lines in which the same lines stand.
abbrev SameLines : List LineKey → List LineKey → Type 0
SameLines used used' = (key : LineKey) → is_used key used ≡ is_used key used'

SameLines-cons :
    (key : LineKey) (used used' : List LineKey)
    → SameLines used used'
    → SameLines (key ∷ used) (key ∷ used')
unfolding is_used
SameLines-cons key used used' h other = rw (h other) refl

accepts-SameLines :
    (items : List Item) (used used' : List LineKey)
    → SameLines used used'
    → accepts used items ≡ accepts used' items
unfolding accepts
accepts-SameLines [] used used' h = refl
accepts-SameLines ((own, key) ∷ items) used used' h =
    rw (h key, accepts-SameLines items (key ∷ used) (key ∷ used') (SameLines-cons key used used' h))
      refl

accepts-swap :
    (a b : Item) (items : List Item) (used : List LineKey)
    → accepts used (a ∷ b ∷ items) ≡ accepts used (b ∷ a ∷ items)
unfolding accepts is_used
accepts-swap (own, key) (own', key') items used =
    let rest =
      accepts-SameLines items (key' ∷ key ∷ used) (key ∷ key' ∷ used) λ other. ground arith in
    let comm = same_line_comm key key' in ground (arith, rest, comm)

accepts-cons :
    (a : Item) (xs ys : List Item)
    → ((used : List LineKey) → accepts used xs ≡ accepts used ys)
    → (used : List LineKey) → accepts used (a ∷ xs) ≡ accepts used (a ∷ ys)
unfolding accepts
accepts-cons (own, key) xs ys h used = rw (h (key ∷ used)) refl

pub accepts-Permᴰ :
    {xs ys : List Item} → Permᴰ xs ys → (used : List LineKey) → accepts used xs ≡ accepts used ys
accepts-Permᴰ Permᴰ.nil used = refl
accepts-Permᴰ (Permᴰ.cons {b = b} {l₁ = xs} {l₂ = ys} e p) used =
    rw e (accepts-cons b xs ys (accepts-Permᴰ p) used)
accepts-Permᴰ (Permᴰ.swap {a' = a} {b' = b} {l = xs} e e') used =
    rw (e, e') (accepts-swap b a xs used)
accepts-Permᴰ (Permᴰ.trans p q) used = accepts-Permᴰ p used ∙ accepts-Permᴰ q used
