-- ===== src/Base/Checks.antt =====
-- A row of checks of which the first that fails gives the error.
use mathlib.Core.Path.{◌≡◌, refl}
use mathlib.Core.Bool.{Bool, true, false}
use mathlib.Core.List.{List, [], ◌∷◌}
use mqtt_raspberry_controlle.Base.Lists.{All}
use mqtt_raspberry_controlle.Base.Result.{Result, ok, err, ◌>>=◌}

abbrev pub Check : Type 0 → Type 0
Check E = Result E (Unit {0})

module _ {E : Type 0} where
  -- if condition { return err }
  unfoldable pub fail_if : Bool → E → Check E
  fail_if true e = err e
  fail_if false e = ok tt

  -- if err := check; err != nil { return err }, one behind the other
  unfoldable pub first_error : List (Check E) → Check E
  first_error [] = ok tt
  first_error (r ∷ rs) = let rest = first_error rs in elim r [ err e ↦ err e | ok _ ↦ rest ]

  abbrev pub Passed : Check E → Type 0
  Passed r = r ≡ ok tt

  pub first_error-Passed : (rs : List (Check E)) → Passed (first_error rs) → All Passed rs
  unfolding first_error
  first_error-Passed [] h = tt
  first_error-Passed (ok tt ∷ rs) h = (refl, first_error-Passed rs h)
  first_error-Passed (err e ∷ rs) h = cc

  pub none_failed : (rs : List (Check E)) → All Passed rs → Passed (first_error rs)
  unfolding first_error
  none_failed [] h = refl
  none_failed (ok tt ∷ rs) (_, h) = none_failed rs h
  none_failed (err e ∷ rs) (p, h) = cc

  pub not_failed : (c : Bool) (e : E) → Passed (fail_if c e) → c ≡ false
  unfolding fail_if
  not_failed true e h = cc
  not_failed false e h = refl

-- Inversion of a bind on a check.
pub then-Passed :
    {E A : Type 0} (r : Check E) (rest : Result E A) {a : A}
    → (r >>= λ _. rest) ≡ ok a
    → Passed r × (rest ≡ ok a)
then-Passed (ok tt) rest h = (refl, h)
then-Passed (err e) rest h = cc

pub bound_then :
    {E A B : Type 0} (r : Result E A) (rest : A → Result E B) {b : B}
    → (r >>= rest) ≡ ok b
    → (a : A) × (r ≡ ok a) × (rest a ≡ ok b)
bound_then (ok a) rest h = (a, refl, h)
bound_then (err e) rest h = cc

pub ok_injective : {E A : Type 0} (a b : A) → ◌≡◌ {A = Result E A} (ok a) (ok b) → a ≡ b
ok_injective a b h = cc
