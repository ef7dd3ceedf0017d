-- ===== src/Base/Dict.antt =====
-- A Go map with string keys, as an association list. Where the program ranges over a map, the order
-- of the list is the order of that iteration, and a theorem about every list is one about every order.
use mathlib.Core.Path.{◌≡◌, refl}
use mathlib.Core.List.{List, [], ◌∷◌}
use mathlib.Core.Option.{Option, none, some}
use mathlib.Core.Bool.{Bool, true, false}
use native.Mathlib.Omega.{arith}
use mathlib.Core.Logic.{inl, inr}
use mqtt_raspberry_controlle.Base.Tests.{if◌then◌else◌, Bool-cases}
use mqtt_raspberry_controlle.Base.Text.{Bytes, same, same_iff}

abbrev pub Dict {ℓ} : Type ℓ → Type ℓ
Dict V = List (Bytes × V)

module _ {ℓ} {V : Type ℓ} where
  unfoldable pub keys : Dict V → List Bytes
  keys [] = []
  keys ((k, _) ∷ m) = k ∷ keys m

  -- v, ok := m[k]
  unfoldable pub lookup : Bytes → Dict V → Option V
  lookup k [] = none
  lookup k ((j, v) ∷ m) = if same j k then some v else lookup k m

  -- _, ok := m[k]
  unfoldable pub has : Bytes → Dict V → Bool
  has k [] = false
  has k ((j, _) ∷ m) = if same j k then true else has k m

  -- m[k] = v
  unfoldable pub insert : Bytes → V → Dict V → Dict V
  insert k v [] = (k, v) ∷ []
  insert k v ((j, w) ∷ m) = if same j k then (k, v) ∷ m else (j, w) ∷ insert k v m

  -- delete(m, k)
  unfoldable pub erase : Bytes → Dict V → Dict V
  erase k [] = []
  erase k ((j, w) ∷ m) = let rest = erase k m in if same j k then rest else (j, w) ∷ rest

  pub lookup-insert :
      (j k : Bytes) (v : V) (m : Dict V)
      → lookup j (insert k v m) ≡ (if same k j then some v else lookup j m)
  unfolding lookup insert
  lookup-insert j k v [] = refl
  lookup-insert j k v ((i, w) ∷ m) =
      ground (arith, same_iff k j, same_iff i k, same_iff i j, lookup-insert j k v m)

  pub lookup-erase :
      (j k : Bytes) (m : Dict V) → lookup j (erase k m) ≡ (if same k j then none else lookup j m)
  unfolding lookup erase
  lookup-erase j k [] = ground arith
  lookup-erase j k ((i, w) ∷ m) =
      ground (arith, same_iff k j, same_iff i k, same_iff i j, lookup-erase j k m)

  pub has-insert :
      (j k : Bytes) (v : V) (m : Dict V)
      → has j (insert k v m) ≡ (if same k j then true else has j m)
  unfolding has insert
  has-insert j k v [] = refl
  has-insert j k v ((i, w) ∷ m) =
      ground (arith, same_iff k j, same_iff i k, same_iff i j, has-insert j k v m)

  pub lookup-has : (k : Bytes) (m : Dict V) → has k m ≡ true → (v : V) × (lookup k m ≡ some v)
  unfolding lookup has
  lookup-has k [] h = cc
  lookup-has k ((j, v) ∷ m) h = elim (Bool-cases (same j k)) [
    | inl e ↦ (v, rw e)
    | inr e ↦ rw e (lookup-has k m (rw e at h))
  ]
