-- ===== src/Base/Sorting.antt =====
-- Lists without repetitions, and their sorting.
use mqtt_raspberry_controlle.Base.Tests.{Bool-cases}
use mqtt_raspberry_controlle.Base.Text.{
  Bytes, same_iff, less, contains, insert_sorted, sort_strings, contains-insert_sorted,
  contains-sort_strings,
}
use mathlib.Core.Path.{◌≡◌, refl, ◌∙◌}
use mathlib.Core.Logic.{inl, inr}
use mathlib.Core.Bool.{false}
use mathlib.Core.List.{List, [], ◌∷◌}
use native.Mathlib.Omega.{arith}

abbrev pub Distinct : List Bytes → Type 0
Distinct [] = Unit {0}
Distinct (t ∷ ts) = (contains ts t ≡ false) × Distinct ts

insert_sorted-Distinct :
    (a : Bytes) (ts : List Bytes)
    → contains ts a ≡ false
    → Distinct ts
    → Distinct (insert_sorted a ts)
unfolding insert_sorted contains
insert_sorted-Distinct a [] new d = (refl, tt)
insert_sorted-Distinct a (t ∷ ts) new (first, d) = elim (Bool-cases (less t a)) [
  | inl e ↦ rw e (
    ground (arith, new, first, contains-insert_sorted a t ts, same_iff a t, same_iff t a),
    insert_sorted-Distinct a ts (ground (arith, new)) d,
  )
  | inr e ↦ rw e (new, (first, d))
]

pub sort_strings-Distinct : (ts : List Bytes) → Distinct ts → Distinct (sort_strings ts)
unfolding sort_strings
sort_strings-Distinct [] d = tt
sort_strings-Distinct (t ∷ ts) (first, d) =
    insert_sorted-Distinct t (sort_strings ts) (contains-sort_strings t ts ∙ first)
      (sort_strings-Distinct ts d)
