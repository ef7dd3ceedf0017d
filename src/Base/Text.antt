-- ===== src/Base/Text.antt =====
-- Go strings as byte lists: literals, equality, the order of sort.Strings, and the operations of
-- the strings package that the program calls.
use Prim.Native.Nat.{ℕ}
use Prim.Native.Char.{code}
use Prim.Native.String.{String}
use mathlib.Core.Path.{◌≡◌, refl}
use mathlib.Core.Logic.{◌↔◌}
use mathlib.Core.Bool.{Bool, true, false, ◌&&◌, ◌||◌}
use mathlib.Core.List.{List, [], ◌∷◌}
use native.Mathlib.Omega.{arith}
use mqtt_raspberry_controlle.Base.Tests.{ltb, ◌==◌, if◌then◌else◌}

abbrev pub Bytes : Type 0
Bytes = List ℕ

-- The code points of a literal: its bytes, since every literal of the program is ASCII.
abbrev pub codes : String → Bytes
codes String.[] = []
codes (String.◌∷◌ c s) = code c ∷ codes s

-- a == b on strings
unfoldable pub same : Bytes → Bytes → Bool
same [] [] = true
same (x ∷ xs) (y ∷ ys) = (x == y) && same xs ys
same _ _ = false

pub same_iff : (a b : Bytes) → (same a b ≡ true) ↔ (a ≡ b)
unfolding same
same_iff [] [] = (λ _. refl, λ _. refl)
same_iff [] (y ∷ ys) = (λ h. cc, λ h. cc)
same_iff (x ∷ xs) [] = (λ h. cc, λ h. cc)
same_iff (x ∷ xs) (y ∷ ys) = ground (arith, same_iff xs ys)

pub same_refl : (a : Bytes) → same a a ≡ true
same_refl a = (same_iff a a).1 refl

-- s == ""
unfoldable pub is_empty {ℓ} : {A : Type ℓ} → List A → Bool
is_empty [] = true
is_empty (_ ∷ _) = false

unfoldable pub contains : List Bytes → Bytes → Bool
contains [] a = false
contains (x ∷ xs) a = same x a || contains xs a

unfoldable pub contains_byte : Bytes → ℕ → Bool
contains_byte [] c = false
contains_byte (x ∷ xs) c = (x == c) || contains_byte xs c

-- strings.ContainsAny(s, chars), for ASCII chars
unfoldable pub contains_any : Bytes → Bytes → Bool
unfolding contains_byte
contains_any [] chars = false
contains_any (x ∷ xs) chars = contains_byte chars x || contains_any xs chars

-- a < b on strings: byte by byte
unfoldable pub less : Bytes → Bytes → Bool
less [] [] = false
less [] (_ ∷ _) = true
less (_ ∷ _) [] = false
less (x ∷ xs) (y ∷ ys) = ltb x y || ((x == y) && less xs ys)

unfoldable pub insert_sorted : Bytes → List Bytes → List Bytes
unfolding less
insert_sorted a [] = a ∷ []
insert_sorted a (x ∷ xs) = if less x a then x ∷ insert_sorted a xs else a ∷ x ∷ xs

-- sort.Strings: equal strings cannot be told apart, so any sorting algorithm gives this list.
unfoldable pub sort_strings : List Bytes → List Bytes
unfolding insert_sorted
sort_strings [] = []
sort_strings (x ∷ xs) = insert_sorted x (sort_strings xs)

pub contains-insert_sorted :
    (a t : Bytes) (xs : List Bytes) → contains (insert_sorted a xs) t ≡ (same a t || contains xs t)
unfolding contains insert_sorted
contains-insert_sorted a t [] = refl
contains-insert_sorted a t (x ∷ xs) = ground (arith, contains-insert_sorted a t xs)

pub contains-sort_strings :
    (t : Bytes) (xs : List Bytes) → contains (sort_strings xs) t ≡ contains xs t
unfolding contains sort_strings
contains-sort_strings t [] = refl
contains-sort_strings t (x ∷ xs) =
    ground (arith, contains-insert_sorted x t (sort_strings xs), contains-sort_strings t xs)
