-- ===== src/Base/Space.antt =====
-- strings.TrimSpace and strings.ToUpper on UTF-8 bytes. Of the letters outside ASCII `to_upper` turns only
-- those into capitals whose capital is an ASCII letter (U+0131 and U+017F), since its result is compared
-- with ASCII words only.
use mathlib.Core.List.{reverse}
use Prim.Native.Nat.{ℕ, ◌+◌, ◌-◌}
use mathlib.Core.Bool.{Bool, true, false, ◌&&◌, ◌||◌}
use mathlib.Core.List.{[], ◌∷◌}
use mqtt_raspberry_controlle.Base.Tests.{leb, ◌==◌, if◌then◌else◌}
use mqtt_raspberry_controlle.Base.Text.{Bytes}

-- The bytes of the white space that a text begins with: none, or one, two or three.
is_ascii_space : ℕ → Bool
is_ascii_space c = (leb 9 c && leb c 13) || (c == 32)

is_space_2 : ℕ → ℕ → Bool
is_space_2 a b = (a == 0xC2) && ((b == 0x85) || (b == 0xA0))

is_space_3 : ℕ → ℕ → ℕ → Bool
is_space_3 a b c =
    ((a == 0xE1) && ((b == 0x9A) && (c == 0x80)))
    || (((a == 0xE2)
          && (((b == 0x80)
                && ((leb 0x80 c && leb c 0x8A) || ((c == 0xA8) || ((c == 0xA9) || (c == 0xAF)))))
              || ((b == 0x81) && (c == 0x9F))))
        || ((a == 0xE3) && ((b == 0x80) && (c == 0x80))))

-- The loop drops white space from the front; `flip` says that the bytes come in reverse order.
drop_space : Bool → Bytes → Bytes
unfolding is_ascii_space is_space_2 is_space_3
drop_space flip [] = []
drop_space flip (a ∷ []) = if is_ascii_space a then [] else a ∷ []
drop_space flip (a ∷ b ∷ []) =
    let one = drop_space flip (b ∷ []) in
    if is_ascii_space a
    then one
    else if (if flip then is_space_2 b a else is_space_2 a b)
    then []
    else a ∷ b ∷ []
drop_space flip (a ∷ b ∷ c ∷ rest) =
    let one = drop_space flip (b ∷ c ∷ rest) in
    let two = drop_space flip (c ∷ rest) in
    let three = drop_space flip rest in
    if is_ascii_space a
    then one
    else if (if flip then is_space_2 b a else is_space_2 a b)
    then two
    else if (if flip then is_space_3 c b a else is_space_3 a b c)
    then three
    else a ∷ b ∷ c ∷ rest

-- strings.TrimSpace
unfoldable pub trim_space : Bytes → Bytes
unfolding drop_space
trim_space s = reverse (drop_space true (reverse (drop_space false s)))

upper_byte : ℕ → ℕ
upper_byte c = if leb b'a' c && leb c b'z' then c - 32 else c

lower_byte : ℕ → ℕ
lower_byte c = if leb b'A' c && leb c b'Z' then c + 32 else c

-- strings.ToLower on ASCII
unfoldable pub to_lower : Bytes → Bytes
unfolding lower_byte
to_lower [] = []
to_lower (a ∷ rest) = lower_byte a ∷ to_lower rest

-- The ASCII text that strings.EqualFold compares as equal: beside the capitals, U+017F stands for `s` and
-- U+212A for `k`.
unfoldable pub fold_case : Bytes → Bytes
unfolding lower_byte
fold_case [] = []
fold_case (a ∷ []) = lower_byte a ∷ []
fold_case (a ∷ b ∷ []) =
    let one = fold_case (b ∷ []) in
    if (a == 0xC5) && (b == 0xBF) then b's' ∷ [] else lower_byte a ∷ one
fold_case (a ∷ b ∷ c ∷ rest) =
    let one = fold_case (b ∷ c ∷ rest) in
    let two = fold_case (c ∷ rest) in
    let three = fold_case rest in
    if (a == 0xC5) && (b == 0xBF)
    then b's' ∷ two
    else if (a == 0xE2) && ((b == 0x84) && (c == 0xAA))
    then b'k' ∷ three
    else lower_byte a ∷ one

-- strings.ToUpper
unfoldable pub to_upper : Bytes → Bytes
unfolding upper_byte
to_upper [] = []
to_upper (a ∷ []) = upper_byte a ∷ []
to_upper (a ∷ b ∷ rest) =
    let one = to_upper (b ∷ rest) in
    let two = to_upper rest in
    if (a == 0xC4) && (b == 0xB1)
    then b'I' ∷ two
    else if (a == 0xC5) && (b == 0xBF)
    then b'S' ∷ two
    else upper_byte a ∷ one
