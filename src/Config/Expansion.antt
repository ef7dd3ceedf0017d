-- ===== src/Config/Expansion.antt =====
-- config/expansion.go, the scanner: one left-to-right pass over a value. The index `i` of the loop is
-- the unread suffix together with the number of its bytes that the loop has already jumped over.
pub mod Tokens
pub mod Scan
pub mod Reading
pub mod Fields
use mqtt_raspberry_controlle.Base.{
  ℕ, zero, suc, ◌+◌, Bool, true, false, not, ◌&&◌, ◌||◌, Option, none, some, List, [], ◌∷◌, ◌++◌,
  Bytes, leb, ◌==◌, if◌then◌else◌, take,
}

-- lookupEnvFunc: the value of an environment variable, if it is set
abbrev pub Lookup : Type 0
Lookup = Bytes → Option Bytes

unfoldable pub is_ascii_letter : ℕ → Bool
is_ascii_letter c = (leb b'A' c && leb c b'Z') || (leb b'a' c && leb c b'z')

unfoldable pub is_name_byte : ℕ → Bool
unfolding is_ascii_letter
is_name_byte c = is_ascii_letter c || (leb b'0' c && leb c b'9') || (c == b'_')

unfoldable pub all_name_bytes : Bytes → Bool
unfolding is_name_byte
all_name_bytes [] = true
all_name_bytes (c ∷ rest) = if is_name_byte c then all_name_bytes rest else false

unfoldable pub valid_environment_name : Bytes → Bool
unfolding all_name_bytes is_ascii_letter
valid_environment_name [] = false
valid_environment_name (c ∷ rest) =
    if not (is_ascii_letter c) && not (c == b'_') then false else all_name_bytes rest

-- strings.IndexByte; `none` is its -1
pub index_byte : Bytes → ℕ → Option ℕ
index_byte [] c = none
index_byte (x ∷ xs) c =
    if x == c then some 0 else elim (index_byte xs c) [ none ↦ none | some n ↦ some (n + 1) ]

-- What one round of the loop does: it writes bytes and jumps over `n` bytes behind the first one,
-- or writes the rest and leaves the loop, or finds a variable that is not set.
pub data Round : Type 0 where
  advance : ℕ → Bytes → Round
  stop : Bytes → Round
  missing : Bytes → Round

abbrev pub dollar_brace : Bytes
dollar_brace = b'$' ∷ b'{' ∷ []

-- `rest` is value[i+2:], behind the two bytes `${`.
braced : Lookup → Bytes → Round
unfolding valid_environment_name index_byte
braced env rest = elim (index_byte rest b'}') [
  | none ↦ stop (dollar_brace ++ rest)
  | some offset ↦
      let name = take offset rest in
      if not (valid_environment_name name)
      then advance (offset + 2) (dollar_brace ++ (name ++ b'}' ∷ []))
      else elim (env name) [ none ↦ missing name | some found ↦ advance (offset + 2) found ]
]

-- `rest` is value[i+1:], behind a dollar.
dollar : Lookup → Bytes → Round
unfolding braced
dollar env [] = advance 0 (b'$' ∷ [])
dollar env (d ∷ rest) =
    if d == b'$'
    then advance 1 (b'$' ∷ [])
    else if not (d == b'{')
    then advance 0 (b'$' ∷ [])
    else braced env rest

round : Lookup → ℕ → Bytes → Round
unfolding dollar
round env c rest = if c == b'$' then dollar env rest else advance 0 (c ∷ [])

-- The result is the source's pair (expanded, missing); `missing` is "" where nothing is missing.
expand_loop : Lookup → ℕ → Bytes → Bytes → Bytes × Bytes
expand_loop env skip [] out = (out, [])
expand_loop env (suc skip) (c ∷ rest) out = expand_loop env skip rest out
expand_loop env zero (c ∷ rest) out = elim (round env c rest) [
  | advance n written ↦ expand_loop env n rest (out ++ written)
  | stop written ↦ (out ++ written, [])
  | missing name ↦ ([], name)
]

unfoldable pub expand_value : Lookup → Bytes → Bytes × Bytes
unfolding expand_loop round
expand_value env value = expand_loop env 0 value []
