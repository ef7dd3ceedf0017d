-- ===== src/Config/Expansion/Reading.antt =====
-- Every value of a configuration field is spelled by tokens; `$$` quotes any text.
use native.Mathlib.Decide.{ℕ_discrete}
use mqtt_raspberry_controlle.Base.{
  ℕ, zero, suc, ◌≤◌, List, [], ◌∷◌, ◌++◌, append_assoc, append-nil, ◌≡◌, refl, sym, ap, ◌∙◌, ◌⊎◌,
  inl, inr, arith, Bytes, if◌then◌else◌, ◌==◌, length, length-append, Bool-cases,
}
use mqtt_raspberry_controlle.Config.Expansion.{
  Lookup, valid_environment_name, dollar_brace, expand_value,
}
use mqtt_raspberry_controlle.Config.Expansion.Tokens.{
  Token, byte, escaped, lone, variable, literal, open_brace, spell_all, Lacks, IsReading, meaning,
}
use mqtt_raspberry_controlle.Config.Expansion.Scan.{expand_value-spell_all}

-- A text has no `}`, or splits at its first one.
split_brace :
    (v : Bytes)
    → Lacks b'}' v ⊎ ((name : Bytes) × (rest : Bytes) × Lacks b'}' name × (name ++ b'}' ∷ rest ≡ v))
split_brace [] = inl tt
split_brace (c ∷ v) = elim (ℕ_discrete c b'}') [
  | yes e ↦ inr ([], v, tt, rw e)
  | no d ↦ elim (split_brace v) [
    | inl h ↦ inl (d, h)
    | inr (name, rest, h, e) ↦ inr (c ∷ name, rest, (d, h), ap (◌∷◌ c) e)
  ]
]

Reading : Bytes → Type 0
Reading v = (ts : List Token) × IsReading ts × (spell_all ts ≡ v)

module _ (n : ℕ) (read : (w : Bytes) → length w ≤ n → Reading w) where
  read_braces : (v : Bytes) → length v ≤ n → Reading (b'$' ∷ b'{' ∷ v)
  unfolding Reading
  read_braces v bound = elim (split_brace v) [
    | inl h ↦ (open_brace v ∷ [], ((h, refl), tt), rw append-nil)
    | inr (name, rest, h, e) ↦
        let (ts, r, e') =
          read rest (omega (arith, ap length e, length-append name (b'}' ∷ rest))) in
        let text : (name ++ b'}' ∷ []) ++ spell_all ts ≡ v =
          append_assoc name (b'}' ∷ []) (spell_all ts) ∙ rw e' e in
        elim (Bool-cases (valid_environment_name name)) [
          | inl valid ↦ (variable name ∷ ts, ((h, valid), r), ap (◌++◌ dollar_brace) text)
          | inr invalid ↦ (literal name ∷ ts, ((h, invalid), r), ap (◌++◌ dollar_brace) text)
        ]
  ]

  read_dollar : (v : Bytes) → length v ≤ n → Reading (b'$' ∷ v)
  unfolding Reading
  read_dollar [] bound = (lone ∷ [], (tt, tt), refl)
  read_dollar (d ∷ v) bound = elim (ℕ_discrete d b'$') [
    | yes e ↦ let (ts, r, e') = read v (omega arith) in (escaped ∷ ts, (tt, r), rw (e, e'))
    | no not_dollar ↦ elim (ℕ_discrete d b'{') [
      | yes e ↦ rw e (read_braces v (omega arith))
      | no not_brace ↦
          let (ts, r, e') = read (d ∷ v) bound in
          (lone ∷ ts, (rw e' (not_dollar, not_brace), r), ap (◌∷◌ b'$') e')
    ]
  ]

reading : (n : ℕ) (v : Bytes) → length v ≤ n → Reading v
unfolding Reading
reading n [] _ = ([], tt, refl)
reading zero (c ∷ v) h = absurd (omega arith)
reading (suc n) (c ∷ v) h = elim (ℕ_discrete c b'$') [
  | yes e ↦ rw e (read_dollar n (reading n) v (omega arith))
  | no d ↦ let (ts, r, e) = reading n v (omega arith) in (byte c ∷ ts, (d, r), ap (◌∷◌ c) e)
]

-- Every value is read: it is spelled by tokens that read as themselves, and `expandValue` gives their
-- meaning, under every environment.
pub expand_value_total :
    (env : Lookup) (v : Bytes)
    → (ts : List Token) × IsReading ts
      × (spell_all ts ≡ v)
      × (expand_value env v ≡ meaning env ts [])
unfolding Reading
expand_value_total env v =
    let (ts, r, e) = reading (length v) v (omega arith) in
    (ts, r, e, sym (ap (expand_value env) e) ∙ expand_value-spell_all env ts r)

-- The text with every `$` doubled.
pub quote : Bytes → Bytes
quote [] = []
quote (c ∷ v) = let rest = quote v in if c == b'$' then b'$' ∷ b'$' ∷ rest else c ∷ rest

quote_tokens : Bytes → List Token
quote_tokens [] = []
quote_tokens (c ∷ v) = (if c == b'$' then escaped else byte c) ∷ quote_tokens v

quote_tokens-IsReading : (v : Bytes) → IsReading (quote_tokens v)
unfolding quote_tokens
quote_tokens-IsReading [] = tt
quote_tokens-IsReading (c ∷ v) = ground (arith, quote_tokens-IsReading v)

spell_all-quote_tokens : (v : Bytes) → spell_all (quote_tokens v) ≡ quote v
unfolding quote_tokens quote
spell_all-quote_tokens [] = refl
spell_all-quote_tokens (c ∷ v) = ground (arith, spell_all-quote_tokens v)

meaning-quote_tokens :
    (env : Lookup) (v out : Bytes) → meaning env (quote_tokens v) out ≡ (out ++ v, [])
unfolding meaning quote_tokens
meaning-quote_tokens env [] out = rw append-nil
meaning-quote_tokens env (c ∷ v) out =
    ground (arith, meaning-quote_tokens env v (out ++ c ∷ []), append_assoc out (c ∷ []) v)

-- A text with every `$` doubled expands to the text itself, under every environment, and nothing is
-- reported as missing.
pub expand_value-quote : (env : Lookup) (v : Bytes) → expand_value env (quote v) ≡ (v, [])
expand_value-quote env v =
    sym (ap (expand_value env) (spell_all-quote_tokens v))
    ∙ expand_value-spell_all env (quote_tokens v) (quote_tokens-IsReading v)
    ∙ meaning-quote_tokens env v []
