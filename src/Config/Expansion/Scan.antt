-- ===== src/Config/Expansion/Scan.antt =====
-- The scanner of config/expansion.go reads tokens.
use mqtt_raspberry_controlle.Base.{
  ℕ, ◌+◌, true, false, none, some, List, [], ◌∷◌, ◌++◌, append_assoc, append-nil, ◌≡◌, ◌≢◌, refl,
  ap, ◌∙◌, inl, inr, arith, Bytes, if◌then◌else◌, take, length, length-append, Option-cases,
}
use mqtt_raspberry_controlle.Config.Expansion.{
  Lookup, valid_environment_name, index_byte, dollar_brace, round, expand_loop, expand_value, Round,
  advance, stop, missing,
}
use mqtt_raspberry_controlle.Config.Expansion.Tokens.{
  Token, byte, escaped, lone, variable, literal, open_brace, spell_all, Lacks, PlainNext, IsReading,
  meaning,
}

index_byte-append :
    (name rest : Bytes)
    → Lacks b'}' name
    → index_byte (name ++ b'}' ∷ rest) b'}' ≡ some (length name)
unfolding index_byte
index_byte-append [] rest _ = refl
index_byte-append (c ∷ name) rest (hc, h) = ground (arith, index_byte-append name rest h)

index_byte-Lacks : (v : Bytes) → Lacks b'}' v → index_byte v b'}' ≡ none
unfolding index_byte
index_byte-Lacks [] _ = refl
index_byte-Lacks (c ∷ v) (hc, h) = ground (arith, index_byte-Lacks v h)

take-append : (xs ys : Bytes) → take (length xs) (xs ++ ys) ≡ xs
take-append [] ys = refl
take-append (x ∷ xs) ys = ap (◌∷◌ x) (take-append xs ys)

loop-skip :
    (env : Lookup) (xs rest out : Bytes)
    → expand_loop env (length xs) (xs ++ rest) out ≡ expand_loop env 0 rest out
unfolding expand_loop
loop-skip env [] rest out = refl
loop-skip env (x ∷ xs) rest out = loop-skip env xs rest out

-- The round at `${name}`, with the closing brace in sight.
abbrev closed : Lookup → Bytes → Round
closed env name =
    if valid_environment_name name
    then elim (env name) [ none ↦ missing name | some found ↦ advance (length name + 2) found ]
    else advance (length name + 2) (dollar_brace ++ (name ++ b'}' ∷ []))

round-closed :
    (env : Lookup) (name rest : Bytes)
    → Lacks b'}' name
    → round env b'$' (b'{' ∷ (name ++ b'}' ∷ rest)) ≡ closed env name
unfolding round
round-closed env name rest h =
    ground (arith, index_byte-append name rest h, take-append name (b'}' ∷ rest))

round-open_brace :
    (env : Lookup) (rest : Bytes)
    → Lacks b'}' rest
    → round env b'$' (b'{' ∷ rest) ≡ stop (dollar_brace ++ rest)
unfolding round
round-open_brace env rest h = ground (arith, index_byte-Lacks rest h)

round-lone :
    (env : Lookup) (rest : Bytes) → PlainNext rest → round env b'$' rest ≡ advance 0 (b'$' ∷ [])
unfolding round
round-lone env [] h = refl
round-lone env (c ∷ rest) h = ground arith

round-byte :
    (env : Lookup) (c : ℕ) (rest : Bytes) → c ≢ b'$' → round env c rest ≡ advance 0 (c ∷ [])
unfolding round
round-byte env c rest h = ground arith

loop-advance :
    (env : Lookup) (c n : ℕ) (rest out written : Bytes)
    → round env c rest ≡ advance n written
    → expand_loop env 0 (c ∷ rest) out ≡ expand_loop env n rest (out ++ written)
unfolding expand_loop
loop-advance env c n rest out written e = rw (e, expand_loop)

loop-stop :
    (env : Lookup) (c : ℕ) (rest out written : Bytes)
    → round env c rest ≡ stop written
    → expand_loop env 0 (c ∷ rest) out ≡ (out ++ written, [])
unfolding expand_loop
loop-stop env c rest out written e = rw (e, expand_loop)

loop-missing :
    (env : Lookup) (c : ℕ) (rest out name : Bytes)
    → round env c rest ≡ missing name
    → expand_loop env 0 (c ∷ rest) out ≡ ([], name)
unfolding expand_loop
loop-missing env c rest out name e = rw (e, expand_loop)

-- Behind `$` the loop jumps over `{name}`.
loop-braces :
    (env : Lookup) (name rest out : Bytes)
    → expand_loop env (length name + 2) (b'{' ∷ (name ++ b'}' ∷ rest)) out
      ≡ expand_loop env 0 rest out
loop-braces env name rest out =
    let jumped = b'{' ∷ (name ++ b'}' ∷ []) in
    let count : length jumped ≡ length name + 2 = omega (arith, length-append name (b'}' ∷ [])) in
    let text : jumped ++ rest ≡ b'{' ∷ (name ++ b'}' ∷ rest) =
      ap (◌∷◌ b'{') (append_assoc name (b'}' ∷ []) rest) in
    rw (← text, ← count) (loop-skip env jumped rest out)

loop-variable :
    (env : Lookup) (name rest out found : Bytes)
    → Lacks b'}' name
    → valid_environment_name name ≡ true
    → env name ≡ some found
    → expand_loop env 0 (b'$' ∷ b'{' ∷ (name ++ b'}' ∷ rest)) out
      ≡ expand_loop env 0 rest (out ++ found)
loop-variable env name rest out found h valid e =
    loop-advance env b'$' (length name + 2) _ out found
      (ground (arith, round-closed env name rest h))
    ∙ loop-braces env name rest _

loop-variable_missing :
    (env : Lookup) (name rest out : Bytes)
    → Lacks b'}' name
    → valid_environment_name name ≡ true
    → env name ≡ none
    → expand_loop env 0 (b'$' ∷ b'{' ∷ (name ++ b'}' ∷ rest)) out ≡ ([], name)
loop-variable_missing env name rest out h valid e =
    loop-missing env b'$' _ out name (ground (arith, round-closed env name rest h))

loop-literal :
    (env : Lookup) (name rest out : Bytes)
    → Lacks b'}' name
    → valid_environment_name name ≡ false
    → expand_loop env 0 (b'$' ∷ b'{' ∷ (name ++ b'}' ∷ rest)) out
      ≡ expand_loop env 0 rest (out ++ (dollar_brace ++ (name ++ b'}' ∷ [])))
loop-literal env name rest out h invalid =
    loop-advance env b'$' (length name + 2) _ out _ (ground (arith, round-closed env name rest h))
    ∙ loop-braces env name rest _

round-escaped : (env : Lookup) (rest : Bytes) → round env b'$' (b'$' ∷ rest) ≡ advance 1 (b'$' ∷ [])
unfolding round
round-escaped env rest = refl

loop-meaning :
    (env : Lookup) (ts : List Token) (out : Bytes)
    → IsReading ts
    → expand_loop env 0 (spell_all ts) out ≡ meaning env ts out
unfolding meaning
loop-meaning env [] out _ = unfold expand_loop in refl
loop-meaning env (byte c ∷ ts) out (f, r) =
    loop-advance env c 0 _ out _ (round-byte env c _ f) ∙ loop-meaning env ts _ r
loop-meaning env (escaped ∷ ts) out (f, r) =
    loop-advance env b'$' 1 _ out _ (round-escaped env (spell_all ts))
    ∙ loop-skip env (b'$' ∷ []) (spell_all ts) _
    ∙ loop-meaning env ts _ r
loop-meaning env (lone ∷ ts) out (f, r) =
    loop-advance env b'$' 0 _ out _ (round-lone env _ f) ∙ loop-meaning env ts _ r
loop-meaning env (variable name ∷ ts) out ((h, valid), r) =
    rw (append_assoc name (b'}' ∷ []) (spell_all ts)) (elim (Option-cases (env name)) [
      | inl e ↦ rw (e, meaning) (loop-variable_missing env name (spell_all ts) out h valid e)
      | inr (found, e) ↦
          rw (e, meaning)
            (loop-variable env name (spell_all ts) out found h valid e
              ∙ loop-meaning env ts (out ++ found) r)
    ])
loop-meaning env (literal name ∷ ts) out ((h, invalid), r) =
    rw (append_assoc name (b'}' ∷ []) (spell_all ts))
      (loop-literal env name (spell_all ts) out h invalid ∙ loop-meaning env ts _ r)
loop-meaning env (open_brace rest ∷ ts) out ((h, e), r) =
    rw (e, append-nil) (loop-stop env b'$' _ out _ (round-open_brace env rest h))

-- Where a list of tokens spells a value in such a way that each token reads as itself, `expandValue`
-- gives the meaning of the tokens: every set variable is replaced once, nothing that was put in is
-- read again, and the first variable that is not set is reported with an empty text.
pub expand_value-spell_all :
    (env : Lookup) (ts : List Token)
    → IsReading ts
    → expand_value env (spell_all ts) ≡ meaning env ts []
unfolding expand_value
expand_value-spell_all env ts r = loop-meaning env ts [] r
