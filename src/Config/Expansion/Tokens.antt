-- ===== src/Config/Expansion/Tokens.antt =====
-- What `expandValue` of config/expansion.go means, without an index: a value is a list of tokens, and
-- each token stands for some bytes.
use mqtt_raspberry_controlle.Base.{
  ℕ, none, some, true, false, List, [], ◌∷◌, ◌++◌, ◌≡◌, ◌≢◌, Bytes, All,
}
use mqtt_raspberry_controlle.Config.Expansion.{Lookup, valid_environment_name, dollar_brace}

-- A token and how it is spelled: a byte `c`; `$$`; `$` before anything else; `${NAME}`; `${other}`,
-- where `other` is no name; and `${` that no `}` follows, with the rest of the value.
pub data Token : Type 0 where
  byte : ℕ → Token
  escaped : Token
  lone : Token
  variable : Bytes → Token
  literal : Bytes → Token
  open_brace : Bytes → Token

abbrev pub spell : Token → Bytes
spell (byte c) = c ∷ []
spell escaped = b'$' ∷ b'$' ∷ []
spell lone = b'$' ∷ []
spell (variable name) = dollar_brace ++ (name ++ b'}' ∷ [])
spell (literal name) = dollar_brace ++ (name ++ b'}' ∷ [])
spell (open_brace rest) = dollar_brace ++ rest

abbrev pub spell_all : List Token → Bytes
spell_all [] = []
spell_all (t ∷ ts) = spell t ++ spell_all ts

abbrev pub Lacks : ℕ → Bytes → Type 0
Lacks b = All (λ c. c ≢ b)

-- A text in front of which a `$` stands for itself.
abbrev pub PlainNext : Bytes → Type 0
PlainNext [] = Unit {0}
PlainNext (c ∷ _) = (c ≢ b'$') × (c ≢ b'{')

abbrev pub Fits : Token → List Token → Type 0
Fits (byte c) ts = c ≢ b'$'
Fits escaped ts = Unit {0}
Fits lone ts = PlainNext (spell_all ts)
Fits (variable name) ts = Lacks b'}' name × (valid_environment_name name ≡ true)
Fits (literal name) ts = Lacks b'}' name × (valid_environment_name name ≡ false)
Fits (open_brace rest) ts = Lacks b'}' rest × (ts ≡ [])

-- Each token is the one that its spelling reads as, at the place where it stands.
abbrev pub IsReading : List Token → Type 0
IsReading [] = Unit {0}
IsReading (t ∷ ts) = Fits t ts × IsReading ts

-- The pair that the tokens stand for behind the bytes `out`: the text with every variable replaced,
-- or "" and the first variable that is not set.
unfoldable pub meaning : Lookup → List Token → Bytes → Bytes × Bytes
meaning env [] out = (out, [])
meaning env (byte c ∷ ts) out = meaning env ts (out ++ c ∷ [])
meaning env (escaped ∷ ts) out = meaning env ts (out ++ b'$' ∷ [])
meaning env (lone ∷ ts) out = meaning env ts (out ++ b'$' ∷ [])
meaning env (variable name ∷ ts) out = elim (env name) [
  | none ↦ ([], name)
  | some found ↦ meaning env ts (out ++ found)
]
meaning env (literal name ∷ ts) out = meaning env ts (out ++ (dollar_brace ++ (name ++ b'}' ∷ [])))
meaning env (open_brace rest ∷ ts) out = meaning env ts (out ++ (dollar_brace ++ rest))
