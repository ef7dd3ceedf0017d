-- ===== src/Action/Environment.antt =====
-- action/executor.go: `minimalEnvironment` and `sortedEnvironment`.
use mqtt_raspberry_controlle.Base.{
  false, Option, none, some, List, [], ◌∷◌, ◌++◌, Bytes, codes, same, same_iff, contains,
  contains_byte, contains-sort_strings, ◌==◌, if◌then◌else◌, sort_strings, insert_sorted, less, ◌≡◌,
  refl, ap, ◌∙◌, arith, Bool-cases, Option-cases, inl, inr,
}
use mqtt_raspberry_controlle.Base.Dict.{Dict, keys, lookup, insert, lookup-insert}
use mqtt_raspberry_controlle.Base.Sorting.{Distinct}

unfoldable pub fixed_environment : Dict Bytes
fixed_environment =
    (codes "LANG", codes "C")
    ∷ (codes "LC_ALL", codes "C")
    ∷ (codes "PATH", codes "/usr/local/sbin:/usr/local/bin:/usr/sbin:/usr/bin:/sbin:/bin")
    ∷ []

-- for name, value := range values { environment[name] = value }
unfoldable pub overlay : Dict Bytes → Dict Bytes → Dict Bytes
overlay [] environment = environment
overlay ((name, value) ∷ values) environment = overlay values (insert name value environment)

-- A name that is not in the map reads as "".
value_in : Dict Bytes → Bytes → Bytes
value_in values name = elim (lookup name values) [ none ↦ [] | some value ↦ value ]

entries : Dict Bytes → List Bytes → List Bytes
unfolding value_in
entries values [] = []
entries values (name ∷ names) = (name ++ (b'=' ∷ value_in values name)) ∷ entries values names

unfoldable pub sorted_environment : Dict Bytes → List Bytes
unfolding entries
sorted_environment values = entries values (sort_strings (keys values))

unfoldable pub minimal_environment : Dict Bytes → List Bytes
minimal_environment values = sorted_environment (overlay values fixed_environment)

-- The value behind `name=`, where an entry begins so.
strip_name : Bytes → Bytes → Option Bytes
strip_name [] [] = none
strip_name [] (c ∷ entry) = if c == b'=' then some entry else none
strip_name (n ∷ name) [] = none
strip_name (n ∷ name) (c ∷ entry) =
    let rest = strip_name name entry in if n == c then rest else none

-- What getenv reads: the value of the first entry with the name.
unfoldable pub getenv : Bytes → List Bytes → Option Bytes
unfolding strip_name
getenv name [] = none
getenv name (entry ∷ environment) =
    let later = getenv name environment in
    elim (strip_name name entry) [ some value ↦ some value | none ↦ later ]

strip_name-entry :
    (name key value : Bytes)
    → contains_byte name b'=' ≡ false
    → contains_byte key b'=' ≡ false
    → strip_name name (key ++ (b'=' ∷ value)) ≡ (if same key name then some value else none)
unfolding strip_name contains_byte same
strip_name-entry [] [] value hn hk = refl
strip_name-entry [] (k ∷ key) value hn hk = ground (arith, hk)
strip_name-entry (n ∷ name) [] value hn hk = ground (arith, hn)
strip_name-entry (n ∷ name) (k ∷ key) value hn hk =
    ground
      (arith, hn, hk, strip_name-entry name key value (ground (arith, hn)) (ground (arith, hk)))

-- No name has an equals sign.
abbrev pub Plain : List Bytes → Type 0
Plain [] = Unit {0}
Plain (name ∷ names) = (contains_byte name b'=' ≡ false) × Plain names

getenv-entries :
    (values : Dict Bytes) (name : Bytes) (names : List Bytes)
    → contains_byte name b'=' ≡ false
    → Plain names
    → getenv name (entries values names)
      ≡ (if contains names name then some (value_in values name) else none)
unfolding getenv entries contains
getenv-entries values name [] hn plain = refl
getenv-entries values name (key ∷ names) hn (hk, plain) =
    let first = strip_name-entry name key (value_in values key) hn hk in
    let later = getenv-entries values name names hn plain in
    elim (Bool-cases (same key name)) [
      | inl e ↦
          let same_name : key ≡ name = (same_iff key name).0 e in
          rw (getenv, first, e) (ap (λ k. some (value_in values k)) same_name)
      | inr e ↦ rw (getenv, first, e) later
    ]

insert_sorted-Plain :
    (a : Bytes) (names : List Bytes)
    → contains_byte a b'=' ≡ false
    → Plain names
    → Plain (insert_sorted a names)
unfolding insert_sorted
insert_sorted-Plain a [] ha plain = (ha, tt)
insert_sorted-Plain a (name ∷ names) ha (hn, plain) = elim (Bool-cases (less name a)) [
  | inl e ↦ rw e (hn, insert_sorted-Plain a names ha plain)
  | inr e ↦ rw e (ha, (hn, plain))
]

sort_strings-Plain : (names : List Bytes) → Plain names → Plain (sort_strings names)
unfolding sort_strings
sort_strings-Plain [] plain = tt
sort_strings-Plain (name ∷ names) (hn, plain) =
    insert_sorted-Plain name (sort_strings names) hn (sort_strings-Plain names plain)

insert-Plain :
    (name value : Bytes) (m : Dict Bytes)
    → contains_byte name b'=' ≡ false
    → Plain (keys m)
    → Plain (keys (insert name value m))
unfolding insert keys
insert-Plain name value [] hn plain = (hn, tt)
insert-Plain name value ((k, v) ∷ m) hn (hk, plain) = elim (Bool-cases (same k name)) [
  | inl e ↦ rw e (hn, plain)
  | inr e ↦ rw e (hk, insert-Plain name value m hn plain)
]

overlay-Plain :
    (values m : Dict Bytes) → Plain (keys values) → Plain (keys m) → Plain (keys (overlay values m))
unfolding overlay keys
overlay-Plain [] m _ plain = plain
overlay-Plain ((name, value) ∷ values) m (hn, rest) plain =
    overlay-Plain values (insert name value m) rest (insert-Plain name value m hn plain)

-- What a map of overlaid values gives for a name.
abbrev pub either_value : Option Bytes → Option Bytes → Option Bytes
either_value (some value) old = some value
either_value none old = old

lookup-missing :
    (name : Bytes) (values : Dict Bytes)
    → contains (keys values) name ≡ false
    → lookup name values ≡ none
unfolding lookup keys contains
lookup-missing name [] h = refl
lookup-missing name ((k, v) ∷ values) h = ground (arith, h, lookup-missing name values)

lookup-overlay :
    (name : Bytes) (values m : Dict Bytes)
    → Distinct (keys values)
    → lookup name (overlay values m) ≡ either_value (lookup name values) (lookup name m)
unfolding overlay lookup keys
lookup-overlay name [] m d = refl
lookup-overlay name ((k, v) ∷ values) m (once, d) =
    let rest = lookup-overlay name values (insert k v m) d in
    let inserted = lookup-insert name k v m in
    elim (Bool-cases (same k name)) [
      | inr e ↦ rw (e, rest, inserted, e) refl
      | inl e ↦
          let same_name : k ≡ name = (same_iff k name).0 e in
          let gone : lookup name values ≡ none =
            lookup-missing name values (rw same_name at once) in
          rw (e, rest, inserted, gone, e) refl
    ]

missing-lookup :
    (name : Bytes) (values : Dict Bytes)
    → lookup name values ≡ none
    → contains (keys values) name ≡ false
unfolding lookup keys contains
missing-lookup name [] h = refl
missing-lookup name ((k, v) ∷ values) h = ground (arith, h, missing-lookup name values)

listed-lookup :
    (name : Bytes) (values : Dict Bytes)
    → (if contains (keys values) name then some (value_in values name) else none)
      ≡ lookup name values
unfolding value_in
listed-lookup name values = elim (Option-cases (lookup name values)) [
  | inl e ↦ rw (missing-lookup name values e, e) refl
  | inr (v, e) ↦ elim (Bool-cases (contains (keys values) name)) [
    | inl there ↦ rw (value_in, there, e) refl
    | inr gone ↦ absurd (ground (arith, e, lookup-missing name values gone))
  ]
]

-- In the environment of a command, a variable reads as the value that the action configures for it, else
-- as the fixed value of LANG, LC_ALL and PATH, and no other variable is set; for names without an equals
-- sign, each configured once.
pub getenv-minimal_environment :
    (values : Dict Bytes) (name : Bytes)
    → Distinct (keys values)
    → Plain (keys values)
    → contains_byte name b'=' ≡ false
    → getenv name (minimal_environment values)
      ≡ either_value (lookup name values) (lookup name fixed_environment)
unfolding minimal_environment sorted_environment
getenv-minimal_environment values name d plain hn =
    let m = overlay values fixed_environment in
    let fixed : Plain (keys fixed_environment) =
      unfold keys in
      unfold fixed_environment in unfold contains_byte in (refl, (refl, (refl, tt))) in
    let all = sort_strings-Plain (keys m) (overlay-Plain values fixed_environment plain fixed) in
    getenv-entries m name (sort_strings (keys m)) hn all
    ∙ (ap (λ b. if b then some (value_in m name) else none) (contains-sort_strings name (keys m))
        ∙ (listed-lookup name m ∙ lookup-overlay name values fixed_environment d))
