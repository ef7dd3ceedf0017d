-- ===== src/Config/Expansion/Fields/Items.antt =====
-- config/expansion.go: the walk over the items of a list and the entries of a map.
use mathlib.Core.Option as Option
use mqtt_raspberry_controlle.Base.{
  ℕ, ◌+◌, false, Option, none, some, List, [], ◌∷◌, ◌++◌, Bytes, map, All, arith, same, same_iff,
  same_refl, contains, contains-sort_strings, if◌then◌else◌, sort_strings, ◌≡◌, refl, ap, ◌∙◌,
  Bool-cases, inl, inr,
}
use mqtt_raspberry_controlle.Base.Dict.{Dict, keys, lookup, has, insert, lookup-insert}
use mqtt_raspberry_controlle.Base.Sorting.{Distinct, sort_strings-Distinct}
use mqtt_raspberry_controlle.Config.Expansion.{Lookup}
use mqtt_raspberry_controlle.Config.Expansion.Fields.{
  FieldPath, key, index, Expands, expand_list, expand_names, expand_entry, expand_map,
}
use mqtt_raspberry_controlle.Config.Expansion.Fields.Report.{
  Field, report, report-ok, report-bind, report-done,
}

module _ (env : Lookup) where
  -- A walk of an item: the fields that it visits, and what it makes of the item, for items as they are.
  pub record Walk {V : Type 0} (expand : FieldPath → V → Expands V) : Type 1 where
    pub Regular : V → Type 0
    pub fields : FieldPath → V → List Field
    pub value : V → V
    pub walks :
        (path : FieldPath) (v : V)
        → Regular v
        → expand path v ≡ report env (fields path v) (value v)

  module _ {V : Type 0} {expand : FieldPath → V → Expands V} (walk : Walk expand) where
    unfoldable pub list_fields : FieldPath → ℕ → List V → List Field
    list_fields path i [] = []
    list_fields path i (v ∷ vs) = walk.fields (index path i) v ++ list_fields path (i + 1) vs

    pub expand_list-report :
        (path : FieldPath) (i : ℕ) (vs : List V)
        → All walk.Regular vs
        → expand_list expand path i vs ≡ report env (list_fields path i vs) (map walk.value vs)
    unfolding expand_list list_fields
    expand_list-report path i [] regular = report-ok env []
    expand_list-report path i (v ∷ vs) (this, others) =
        report-bind env (walk.fields (index path i) v) (list_fields path (i + 1) vs) _ _
          (walk.value v) _ (walk.walks (index path i) v this)
          (report-done env _ _ (λ vs'. walk.value v ∷ vs') _
            (expand_list-report path (i + 1) vs others))

    unfoldable pub entry_fields : FieldPath → Bytes → Option V → List Field
    entry_fields path name none = []
    entry_fields path name (some v) = walk.fields (key path name) v

    -- The fields of the entries `names`, as they stand in the map.
    unfoldable pub names_fields : FieldPath → List Bytes → Dict V → List Field
    names_fields path [] m = []
    names_fields path (name ∷ names) m =
        entry_fields path name (lookup name m) ++ names_fields path names m

    unfoldable pub set_entry : Bytes → Option V → Dict V → Dict V
    set_entry name none m = m
    set_entry name (some v) m = insert name (walk.value v) m

    unfoldable pub set_entries : List Bytes → Dict V → Dict V
    set_entries [] m = m
    set_entries (name ∷ names) m = set_entries names (set_entry name (lookup name m) m)

    -- Entries under other names are not touched.
    lookup-set_entry :
        (j name : Bytes) (found : Option V) (m : Dict V)
        → same name j ≡ false
        → lookup j (set_entry name found m) ≡ lookup j m
    unfolding set_entry
    lookup-set_entry j name none m other = refl
    lookup-set_entry j name (some v) m other =
        rw (lookup-insert j name (walk.value v) m, other) refl

    names_fields-set_entry :
        (path : FieldPath) (names : List Bytes) (name : Bytes) (found : Option V) (m : Dict V)
        → contains names name ≡ false
        → names_fields path names (set_entry name found m) ≡ names_fields path names m
    unfolding names_fields contains
    names_fields-set_entry path [] name found m other = refl
    names_fields-set_entry path (j ∷ names) name found m other =
        let apart =
          lookup-set_entry j name found m
            (ground (arith, other, same_iff j name, same_iff name j)) in
        rw (apart, names_fields-set_entry path names name found m (ground (arith, other))) refl

    expand_entry-report :
        (path : FieldPath) (name : Bytes) (found : Option V) (m : Dict V)
        → ((v : V) → walk.Regular v)
        → expand_entry expand path name found m
          ≡ report env (entry_fields path name found) (set_entry name found m)
    unfolding expand_entry entry_fields set_entry
    expand_entry-report path name none m always = report-ok env m
    expand_entry-report path name (some v) m always =
        report-done env _ _ (λ v'. insert name v' m) _ (walk.walks (key path name) v (always v))

    expand_names-report :
        (path : FieldPath) (names : List Bytes) (m : Dict V)
        → ((v : V) → walk.Regular v)
        → Distinct names
        → expand_names expand path names m
          ≡ report env (names_fields path names m) (set_entries names m)
    unfolding expand_names names_fields set_entries
    expand_names-report path [] m always distinct = report-ok env m
    expand_names-report path (name ∷ names) m always (fresh, distinct) =
        let found = lookup name m in
        let m' = set_entry name found m in
        report-bind env (entry_fields path name found) (names_fields path names m) _ _ m' _
          (expand_entry-report path name found m always)
          (expand_names-report path names m' always distinct
            ∙ ap (λ fs. report env fs (set_entries names m'))
                (names_fields-set_entry path names name found m fresh))

    -- The entries of a map, in the order of their names.
    unfoldable pub map_fields : FieldPath → Dict V → List Field
    map_fields path m = names_fields path (sort_strings (keys m)) m

    unfoldable pub map_value : Dict V → Dict V
    map_value m = set_entries (sort_strings (keys m)) m

    pub expand_map-report :
        (path : FieldPath) (m : Dict V)
        → ((v : V) → walk.Regular v)
        → Distinct (keys m)
        → expand_map expand path m ≡ report env (map_fields path m) (map_value m)
    unfolding expand_map map_fields map_value
    expand_map-report path m always distinct =
        expand_names-report path (sort_strings (keys m)) m always
          (sort_strings-Distinct (keys m) distinct)

    lookup-set_entry_same :
        (name : Bytes) (found : Option V) (m : Dict V)
        → lookup name m ≡ found
        → lookup name (set_entry name found m) ≡ Option.map walk.value found
    unfolding set_entry
    lookup-set_entry_same name none m e = e
    lookup-set_entry_same name (some v) m e =
        lookup-insert name name (walk.value v) m ∙ rw (same_refl name) refl

    lookup-set_entries :
        (names : List Bytes) (j : Bytes) (m : Dict V)
        → Distinct names
        → lookup j (set_entries names m)
          ≡ (if contains names j then Option.map walk.value (lookup j m) else lookup j m)
    unfolding set_entries contains
    lookup-set_entries [] j m distinct = refl
    lookup-set_entries (name ∷ names) j m (fresh, distinct) =
        let rest = lookup-set_entries names j (set_entry name (lookup name m) m) distinct in
        elim (Bool-cases (same name j)) [
          | inr e ↦ rest ∙ rw (e, lookup-set_entry j name (lookup name m) m e) refl
          | inl e ↦
              let here = (same_iff name j).0 e in
              rest
              ∙ rw
                  (← here, same_refl name, fresh, lookup-set_entry_same name (lookup name m) m refl)
                  refl
        ]

    keys-contain : (j : Bytes) (m : Dict V) → contains (keys m) j ≡ has j m
    unfolding keys contains has
    keys-contain j [] = refl
    keys-contain j ((k, v) ∷ m) = ground (arith, keys-contain j m)

    missing_stays :
        (j : Bytes) (m : Dict V)
        → (if has j m then Option.map walk.value (lookup j m) else lookup j m)
          ≡ Option.map walk.value (lookup j m)
    unfolding has lookup
    missing_stays j [] = refl
    missing_stays j ((k, v) ∷ m) = elim (Bool-cases (same k j)) [
      | inl e ↦ rw e refl
      | inr e ↦ rw e (missing_stays j m)
    ]

    -- Every entry gets the value of its walk.
    pub lookup-map_value :
        (j : Bytes) (m : Dict V)
        → Distinct (keys m)
        → lookup j (map_value m) ≡ Option.map walk.value (lookup j m)
    unfolding map_value
    lookup-map_value j m distinct =
        let sorted = sort_strings-Distinct (keys m) distinct in
        lookup-set_entries (sort_strings (keys m)) j m sorted
        ∙ rw (contains-sort_strings j (keys m), keys-contain j m) (missing_stays j m)
