-- ===== src/Config/Expansion/Fields/Report.antt =====
-- config/expansion.go: what a walk over fields of the configuration reports, against the list of the fields.
use mqtt_raspberry_controlle.Base.{
  Option, none, some, List, [], ◌∷◌, ◌++◌, Bytes, is_empty, append-nil, if◌then◌else◌, ◌≡◌, refl,
  ap, ◌∙◌, Bool-cases, inl, inr,
}
use mqtt_raspberry_controlle.Base.Result.{ok, err, ◌>>=◌}
use mqtt_raspberry_controlle.Config.Expansion.{Lookup, expand_value}
use mqtt_raspberry_controlle.Config.Expansion.Fields.{
  FieldPath, ExpandError, missing_variable, Expands, expand_field,
}

abbrev pub Field : Type 0
Field = FieldPath × Bytes

module _ (env : Lookup) where
  unfoldable pub expanded : Bytes → Bytes
  expanded value = (expand_value env value).0

  -- The error of the first field that names a missing variable.
  unfoldable pub first_missing : List Field → Option ExpandError
  first_missing [] = none
  first_missing ((path, value) ∷ fields) =
      let missing = (expand_value env value).1 in
      let rest = first_missing fields in
      if is_empty missing then rest else some (missing_variable path missing)

  unfoldable pub or_missing : {A : Type 0} → Option ExpandError → A → Expands A
  or_missing none a = ok a
  or_missing (some e) a = err e

  -- `a`, if none of the fields names a missing variable.
  unfoldable pub report : {A : Type 0} → List Field → A → Expands A
  report fields a = or_missing (first_missing fields) a

  pub report-ok : {A : Type 0} (a : A) → ok a ≡ report [] a
  unfolding report or_missing first_missing
  report-ok a = refl

  pub report-bind :
      {A B : Type 0} (fields others : List Field) (r : Expands A) (k : A → Expands B) (a : A)
      (b : B)
      → r ≡ report fields a
      → k a ≡ report others b
      → (r >>= k) ≡ report (fields ++ others) b
  unfolding report or_missing first_missing
  report-bind [] others r k a b e e' = rw e e'
  report-bind ((path, value) ∷ fields) others r k a b e e' =
      elim (Bool-cases (is_empty (expand_value env value).1)) [
        | inl h ↦ rw h (report-bind fields others r k a b (rw h at e) e')
        | inr h ↦ rw (e, h) refl
      ]

  pub report-field :
      {B : Type 0} (path : FieldPath) (value : Bytes) (others : List Field) (k : Bytes → Expands B)
      (b : B)
      → k (expanded value) ≡ report others b
      → (expand_field env path value >>= k) ≡ report ((path, value) ∷ others) b
  unfolding report or_missing first_missing expand_field expanded
  report-field path value others k b e = elim (Bool-cases (is_empty (expand_value env value).1)) [
    | inl h ↦ rw h e
    | inr h ↦ rw h refl
  ]

  pub report-done :
      {A B : Type 0} (fields : List Field) (r : Expands A) (f : A → B) (a : A)
      → r ≡ report fields a
      → (r >>= λ x. ok (f x)) ≡ report fields (f a)
  report-done fields r f a e =
      report-bind fields [] r (λ x. ok (f x)) a (f a) e (report-ok (f a))
      ∙ ap (λ fs. report fs (f a)) (append-nil fields)

  pub expand_field-report :
      (path : FieldPath) (value : Bytes)
      → expand_field env path value ≡ report ((path, value) ∷ []) (expanded value)
  unfolding report or_missing first_missing expand_field expanded
  expand_field-report path value = elim (Bool-cases (is_empty (expand_value env value).1)) [
    | inl h ↦ rw h refl
    | inr h ↦ rw h refl
  ]
