-- ===== src/Config/Validation/Files/Bounds.antt =====
-- What a file that is read gives at most.
use mqtt_raspberry_controlle.Base.{
  ℕ, zero, suc, ◌+◌, ◌≤◌, ◌<◌, [], ◌∷◌, refl, sym, ◌∙◌, not, ◌||◌, Bool, true, false, some, Bytes,
  is_empty, contains_byte, length, take, ltb, ◌≡◌, ap, arith, Option-cases, Bool-cases, inl, inr,
}
use mqtt_raspberry_controlle.Base.Result.{ok}
use mqtt_raspberry_controlle.Base.Checks.{
  Passed, first_error-Passed, not_failed, then-Passed, bound_then, ok_injective,
}
use mqtt_raspberry_controlle.Config.{Config}
use mqtt_raspberry_controlle.Config.Outside.{Outside, File, FileInfo}
use mqtt_raspberry_controlle.Config.Validation.Files.{
  is_private, check_info, read_limited, read_open, read_bounded_regular_file,
  max_credential_file_size, trim_newline, check_password, mqtt_password,
}

-- What is read is the whole content of a regular file, which is private where that is asked for.
pub record Readable (o : Outside) (path : Bytes) (restrictive : Bool) (b : Bytes) : Type 0 where
  pub file : File
  pub info : FileInfo
  pub opened : o.open_file path ≡ some file
  pub known : file.info ≡ some info
  pub regular : info.is_regular ≡ true
  pub whole : file.content ≡ some b
  pub private_file : (not restrictive || is_private info) ≡ true

-- A text that is cut off within its limit is whole.
take_all : (n : ℕ) (b : Bytes) → length (take n b) < n → take n b ≡ b
take_all zero b h = elim h [ ]
take_all (suc n) [] h = refl
take_all (suc n) (c ∷ b) h = ap (λ t. c ∷ t) (take_all n b (omega arith))

read_limited_bound :
    (path : Bytes) (limit : ℕ) (f : File) (b : Bytes)
    → read_limited path limit f ≡ ok b
    → (length b ≤ limit) × (f.content ≡ some b)
unfolding read_limited
read_limited_bound path limit f b h = elim (Option-cases f.content) [
  | inl e ↦ absurd (ground (arith, h, e))
  | inr (content, e) ↦ elim (Bool-cases (ltb limit (length (take (limit + 1) content)))) [
    | inl long ↦ absurd (ground (arith, h, e, long))
    | inr short ↦
        let same_bytes : take (limit + 1) content ≡ b = ground (arith, h, e, short) in
        (
          ground (arith, short, ap length same_bytes),
          e ∙ ap some (sym (take_all (limit + 1) content (ground (arith, short))) ∙ same_bytes),
        )
  ]
]

check_info_private :
    (path : Bytes) (limit : ℕ) (restrictive : Bool) (info : FileInfo)
    → Passed (check_info path limit restrictive info)
    → (info.is_regular ≡ true) × ((not restrictive || is_private info) ≡ true)
unfolding check_info
check_info_private path limit restrictive info h =
    let regular = not_failed _ _ (first_error-Passed _ h).0 in
    let private_file = not_failed _ _ (first_error-Passed _ h).1.0 in
    (ground (arith, regular), ground (arith, private_file))

read_open_checked :
    (o : Outside) (path : Bytes) (limit : ℕ) (restrictive : Bool) (f : File) (b : Bytes)
    → o.open_file path ≡ some f
    → read_open path limit restrictive f ≡ ok b
    → (length b ≤ limit) × Readable o path restrictive b
unfolding read_open
read_open_checked o path limit restrictive f b opened h = elim (Option-cases f.info) [
  | inl e ↦ absurd (ground (arith, rw (e, read_open) at h))
  | inr (info, e) ↦
      let (checked, h1) =
        then-Passed (check_info path limit restrictive info) (read_limited path limit f)
          (rw (e, read_open) at h) in
      let (regular, private_file) = check_info_private path limit restrictive info checked in
      (
        (read_limited_bound path limit f b h1).0,
        record {
          file = f;
          info = info;
          opened = opened;
          known = e;
          whole = (read_limited_bound path limit f b h1).1;
          regular = regular;
          private_file = private_file;
        },
      )
]

read_bounded_regular_file-Readable :
    (o : Outside) (path : Bytes) (limit : ℕ) (restrictive : Bool) (b : Bytes)
    → read_bounded_regular_file o path limit restrictive ≡ ok b
    → (length b ≤ limit) × Readable o path restrictive b
unfolding read_bounded_regular_file
read_bounded_regular_file-Readable o path limit restrictive b h =
    elim (Option-cases (o.open_file path)) [
      | inl e ↦ absurd (ground (arith, rw (e, read_bounded_regular_file) at h))
      | inr (f, e) ↦
          read_open_checked o path limit restrictive f b e (rw (e, read_bounded_regular_file) at h)
    ]

check_password_usable :
    (b : Bytes) → Passed (check_password b) → (is_empty b ≡ false) × (contains_byte b 0 ≡ false)
unfolding check_password
check_password_usable b h =
    (not_failed _ _ (first_error-Passed _ h).0, not_failed _ _ (first_error-Passed _ h).1.0)

-- A password that comes from a file is the whole text of the file, which is a regular and private one of
-- at most 64 KiB, less a newline at its end; it is not empty and has no NUL byte.
pub mqtt_password_usable :
    (o : Outside) (c : Config) (password : Bytes)
    → is_empty c.mqtt.password_file ≡ false
    → mqtt_password o c ≡ ok password
    → (is_empty password ≡ false)
      × (contains_byte password 0 ≡ false)
      × ((b : Bytes) × (trim_newline b ≡ password)
          × (length b ≤ max_credential_file_size)
          × Readable o c.mqtt.password_file true b)
unfolding mqtt_password
mqtt_password_usable o c password from_file h =
    let (b, read, h1) =
      bound_then (read_bounded_regular_file o c.mqtt.password_file max_credential_file_size true) _
        (rw from_file at h) in
    let (checked, h2) = then-Passed (check_password (trim_newline b)) _ h1 in
    let same_text = ok_injective (trim_newline b) password h2 in
    let (filled, no_nul) = check_password_usable (trim_newline b) checked in
    let (small, readable) =
      read_bounded_regular_file-Readable o c.mqtt.password_file max_credential_file_size true b
        read in
    (rw same_text at filled, rw same_text at no_nul, (b, same_text, small, readable))
