-- ===== src/Config/Validation/Files.antt =====
-- config/validation.go: `readBoundedRegularFile` and `MQTTPassword`.
pub mod Bounds
use mathlib.Core.List.{reverse}
use mqtt_raspberry_controlle.Base.{
  ℕ, ◌+◌, ◌*◌, Bool, true, false, not, ◌&&◌, ◌||◌, Option, none, some, List, [], ◌∷◌, Bytes,
  is_empty, contains_byte, ltb, ◌==◌, if◌then◌else◌, take, length,
}
use mqtt_raspberry_controlle.Base.Result.{Result, ok, err, ◌>>=◌}
use mqtt_raspberry_controlle.Base.Checks.{Check, fail_if, first_error}
use mqtt_raspberry_controlle.Config.{Config}
use mqtt_raspberry_controlle.Config.Outside.{Outside, File, FileInfo}
use mqtt_raspberry_controlle.Config.Validation.Errors.{
  ConfigError, cannot_read, not_regular, bad_permissions, too_long, empty_password_file,
  nul_in_password,
}

abbrev pub max_credential_file_size : ℕ
max_credential_file_size = 64 * 1024

-- permissions 0400, 0600 and 0640
unfoldable pub is_private : FileInfo → Bool
is_private info =
    ((info.permissions == 256) || ((info.permissions == 384) || (info.permissions == 416)))
    && not info.special

check_info : Bytes → ℕ → Bool → FileInfo → Check ConfigError
check_info path limit restrictive info = first_error (
    fail_if (not info.is_regular) (not_regular path)
    ∷ fail_if (restrictive && not (is_private info)) (bad_permissions path)
    ∷ fail_if (ltb limit info.size) (too_long path limit)
    ∷ [])

-- io.ReadAll(io.LimitReader(f, limit+1))
read_limited : Bytes → ℕ → File → Result ConfigError Bytes
read_limited path limit f = elim f.content [
  | none ↦ err (cannot_read path)
  | some content ↦
      let b = take (limit + 1) content in
      if ltb limit (length b) then err (too_long path limit) else ok b
]

read_open : Bytes → ℕ → Bool → File → Result ConfigError Bytes
unfolding check_info read_limited
read_open path limit restrictive f = elim f.info [
  | none ↦ err (cannot_read path)
  | some info ↦ do _ ← check_info path limit restrictive info; read_limited path limit f
]

unfoldable pub read_bounded_regular_file : Outside → Bytes → ℕ → Bool → Result ConfigError Bytes
unfolding read_open
read_bounded_regular_file o path limit restrictive = elim (o.open_file path) [
  | none ↦ err (cannot_read path)
  | some f ↦ read_open path limit restrictive f
]

-- `b` with the last byte first: one "\n" is dropped, and one "\r" before it.
drop_newline : Bytes → Bytes
drop_newline [] = []
drop_newline (c ∷ []) = if c == 10 then [] else c ∷ []
drop_newline (c ∷ d ∷ b) = if c == 10 then (if d == 13 then b else d ∷ b) else c ∷ d ∷ b

unfoldable pub trim_newline : Bytes → Bytes
unfolding drop_newline
trim_newline b = reverse (drop_newline (reverse b))

check_password : Bytes → Check ConfigError
check_password b =
    first_error
      (fail_if (is_empty b) empty_password_file ∷ fail_if (contains_byte b 0) nul_in_password ∷ [])

unfoldable pub mqtt_password : Outside → Config → Result ConfigError Bytes
unfolding check_password
mqtt_password o c = if is_empty c.mqtt.password_file then ok c.mqtt.password else do
  b ← read_bounded_regular_file o c.mqtt.password_file max_credential_file_size true
  _ ← check_password (trim_newline b)
  ok (trim_newline b)
