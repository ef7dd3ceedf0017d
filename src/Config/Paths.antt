-- ===== src/Config/Paths.antt =====
-- filepath.IsAbs and filepath.Clean on Unix, as config/validation.go uses them: `clean` is only called
-- on a path that begins with a slash.
use mathlib.Core.List.{reverse}
use mqtt_raspberry_controlle.Base.{
  Bool, false, ◌||◌, List, [], ◌∷◌, Bytes, codes, same, is_empty, ◌==◌, if◌then◌else◌,
}
use mqtt_raspberry_controlle.Discovery.Topics.{split_slashes, join_slashes}

unfoldable pub is_abs : Bytes → Bool
is_abs [] = false
is_abs (c ∷ _) = c == b'/'

drop_last : List Bytes → List Bytes
drop_last [] = []
drop_last (_ ∷ kept) = kept

-- `kept` holds the elements that are kept, the last one first.
clean_parts : List Bytes → List Bytes → List Bytes
unfolding drop_last
clean_parts kept [] = kept
clean_parts kept (part ∷ parts) =
    clean_parts
      (if is_empty part || same part (codes ".")
        then kept
        else if same part (codes "..")
        then drop_last kept
        else part ∷ kept)
      parts

unfoldable pub clean : Bytes → Bytes
unfolding clean_parts
clean path = b'/' ∷ join_slashes (reverse (clean_parts [] (split_slashes path)))
