-- ===== src/Config/Loading.antt =====
-- config/config.go: `load`. Reading the file and decoding its YAML text, which refuses unknown fields,
-- are functions that it takes.
use mqtt_raspberry_controlle.Base.{Option, none, some, Bytes, ◌≡◌, sym, subst}
use mqtt_raspberry_controlle.Base.Result.{Result, ok, err, ◌>>=◌}
use mqtt_raspberry_controlle.Base.Checks.{Passed, bound_then, then-Passed, ok_injective}
use mqtt_raspberry_controlle.Config.{Config}
use mqtt_raspberry_controlle.Config.Defaults.{apply_defaults, Filled, apply_defaults-Filled}
use mqtt_raspberry_controlle.Config.Expansion.{Lookup}
use mqtt_raspberry_controlle.Config.Expansion.Fields.{ExpandError, expand_environment}
use mqtt_raspberry_controlle.Config.Outside.{Outside}
use mqtt_raspberry_controlle.Config.Validation.{validate}
use mqtt_raspberry_controlle.Config.Validation.Errors.{ConfigError}

pub data LoadError : Type 0 where
  cannot_read_config cannot_decode : LoadError
  cannot_expand : ExpandError → LoadError
  invalid_config : ConfigError → LoadError

or_error : {A : Type 0} → LoadError → Option A → Result LoadError A
or_error e none = err e
or_error e (some a) = ok a

wrap_error : {E A : Type 0} → (E → LoadError) → Result E A → Result LoadError A
wrap_error f (ok a) = ok a
wrap_error f (err e) = err (f e)

module _ (o : Outside) (env : Lookup) (read_file : Bytes → Option Bytes)
    (decode : Bytes → Option Config) where
  unfoldable pub load : Bytes → Result LoadError Config
  unfolding or_error wrap_error
  load path = do
    data_read ← or_error cannot_read_config (read_file path)
    decoded ← or_error cannot_decode (decode data_read)
    expanded ← wrap_error cannot_expand (expand_environment env decoded)
    _ ← wrap_error invalid_config (validate o (apply_defaults expanded))
    ok (apply_defaults expanded)

  -- What is loaded is a decoded configuration with its variables replaced and its defaults filled in.
  pub record Loaded (path : Bytes) (cfg : Config) : Type 0 where
    pub content : Bytes
    pub decoded : Config
    pub expanded : Config
    pub was_read : read_file path ≡ some content
    pub was_decoded : decode content ≡ some decoded
    pub was_expanded : expand_environment env decoded ≡ ok expanded
    pub with_defaults : cfg ≡ apply_defaults expanded

  or_error-ok :
      {A : Type 0} (e : LoadError) (r : Option A) (a : A) → or_error e r ≡ ok a → r ≡ some a
  unfolding or_error
  or_error-ok e none a h = cc
  or_error-ok e (some b) a h = cc

  wrap_error-ok :
      {E A : Type 0} (f : E → LoadError) (r : Result E A) (a : A) → wrap_error f r ≡ ok a → r ≡ ok a
  unfolding wrap_error
  wrap_error-ok f (ok b) a h = cc
  wrap_error-ok f (err e) a h = cc

  -- What `load` returns is valid, complete, and stems from the file.
  pub load-Loaded :
      (path : Bytes) (cfg : Config)
      → load path ≡ ok cfg
      → Passed (validate o cfg) × Filled cfg × Loaded path cfg
  unfolding load
  load-Loaded path cfg h =
      let (content, e1, h1) = bound_then (or_error cannot_read_config (read_file path)) _ h in
      let (decoded, e2, h2) = bound_then (or_error cannot_decode (decode content)) _ h1 in
      let (expanded, e3, h3) =
        bound_then (wrap_error cannot_expand (expand_environment env decoded)) _ h2 in
      let (valid, h4) =
        then-Passed (wrap_error invalid_config (validate o (apply_defaults expanded))) _ h3 in
      let same_config : apply_defaults expanded ≡ cfg = ok_injective _ _ h4 in
      (
        subst (λ c. Passed (validate o c)) same_config
            (wrap_error-ok invalid_config (validate o (apply_defaults expanded)) tt valid),
        subst Filled same_config (apply_defaults-Filled expanded),
        record {
          content = content;
          decoded = decoded;
          expanded = expanded;
          was_read = or_error-ok cannot_read_config (read_file path) content e1;
          was_decoded = or_error-ok cannot_decode (decode content) decoded e2;
          was_expanded = wrap_error-ok cannot_expand (expand_environment env decoded) expanded e3;
          with_defaults = sym same_config;
        },
      )
