-- ===== src/Config/Outside.antt =====
-- What config/validation.go asks of the machine and of the parsers of the standard library. `none` is
-- an error.
use mqtt_raspberry_controlle.Base.{ℕ, ◌%◌, ◌/◌, Bool, ◌||◌, Option, Bytes, ◌==◌}
use mqtt_raspberry_controlle.Base.Int.{ℤ}

-- What the validation reads of a *url.URL; `has_user` says that User is not nil.
pub record Url : Type 0 where
  pub scheme : Bytes
  pub has_user : Bool
  pub host : Bytes
  pub hostname : Bytes
  pub port : Bytes
  pub path : Bytes
  pub raw_path : Bytes
  pub raw_query : Bytes
  pub force_query : Bool
  pub fragment : Bytes

-- `special` says that one of the bits setuid, setgid and sticky is set.
pub record FileInfo : Type 0 where
  pub is_regular : Bool
  pub is_dir : Bool
  pub permissions : ℕ
  pub special : Bool
  pub size : ℕ

-- An open file: what Stat gives, and what reading it to its end gives.
pub record File : Type 0 where
  pub info : Option FileInfo
  pub content : Option Bytes

pub record Outside : Type 0 where
  pub parse_duration : Bytes → Option ℤ
  pub parse_url : Bytes → Option Url
  -- net.ParseIP, and IsLoopback of the address
  pub parse_ip : Bytes → Option Bool
  pub stat : Bytes → Option FileInfo
  pub open_file : Bytes → Option File
  -- AppendCertsFromPEM and X509KeyPair, true on success
  pub append_certs : Bytes → Bool
  pub key_pair : Bytes → Bytes → Bool

-- mode.Perm() & 0111 != 0
pub is_executable : FileInfo → Bool
is_executable info =
    (info.permissions % 2 == 1)
    || ((info.permissions / 8 % 2 == 1) || (info.permissions / 64 % 2 == 1))
