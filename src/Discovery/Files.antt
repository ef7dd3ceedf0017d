-- ===== src/Discovery/Files.antt =====
-- controller/discovery.go: `lockDiscoveryState`, `validatePrivateDirectory` and `validatePrivateFile`, which
-- the model of reconciliation takes as calls without an effect on manifest and broker. The system calls
-- act on a state `S`; `none` and `false` are errors.
pub mod Locking
use mqtt_raspberry_controlle.Base.{
  ℕ, ◌+◌, ◌*◌, ◌/◌, ◌%◌, Bool, true, false, not, ◌&&◌, ◌||◌, Option, none, some, Bytes, codes, same,
  ltb, ◌==◌, ◌++◌, if◌then◌else◌, ◌≡◌, refl, ◌∙◌, arith, Bool-cases, Option-cases, inl, inr,
}
use mqtt_raspberry_controlle.Base.Result.{Result, ok, err}

-- What is read of a unix.Stat_t; `permissions` are the lower nine bits of the mode.
pub record UnixStat : Type 0 where
  pub is_directory : Bool
  pub is_regular : Bool
  pub permissions : ℕ
  pub uid : ℕ
  pub size : ℕ

-- `H` is a descriptor. `dir` is filepath.Dir, `clean` filepath.Clean.
pub record FileSystem (H S : Type 0) : Type 0 where
  pub dir : Bytes → Bytes
  pub clean : Bytes → Bytes
  pub euid : ℕ
  pub make_all : Bytes → S → Bool × S
  pub eval_symlinks : Bytes → S → Option Bytes
  pub lstat : Bytes → S → Option UnixStat
  pub open_lock : Bytes → S → Option H × S
  pub fstat : H → S → Option UnixStat
  pub flock : H → S → Bool × S
  pub unlock : H → S → S
  pub close : H → S → S

pub data FileError : Type 0 where
  cannot_create_directory cannot_resolve has_symlinks cannot_stat not_private : FileError
  cannot_open_lock already_locked : FileError

-- mode & 0022 != 0
unfoldable pub is_shared : ℕ → Bool
is_shared permissions = (permissions / 16 % 2 == 1) || (permissions / 2 % 2 == 1)

module _ {H S : Type 0} (fs : FileSystem H S) where
  unfoldable pub validate_private_directory : Bytes → S → Result FileError (Unit {0})
  validate_private_directory path s =
      let path1 = fs.clean path in
      elim (fs.eval_symlinks path1 s) [
        | none ↦ err cannot_resolve
        | some resolved ↦
            if not (same resolved path1) then err has_symlinks else elim (fs.lstat path1 s) [
              | none ↦ err cannot_stat
              | some stat ↦
                  if not stat.is_directory
                    || (is_shared stat.permissions || not (stat.uid == fs.euid))
                  then err not_private
                  else ok tt
            ]
      ]

  unfoldable pub validate_private_file : H → ℕ → S → Result FileError (Unit {0})
  validate_private_file file max_size s = elim (fs.fstat file s) [
    | none ↦ err cannot_stat
    | some stat ↦
        if not stat.is_regular
          || (not (stat.permissions == 384)
              || (not (stat.uid == fs.euid) || (ltb 0 max_size && ltb max_size stat.size)))
        then err not_private
        else ok tt
  ]

  -- Behind unix.Open: the descriptor is closed on an error.
  lock_open : H → S → Result FileError H × S
  lock_open lock s = elim (validate_private_file lock 0 s) [
    | err e ↦ (err e, fs.close lock s)
    | ok _ ↦
        let (locked, s1) = fs.flock lock s in
        if not locked then (err already_locked, fs.close lock s1) else (ok lock, s1)
  ]

  lock_in_directory : Bytes → S → Result FileError H × S
  unfolding lock_open
  lock_in_directory path s = elim (validate_private_directory (fs.dir path) s) [
    | err e ↦ (err e, s)
    | ok _ ↦
        let (opened, s1) = fs.open_lock (path ++ codes ".lock") s in
        elim opened [ none ↦ (err cannot_open_lock, s1) | some lock ↦ lock_open lock s1 ]
  ]

  -- The result is what the function that unlocks closes over.
  unfoldable pub lock_discovery_state : Bytes → S → Result FileError H × S
  unfolding lock_in_directory
  lock_discovery_state path s =
      let (created, s1) = fs.make_all (fs.dir path) s in
      if not created then (err cannot_create_directory, s1) else lock_in_directory path s1

  unfoldable pub unlock_discovery_state : H → S → S
  unlock_discovery_state lock s = fs.close lock (fs.unlock lock s)
