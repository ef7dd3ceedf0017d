-- ===== src/Discovery/Files/Locking.antt =====
-- Locking the discovery state leaves no descriptor open where it fails.
use mqtt_raspberry_controlle.Base.{
  ℕ, suc, ◌+◌, ◌-◌, none, some, Bytes, codes, ◌++◌, ◌≡◌, refl, arith, Bool-cases, Option-cases, ◌⊎◌,
  inl, inr,
}
use mqtt_raspberry_controlle.Base.Result.{Result, ok, err}
use mqtt_raspberry_controlle.Discovery.Files.{
  FileSystem, FileError, validate_private_directory, validate_private_file, lock_open,
  lock_in_directory, lock_discovery_state,
}

-- How the calls change the number of open descriptors.
pub record Laws {H S : Type 0} (fs : FileSystem H S) (open_files : S → ℕ) : Type 0 where
  pub make_keeps : (d : Bytes) (s : S) → open_files (fs.make_all d s).1 ≡ open_files s
  pub opened :
      (p : Bytes) (s : S)
      → open_files (fs.open_lock p s).1
        ≡ (elim (fs.open_lock p s).0 [ none ↦ open_files s | some _ ↦ suc (open_files s) ])
  pub flock_keeps : (h : H) (s : S) → open_files (fs.flock h s).1 ≡ open_files s
  pub unlock_keeps : (h : H) (s : S) → open_files (fs.unlock h s) ≡ open_files s
  pub closed : (h : H) (s : S) → open_files (fs.close h s) ≡ open_files s - 1

-- Whether it has locked.
unfoldable pub locked_files : {H : Type 0} → Result FileError H → ℕ
locked_files (ok _) = 1
locked_files (err _) = 0

module _ {H S : Type 0} (fs : FileSystem H S) (open_files : S → ℕ) (laws : Laws fs open_files) where
  abbrev Balanced : ℕ → Result FileError H × S → Type 0
  Balanced before x = open_files x.1 ≡ before + locked_files x.0

  result_cases : (r : Result FileError (Unit {0})) → (r ≡ ok tt) ⊎ ((e : FileError) × (r ≡ err e))
  result_cases (ok tt) = inl refl
  result_cases (err e) = inr (e, refl)

  lock_open-Balanced :
      (lock : H) (s : S) (before : ℕ)
      → open_files s ≡ suc before
      → Balanced before (lock_open fs lock s)
  unfolding lock_open locked_files
  lock_open-Balanced lock s before one_more =
      let closed = laws.closed lock s in
      let kept = laws.flock_keeps lock s in
      let closed1 = laws.closed lock (fs.flock lock s).1 in
      elim (result_cases (validate_private_file fs lock 0 s)) [
        | inr (e, h) ↦ rw (lock_open, h) (ground (arith, closed, one_more))
        | inl h ↦ elim (Bool-cases (fs.flock lock s).0) [
          | inl h1 ↦ rw (lock_open, h, h1) (ground (arith, kept, one_more))
          | inr h1 ↦ rw (lock_open, h, h1) (ground (arith, closed1, kept, one_more))
        ]
      ]

  lock_in_directory-Balanced :
      (path : Bytes) (s : S) → Balanced (open_files s) (lock_in_directory fs path s)
  unfolding lock_in_directory locked_files
  lock_in_directory-Balanced path s =
      let lock_path = path ++ codes ".lock" in
      elim (result_cases (validate_private_directory fs (fs.dir path) s)) [
        | inr (e, h) ↦ rw (lock_in_directory, h) (ground arith)
        | inl h ↦ elim (Option-cases (fs.open_lock lock_path s).0) [
          | inl h1 ↦
              let opened = rw h1 at (laws.opened lock_path s) in
              rw (lock_in_directory, h, h1) (ground (arith, opened))
          | inr (lock, h1) ↦
              let opened = rw h1 at (laws.opened lock_path s) in
              rw (lock_in_directory, h, h1)
                (lock_open-Balanced lock (fs.open_lock lock_path s).1 (open_files s) opened)
        ]
      ]

  -- Where the state cannot be locked, whatever the reason, as many descriptors are open as before; where
  -- it is locked, there is one more.
  pub lock_discovery_state-Balanced :
      (path : Bytes) (s : S)
      → open_files (lock_discovery_state fs path s).1
        ≡ open_files s + locked_files (lock_discovery_state fs path s).0
  unfolding lock_discovery_state locked_files
  lock_discovery_state-Balanced path s =
      let kept = laws.make_keeps (fs.dir path) s in
      let s1 = (fs.make_all (fs.dir path) s).1 in
      let inside = lock_in_directory-Balanced path s1 in
      elim (Bool-cases (fs.make_all (fs.dir path) s).0) [
        | inr h ↦ rw h (ground (arith, kept))
        | inl h ↦ rw h (rw kept at inside)
      ]
