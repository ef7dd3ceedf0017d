-- ===== src/Tests/Files.antt =====
-- Locking the discovery state where another controller has it.
use mqtt_raspberry_controlle.Base.{ℕ, suc, ◌+◌, ◌-◌, true, false, some, codes, ◌≡◌, refl}
use mqtt_raspberry_controlle.Discovery.Files.{FileSystem, UnixStat, lock_discovery_state}
use mqtt_raspberry_controlle.Discovery.Files.Locking.{
  Laws, locked_files, lock_discovery_state-Balanced,
}

abbrev folder : UnixStat
folder = record { is_directory = true; is_regular = false; permissions = 448; uid = 7; size = 0 }

abbrev lock_file : UnixStat
lock_file = record { is_directory = false; is_regular = true; permissions = 384; uid = 7; size = 0 }

-- The state is the number of open descriptors.
abbrev files : FileSystem ℕ ℕ
files = record {
  dir = λ p. codes "/var/lib";
  clean = λ p. p;
  euid = 7;
  make_all = λ d n. (true, n);
  eval_symlinks = λ p n. some p;
  lstat = λ p n. some folder;
  open_lock = λ p n. (some n, suc n);
  fstat = λ h n. some lock_file;
  flock = λ h n. (false, n);
  unlock = λ h n. n;
  close = λ h n. n - 1;
}

files-Laws : Laws files (λ n. n)
files-Laws = record {
  make_keeps = λ d n. refl;
  opened = λ p n. refl;
  flock_keeps = λ h n. refl;
  unlock_keeps = λ h n. refl;
  closed = λ h n. refl;
}

lock_discovery_state-Balanced_example :
    (lock_discovery_state files (codes "/var/lib/state.json") 4).1
    ≡ 4 + locked_files (lock_discovery_state files (codes "/var/lib/state.json") 4).0
lock_discovery_state-Balanced_example =
    lock_discovery_state-Balanced files (λ n. n) files-Laws (codes "/var/lib/state.json") 4
