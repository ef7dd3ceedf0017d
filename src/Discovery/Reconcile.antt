-- ===== src/Discovery/Reconcile.antt =====
-- controller/discovery.go: loading and writing the manifest, and `reconcileDiscovery`.
pub mod Writing
pub mod Effects
pub mod Tracking
pub mod Updating
pub mod Safety
pub mod Convergence
pub mod Release
pub mod Acceptance
use mqtt_raspberry_controlle.Base.{
  ℕ, ◌*◌, Bool, true, false, not, ◌&&◌, List, [], ◌∷◌, map, Bytes, codes, same, is_empty, ltb,
  if◌then◌else◌, sort_strings, some, none,
}
use mqtt_raspberry_controlle.Base.Result.{Result, ok, err}
use mqtt_raspberry_controlle.Discovery.Topics.{
  DiscoveryState, discovery_state_version, validate_discovery_state, union_topics,
  difference_topics, ManifestError,
}
use mqtt_raspberry_controlle.Discovery.World.{
  Stored, absent, corrupt, holds, World, DiscoveryError, system_call, cannot_load, invalid_manifest,
  foreign_owner, too_large, remove_failed, publish_failed, M, pure, throw, after, ◌>>=◌, ◌>>◌,
  perform, retain, replace_manifest, set_temporary, read_only,
}

abbrev pub max_discovery_state_size : ℕ
max_discovery_state_size = 64 * 1024

pub record Publication : Type 0 where
  pub entity_id : Bytes
  pub topic : Bytes
  pub payload : Bytes

-- What the controller's configuration gives, and the length of a manifest's JSON text.
pub record Settings : Type 0 where
  pub state_file : Bytes
  pub client_id : Bytes
  pub device_id : Bytes
  pub encoded_size : DiscoveryState → ℕ

call : Bytes → (World → World) → M (Unit {0})
call name = perform (system_call name)

no_state : DiscoveryState
no_state = record { version = 0; owner_id = []; device_id = []; topics = [] }

pub decode : Stored → M DiscoveryState
unfolding no_state
decode absent = pure no_state
decode corrupt = throw cannot_load
decode (holds s) = pure s

unfoldable pub load_discovery_state : M DiscoveryState
unfolding call decode
load_discovery_state = do call (codes "open") read_only; λ w. decode w.manifest w

-- The deferred removal of the temporary file, whose own error is ignored.
clean_up : Result DiscoveryError (Unit {0}) × World → Result DiscoveryError (Unit {0}) × World
unfolding call
clean_up (ok tt, w) = (ok tt, w)
clean_up (err e, w) = (err e, (call (codes "remove") (set_temporary none) w).1)

fill_and_rename : DiscoveryState → M (Unit {0})
unfolding call
fill_and_rename s = do
  call (codes "chmod") read_only
  call (codes "write") (set_temporary (some (holds s)))
  call (codes "sync") read_only
  call (codes "close") read_only
  call (codes "rename") (replace_manifest s)

unfoldable pub replace_file : DiscoveryState → M (Unit {0})
unfolding clean_up fill_and_rename
replace_file s w = clean_up (fill_and_rename s w)

unfoldable pub write_discovery_state : Settings → DiscoveryState → M (Unit {0})
unfolding call
write_discovery_state c state =
    let sorted = record state { topics = sort_strings state.topics } in
    if ltb max_discovery_state_size (c.encoded_size sorted) then throw too_large else do
      call (codes "mkdir") read_only
      call (codes "check directory") read_only
      call (codes "create") (set_temporary (some corrupt))
      replace_file sorted
      call (codes "open directory") read_only
      call (codes "sync directory") read_only

pub remove_stale : List Bytes → M (Unit {0})
remove_stale [] = pure tt
remove_stale (topic ∷ stale) = do
  perform (remove_failed topic) (retain topic [])
  remove_stale stale

pub publish_desired : List Publication → M (Unit {0})
publish_desired [] = pure tt
publish_desired (p ∷ desired) = do
  perform (publish_failed p.entity_id p.topic) (retain p.topic p.payload)
  publish_desired desired

unfoldable pub publish_discovery_changes : List Bytes → List Publication → M (Unit {0})
unfolding remove_stale publish_desired
publish_discovery_changes stale desired = do remove_stale stale; publish_desired desired

unfoldable pub manifest_of : Settings → List Bytes → DiscoveryState
manifest_of c topics = record {
  version = discovery_state_version;
  owner_id = c.client_id;
  device_id = c.device_id;
  topics = topics;
}

pub check_manifest : Settings → DiscoveryState → M (Unit {0})
check_manifest c previous = elim (validate_discovery_state previous) [
  | err e ↦ throw (invalid_manifest e)
  | ok _ ↦
      if not (is_empty previous.owner_id) && not (same previous.owner_id c.client_id)
      then throw (foreign_owner previous.owner_id)
      else pure tt
]

-- A manifest of another device is emptied: its topics are removed from the broker first.
pub empty_device : Settings → DiscoveryState → M DiscoveryState
unfolding no_state
empty_device c previous = do
  publish_discovery_changes previous.topics []
  write_discovery_state c (manifest_of c [])
  pure no_state

pub release_device : Settings → DiscoveryState → M DiscoveryState
unfolding empty_device
release_device c previous =
    if not (is_empty previous.device_id) && not (same previous.device_id c.device_id)
    then empty_device c previous
    else pure previous

pub update_topics : Settings → List Publication → DiscoveryState → M (Unit {0})
unfolding manifest_of
update_topics c publications previous =
    let desired = map (λ (p : Publication). p.topic) publications in
    do
      write_discovery_state c (manifest_of c (union_topics previous.topics desired))
      publish_discovery_changes (difference_topics previous.topics desired) publications
      write_discovery_state c (manifest_of c desired)

-- `lock` is `lockDiscoveryState`, which has no effect on manifest or broker.
unfoldable pub reconcile_discovery : Settings → List Publication → M (Unit {0})
unfolding call
reconcile_discovery c publications =
    if is_empty c.state_file then publish_discovery_changes [] publications else do
      call (codes "lock") read_only
      previous ← load_discovery_state
      check_manifest c previous
      current ← release_device c previous
      update_topics c publications current
