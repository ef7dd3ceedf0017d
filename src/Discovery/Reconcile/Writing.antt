-- ===== src/Discovery/Reconcile/Writing.antt =====
-- controller/discovery.go: what `writeDiscoveryState` leaves of the manifest, however it ends.
use mqtt_raspberry_controlle.Discovery.Reconcile.Effects.{sorted, next}
use mqtt_raspberry_controlle.Base.{
  same, ltb, some, none, Option, ◌≡◌, refl, ◌⊎◌, inl, inr, arith, codes, ◌∙◌, Bool-cases,
}
use mqtt_raspberry_controlle.Base.Result.{Result, ok, err}
use mqtt_raspberry_controlle.Discovery.Topics.{DiscoveryState}
use mqtt_raspberry_controlle.Discovery.World.{
  Stored, M, after, ◌>>◌, system_call, corrupt, holds, World, DiscoveryError, perform, read_only,
  replace_manifest, set_temporary,
}
use mqtt_raspberry_controlle.Discovery.Reconcile.{
  Settings, max_discovery_state_size, replace_file, write_discovery_state, call, clean_up,
  fill_and_rename,
}

abbrev Written : DiscoveryState → World → Result DiscoveryError (Unit {0}) × World → Type 0
Written s w (r, w') =
    (w'.broker ≡ w.broker)
    × ((w'.manifest ≡ w.manifest) ⊎ (w'.manifest ≡ holds (sorted s)))
    × (r ≡ ok tt → w'.manifest ≡ holds (sorted s))

-- Broker and manifest are as before.
abbrev Unchanged : World → World → Type 0
Unchanged w' w = (w'.broker ≡ w.broker) × (w'.manifest ≡ w.manifest)

abbrev Keeps : M (Unit {0}) → Type 0
Keeps m = (w : World) → Unchanged (m w).1 w

perform-Keeps :
    (e : DiscoveryError) (f : World → World)
    → ((w : World) → Unchanged (f w) w)
    → Keeps (perform e f)
unfolding perform
perform-Keeps e f same w = let kept = same (next w) in ground arith

read_only-Keeps : (e : DiscoveryError) → Keeps (perform e read_only)
unfolding read_only
read_only-Keeps e = perform-Keeps e read_only λ w. (refl, refl)

temporary-Keeps : (e : DiscoveryError) (t : Option Stored) → Keeps (perform e (set_temporary t))
unfolding set_temporary
temporary-Keeps e t = perform-Keeps e (set_temporary t) λ w. (refl, refl)

-- A call that keeps broker and manifest in front of a write.
kept_before :
    (s : DiscoveryState) (w0 : World) (m k : M (Unit {0}))
    → Keeps m
    → ((w : World) → Unchanged w w0 → Written s w0 (k w))
    → (w : World) → Unchanged w w0
    → Written s w0 (after (λ _. k) (m w))
kept_before s w0 m k keeps rest w (b, f) = let (b1, f1) = keeps w in go (m w) (b1 ∙ b, f1 ∙ f)
  where
    go :
        (x : Result DiscoveryError (Unit {0}) × World)
        → Unchanged x.1 w0
        → Written s w0 (after (λ _. k) x)
    go (ok _, w1) same = rest w1 same
    go (err _, w1) (b1, f1) = (b1, inl f1, λ h. cc)

-- The same behind a write.
kept_after :
    (s : DiscoveryState) (w0 : World) (k : M (Unit {0}))
    (x : Result DiscoveryError (Unit {0}) × World)
    → Keeps k
    → Written s w0 x
    → Written s w0 (after (λ _. k) x)
kept_after s w0 k (ok tt, w) keeps (b, _, new) =
    let (b1, f1) = keeps w in (b1 ∙ b, inr (f1 ∙ new refl), λ _. f1 ∙ new refl)
kept_after s w0 k (err _, w) keeps (b, f, new) = (b, f, λ h. cc)

rename-Written :
    (s : DiscoveryState) (w0 w : World)
    → Unchanged w w0
    → Written s w0 (perform (system_call (codes "rename")) (replace_manifest (sorted s)) w)
unfolding perform replace_manifest
rename-Written s w0 w (b, f) = ground arith

fill_and_rename-Written :
    (s : DiscoveryState) (w0 w : World)
    → Unchanged w w0
    → Written s w0 (fill_and_rename (sorted s) w)
unfolding fill_and_rename call
fill_and_rename-Written s w0 =
    let write = system_call (codes "write") in
    let content = set_temporary (some (holds (sorted s))) in
    let chmod = system_call (codes "chmod") in
    let sync = system_call (codes "sync") in
    let close = system_call (codes "close") in
    let rename = perform (system_call (codes "rename")) (replace_manifest (sorted s)) in
    let last = perform close read_only >> rename in
    kept_before s w0 (perform chmod read_only)
      (perform write content >> (perform sync read_only >> last)) (read_only-Keeps chmod)
      (kept_before s w0 (perform write content) (perform sync read_only >> last)
        (temporary-Keeps write (some (holds (sorted s))))
        (kept_before s w0 (perform sync read_only) last (read_only-Keeps sync) (
          kept_before s w0 (perform close read_only) rename (read_only-Keeps close)
            (rename-Written s w0))))

clean_up-Written :
    (s : DiscoveryState) (w0 : World) (x : Result DiscoveryError (Unit {0}) × World)
    → Written s w0 x
    → Written s w0 (clean_up x)
unfolding clean_up call
clean_up-Written s w0 (ok tt, w) written = written
clean_up-Written s w0 (err e, w) (b, either, new) =
    let (b1, f1) = temporary-Keeps (system_call (codes "remove")) none w in
    (b1 ∙ b, elim either [ inl f ↦ inl (f1 ∙ f) | inr f ↦ inr (f1 ∙ f) ], λ h. cc)

replace_file-Written :
    (s : DiscoveryState) (w0 w : World) → Unchanged w w0 → Written s w0 (replace_file (sorted s) w)
unfolding replace_file
replace_file-Written s w0 w same =
    clean_up-Written s w0 (fill_and_rename (sorted s) w) (fill_and_rename-Written s w0 w same)

-- The two calls on the directory behind the rename.
sync_directory-Written :
    (s : DiscoveryState) (w0 : World) (e1 e2 : DiscoveryError) (w : World)
    → Unchanged w w0
    → Written s w0
        (after (λ _. perform e1 read_only >> perform e2 read_only) (replace_file (sorted s) w))
sync_directory-Written s w0 e1 e2 w same =
    kept_after s w0 (perform e1 read_only >> perform e2 read_only) (replace_file (sorted s) w)
      (λ w1. both (perform e1 read_only w1) w1 (read_only-Keeps e1 w1))
      (replace_file-Written s w0 w same)
  where
    both :
        (x : Result DiscoveryError (Unit {0}) × World) (w1 : World)
        → Unchanged x.1 w1
        → Unchanged (after (λ _. perform e2 read_only) x).1 w1
    both (ok _, w2) w1 (b, f) = let (b2, f2) = read_only-Keeps e2 w2 in (b2 ∙ b, f2 ∙ f)
    both (err _, w2) w1 same = same

-- Whatever fails, the manifest is the old one or the new one with its topics sorted, and never a part
-- of it; it is the new one if the write succeeds.
pub write_discovery_state-Written :
    (c : Settings) (s : DiscoveryState) (w : World) → Written s w (write_discovery_state c s w)
unfolding write_discovery_state call
write_discovery_state-Written c s w =
    let mkdir = system_call (codes "mkdir") in
    let check = system_call (codes "check directory") in
    let create = system_call (codes "create") in
    let enter = system_call (codes "open directory") in
    let sync = system_call (codes "sync directory") in
    let last = replace_file (sorted s) >> (perform enter read_only >> perform sync read_only) in
    elim (Bool-cases (ltb max_discovery_state_size (c.encoded_size (sorted s)))) [
      | inl e ↦ rw e (refl, inl refl, λ h. cc)
      | inr e ↦ rw e (
          kept_before s w (perform mkdir read_only)
            (perform check read_only >> (perform create (set_temporary (some corrupt)) >> last))
            (read_only-Keeps mkdir)
            (kept_before s w (perform check read_only)
              (perform create (set_temporary (some corrupt)) >> last) (read_only-Keeps check)
              (kept_before s w (perform create (set_temporary (some corrupt))) last
                (temporary-Keeps create (some corrupt)) (sync_directory-Written s w enter sync)))
            w (refl, refl))
    ]
