-- ===== src/Jailer/Separation.antt =====
-- Launches that run side by side under one work root. A step is what one launch does in one critical
-- section: the claim of an instance is atomic by its lock, and the decision of an identity by the lock
-- of the registry.
pub mod Kept
pub mod Safety
use hephaestus.Base.{
  ℕ, ◌≤◌, ◌≡◌, ◌≢◌, inl, inr, sym, ◌∙◌, ap, subst, true, false, Bool, Option, some, arith,
  if◌then◌else◌, max_u32, unwrap_or, Bool-cases,
}
use hephaestus.Base.Text.{Bytes, bytes_eq, bytes_eq_iff}
use hephaestus.Base.Checked.{ok, err}
use hephaestus.UidRegistry.{Entries, valid_id, find_uid}
use hephaestus.Jailer.{Args, JailerError, Root, Host, lock_file, set_held, is_absent}
use hephaestus.Jailer.Locks.{acquire_instance_lock, release_lock}
use hephaestus.Jailer.Claims.{Attempts, acquire_instance_lock-Attempts}
use hephaestus.Jailer.Identity.{validate_id, resolve_instance_identity}
use hephaestus.Jailer.Registration.{Reads, IsFree, Keeps, Settled, Resolves}
use hephaestus.Jailer.Resolution.{resolve-Resolves}

-- What is under way for an instance: nothing, a launch that holds the lock, or a daemon that runs,
-- as the user with this uid if it has one of its own.
pub data Phase : Type 0 where
  idle claimed : Phase
  live : (uid : Option ℕ) → Phase

abbrev pub is_idle : Phase → Bool
is_idle idle = true
is_idle _ = false

pub record Site : Type 0 where
  pub root : Root
  pub phase : Bytes → Phase

unfoldable pub enter : Bytes → Phase → Root → Site → Site
enter id p r v = record { root = r; phase = λ k. if bytes_eq k id then p else v.phase k }

-- The steps of launches that do not allow a shared uid, on a host where the registry can be written.
pub data Step : Site → Site → Type 0 where
  begins :
      (h : Host) (id : Bytes) (v : Site) (r : Root)
      → validate_id id ≡ ok tt
      → acquire_instance_lock h id v.root ≡ (ok tt, r)
      → Step v (enter id claimed r v)
  refused :
      (h : Host) (id : Bytes) (v : Site) (r : Root) (e : JailerError)
      → acquire_instance_lock h id v.root ≡ (err e, r)
      → Step v (record v { root = r })
  launches :
      (h : Host) (args : Args) (explicit : Option ℕ × Option ℕ) (uid gid : Option ℕ) (v : Site)
      (r : Root)
      → h.registry_writes ≡ true
      → args.allow_shared_uid ≡ false
      → unwrap_or explicit.0 0 ≤ max_u32
      → v.phase args.id ≡ claimed
      → resolve_instance_identity h args explicit v.root ≡ (ok (uid, gid), r)
      → Step v (enter args.id (live uid) r v)
  fails :
      (h : Host) (args : Args) (explicit : Option ℕ × Option ℕ) (e : JailerError) (v : Site)
      (r : Root)
      → h.registry_writes ≡ true
      → args.allow_shared_uid ≡ false
      → unwrap_or explicit.0 0 ≤ max_u32
      → v.phase args.id ≡ claimed
      → resolve_instance_identity h args explicit v.root ≡ (err e, r)
      → Step v (enter args.id idle (release_lock args.id r) v)
  exits :
      (id : Bytes) (v : Site)
      → is_idle (v.phase id) ≡ false
      → Step v (enter id idle (release_lock id v.root) v)

pub data Steps : Site → Site → Type 0 where
  stop : {v : Site} → Steps v v
  more : {u v w : Site} → Steps u v → Step v w → Steps u w

-- What every launch keeps.
pub record IsSeparated (v : Site) (es : Entries) : Type 0 where
  pub reads : Reads v.root.registry es
  pub valid : (k : Bytes) → is_idle (v.phase k) ≡ false → valid_id k ≡ true
  pub locked : (k : Bytes) → is_idle (v.phase k) ≡ false → v.root.held k ≡ true
  pub there :
      (k : Bytes) → is_idle (v.phase k) ≡ false → is_absent (v.root.entry k lock_file) ≡ false
  pub recorded : (k : Bytes) (n : ℕ) → v.phase k ≡ live (some n) → find_uid k es ≡ some n
  pub apart : (a b : Bytes) (n : ℕ) → v.phase a ≡ live (some n) → v.phase b ≡ live (some n) → a ≡ b
