-- ===== src/Jailer/Teardown.antt =====
-- The retirement of an instance: `teardown`.
pub mod Removal
pub mod Forgetting
pub mod Retired
use hephaestus.Base.{
  ℕ, Bool, true, false, not, ◌&&◌, Option, none, some, is_some, if◌then◌else◌, List, [], ◌∷◌,
  unwrap_or,
}
use hephaestus.Base.Text.{Bytes}
use hephaestus.Base.Checked.{Result, ok, err}
use hephaestus.UidRegistry.{Registry, remove}
use hephaestus.Jailer.{
  Args, JailerError, unsafe_work_dir, uid_registry, Entry, work_dir, profile, stdout_log,
  stderr_log, lock_file, Root, Host, Action, Done, ◌>>=◌, ◌>>◌, done, get, require, modify,
  is_absent, is_symlink,
}
use hephaestus.Jailer.Locks.{acquire_instance_lock, release_lock, under_lock}
use hephaestus.Jailer.Identity.{lift, open_uids}
use hephaestus.Jailer.Prepare.{check_id, assert_trusted_work_root, when, remove_if_there}

-- `Registry::remove`, on the file also.
unfoldable pub unregister : Host → Bytes → Registry → Action Bool
unfolding lift
unregister h id reg s =
    let (r, reg') = remove h.registry_writes id reg in
    lift r (record s { registry = some reg'.file })

unfoldable pub forget_uid : Host → Bytes → Action Done
forget_uid h id = do
  s ← get
  when (is_some s.registry) (do reg ← open_uids h; _ ← unregister h id reg; done)

-- What is done with the claim, if there was a lock file to claim.
unfoldable pub retire : Host → Bytes → (claimed : Bool) → Action Done
retire h id claimed = do
  s ← get
  require (not (is_symlink (s.entry id work_dir))) unsafe_work_dir
  remove_if_there h id work_dir
  remove_if_there h id profile
  remove_if_there h id stdout_log
  remove_if_there h id stderr_log
  forget_uid h id
  when claimed (remove_if_there h id lock_file)

unfoldable pub retire_claimed : Host → Bytes → Action Done
retire_claimed h id = do
  acquire_instance_lock h id
  under_lock id (retire h id true)
  modify (release_lock id)

unfoldable pub teardown : Host → Args → Action Done
teardown h args = do
  check_id args.id
  exists ← assert_trusted_work_root h
  when exists (do
    s ← get
    if is_absent (s.entry args.id lock_file)
        then retire h args.id false
        else retire_claimed h args.id)
