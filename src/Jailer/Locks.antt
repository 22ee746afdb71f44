-- ===== src/Jailer/Locks.antt =====
-- The lock of an instance: `acquire_instance_lock` and the probe `instance_lock_held`.
use hephaestus.Base.{ℕ, zero, suc, Bool, true, false, not, none, some, if◌then◌else◌, is_none}
use hephaestus.Base.Text.{Bytes}
use hephaestus.Base.Checked.{Result, ok, err}
use hephaestus.Jailer.{
  JailerError, instance_busy, lock_error, file, lock_file, Root, Host, Action, Done, ◌>>=◌, ◌>>◌,
  raise, get, require, modify, set_entry, set_held, is_absent,
}

-- Opening the lock file creates it.
unfoldable pub create_lock_file : Bytes → Root → Root
create_lock_file id s =
    if is_absent (s.entry id lock_file) then set_entry id lock_file file s else s

-- One round, with `n` rounds left after it. An attempt that locked a file which was unlinked meanwhile
-- drops that lock and begins again.
unfoldable pub attempt_lock : Host → Bytes → (n : ℕ) → Action Done
attempt_lock h id zero = raise lock_error
attempt_lock h id (suc n) =
    let again = attempt_lock h id n in
    (do
      require h.opens_lock lock_error
      modify (create_lock_file id)
      require (is_none h.lock_errno) lock_error
      s ← get
      require (not (s.held id)) (instance_busy id)
      require h.chmods_lock lock_error
      require h.stats_lock lock_error
      if h.same_inode n then modify (set_held id true) else again)

unfoldable pub acquire_instance_lock : Host → Bytes → Action Done
acquire_instance_lock h id = attempt_lock h id 3

-- Dropping the lock.
unfoldable pub release_lock : Bytes → Root → Root
release_lock id s = set_held id false s

-- What is done with the lock at hand; an early return of an error drops it.
unfoldable pub under_lock : {A : Type 0} → Bytes → Action A → Action A
under_lock id m s =
    let (r, s') = m s in elim r [ ok a ↦ (ok a, s') | err e ↦ (err e, release_lock id s') ]

-- A file that is not there is held by nobody; the probe's own lock is dropped at once.
unfoldable pub instance_lock_held : Host → Root → Bytes → Result JailerError Bool
instance_lock_held h s id =
    if is_absent (s.entry id lock_file)
    then ok false
    else if h.probe_opens id
    then elim (h.probe_errno id) [ some e ↦ err lock_error | none ↦ ok (s.held id) ]
    else err lock_error
