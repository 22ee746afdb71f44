-- ===== src/Jailer/Run.antt =====
-- One run of the jailer: `run`.
use hephaestus.Base.{
  ℕ, Bool, true, false, not, ◌&&◌, ◌||◌, Option, is_some, unwrap_or, if◌then◌else◌, leb,
}
use hephaestus.Base.Text.{Bytes}
use hephaestus.Base.Checked.{ok, err}
use hephaestus.Jailer.{
  Args, NetworkBackend, nat, vmnet, exec, write_plist, chown, host_mmds_requires_vmnet, Host,
  Action, ◌>>=◌, ◌>>◌, pure, require, modify, resolve_user,
}
use hephaestus.Jailer.Locks.{release_lock, under_lock}
use hephaestus.Jailer.Prepare.{Plan, prepare}
use hephaestus.Jailer.Plist.{generate_launchd_plist}
use hephaestus.Jailer.Teardown.{teardown}

-- What a run comes to: the code of the daemon that it waited for, or the text of a launchd job.
pub data Outcome : Type 0 where
  exited : (code : ℕ) → Outcome
  job : (text : Bytes) → Outcome
  retired : Outcome

abbrev pub is_vmnet : NetworkBackend → Bool
is_vmnet vmnet = true
is_vmnet nat = false

unfoldable pub give_plist : Host → Args → Plan → Action Outcome
give_plist h args plan s = elim (generate_launchd_plist h args plan) [
  | err e ↦ (err e, s)
  | ok text ↦
      if is_some args.launchd_plist_path && not h.writes_plist
      then (err write_plist, s)
      else (ok (job text), s)
]

-- The code is one byte, and a daemon that a signal ended has none.
unfoldable pub exit_byte : Option ℕ → ℕ
exit_byte code = let n = unwrap_or code 1 in if leb n 255 then n else 1

-- The daemon runs from the spawn to the end of the wait.
unfoldable pub start_daemon : Host → Args → Plan → Action Outcome
unfolding exit_byte
start_daemon h args plan = do
  require (not (is_some plan.target_uid || is_some plan.target_gid) || h.chowns) chown
  require h.spawns exec
  require h.waits exec
  pure (exited (exit_byte h.exit_code))

unfoldable pub run_prepared : Host → Args → Plan → Action Outcome
run_prepared h args plan =
    if args.generate_launchd_plist || is_some args.launchd_plist_path
    then give_plist h args plan
    else start_daemon h args plan

abbrev pub resolve_explicit : Host → Args → Action (Option ℕ × Option ℕ)
resolve_explicit h args s = (resolve_user h.getpwnam args.user args.uid args.gid, s)

unfoldable pub run_launch : Host → Args → Action Outcome
run_launch h args = do
  require (not (args.host_mmds && not (is_vmnet args.network_backend))) host_mmds_requires_vmnet
  explicit ← resolve_explicit h args
  plan ← prepare h args explicit
  outcome ← under_lock args.id (run_prepared h args plan)
  modify (release_lock args.id)
  pure outcome

unfoldable pub run : Host → Args → Action Outcome
run h args = if args.teardown then (teardown h args >> pure retired) else run_launch h args
