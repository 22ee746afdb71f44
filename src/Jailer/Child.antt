-- ===== src/Jailer/Child.antt =====
-- The daemon that the jailer starts: `build_command`, and what the child does before it becomes the
-- daemon, with `apply_rlimit` and `drop_privileges`.
pub mod Dropped
use hephaestus.Base.{
  ℕ, Bool, true, false, not, ◌&&◌, Option, none, some, is_none, unwrap_or, if◌then◌else◌, ◌==◌,
  List, [], ◌∷◌, ◌++◌,
}
use hephaestus.Base.Text.{Bytes, codes}
use hephaestus.Base.Checked.{Result, ok, err}
use hephaestus.Jailer.{Args, as_flag_value}
use hephaestus.Jailer.Prepare.{Plan}

pub data Resource : Type 0 where
  nofile nproc fsize : Resource

-- `clear_cloexec` keeps the lock of the instance open in the daemon.
pub data Call : Type 0 where
  setpgid clear_cloexec : Call
  setrlimit : Resource → (value : ℕ) → Call
  setgroups setgid setuid : (id : ℕ) → Call

-- Whether the kernel does a call, after the calls that went before.
abbrev pub Kernel : Type 0
Kernel = List Call → Call → Bool

pub data ChildError : Type 0 where
  failed : Call → ChildError
  regained_root : ChildError

-- The calls so far, each behind the ones before it.
abbrev pub Child : Type 0
Child = List Call → Result ChildError (Unit {0}) × List Call

infixl 5 ◌then_do◌
abbrev pub ◌then_do◌ : Child → Child → Child
(m then_do k) calls =
    let (r, calls') = m calls in elim r [ ok _ ↦ k calls' | err e ↦ (err e, calls') ]

abbrev pub nothing : Child
nothing calls = (ok tt, calls)

abbrev pub call : Kernel → Call → Child
call kernel c calls = (if kernel calls c then ok tt else err (failed c), calls ++ c ∷ [])

abbrev pub call_some : {A : Type 0} → Kernel → (A → Call) → Option A → Child
call_some kernel c none = nothing
call_some kernel c (some a) = call kernel (c a)

unfoldable pub apply_rlimit : Kernel → Resource → Option ℕ → Child
apply_rlimit kernel r value = call_some kernel (setrlimit r) value

-- Regaining root must fail.
unfoldable pub stay_dropped : Kernel → ℕ → Child
stay_dropped kernel uid calls =
    if uid == 0
    then (ok tt, calls)
    else (if kernel calls (setuid 0) then err regained_root else ok tt, calls ++ setuid 0 ∷ [])

unfoldable pub drop_uid : Kernel → Option ℕ → Child
drop_uid kernel none = nothing
drop_uid kernel (some u) = call kernel (setuid u) then_do stay_dropped kernel u

-- `getgid` is the group of the jailer.
unfoldable pub drop_privileges : Kernel → (getgid : ℕ) → (uid gid : Option ℕ) → Child
drop_privileges kernel getgid uid gid =
    if is_none uid && is_none gid
    then nothing
    else (call kernel (setgroups (unwrap_or gid getgid))
        then_do call_some kernel setgid gid
        then_do drop_uid kernel uid)

-- The hook of `build_command` that runs in the child.
unfoldable pub pre_exec : Kernel → (getgid : ℕ) → Args → Plan → Child
pre_exec kernel getgid args plan =
    call kernel setpgid
    then_do call kernel clear_cloexec
    then_do apply_rlimit kernel nofile args.rlimit_nofile
    then_do apply_rlimit kernel nproc args.rlimit_nproc
    then_do apply_rlimit kernel fsize args.rlimit_fsize
    then_do drop_privileges kernel getgid plan.target_uid plan.target_gid

pub record Command : Type 0 where
  pub program : Bytes
  pub env : List (Bytes × Bytes)
  pub args : List Bytes

-- A flag with its value, if there is one.
abbrev pub flag_with : Bytes → Option Bytes → List Bytes
flag_with flag none = []
flag_with flag (some value) = flag ∷ value ∷ []

abbrev pub flag_if : Bool → Bytes → List Bytes
flag_if true flag = flag ∷ []
flag_if false flag = []

unfoldable pub build_command : Plan → Args → Command
unfolding as_flag_value
build_command plan args = record {
  program = plan.binary;
  env = (codes "HEPHAESTUS_FC_WORK_DIR", plan.work_dir) ∷ [];
  args =
      codes "--api-sock"
        ∷ plan.api_sock
        ∷ codes "--id"
        ∷ args.id
        ∷ codes "--sandbox-profile"
        ∷ plan.profile_path
        ∷ flag_with (codes "--pool-dir") args.pool_dir
      ++ flag_with (codes "--sandbox-deny-probe") args.deny_probe
      ++ (codes "--network-backend" ∷ as_flag_value args.network_backend ∷ [])
      ++ flag_if args.host_mmds (codes "--host-mmds");
}
