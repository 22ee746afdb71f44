-- ===== src/Jailer.antt =====
-- The jailer of src/hephaestus-jailer/src/main.rs: it claims an instance id under a work root, decides
-- the user that the daemon runs as, writes its sandbox profile, and retires instances. The state is one
-- work root: what stands in it for each id, which locks are held, and the text of the uid registry.
pub mod Escape
pub mod Locks
pub mod Claims
pub mod Identity
pub mod Registration
pub mod Resolution
pub mod Separation
pub mod Teardown
pub mod Profile
pub mod Prepare
pub mod Child
pub mod Plist
pub mod Run
pub mod Quiet
pub mod Held
pub mod Claimed
pub mod Released
pub mod Samples
mod Examples
use hephaestus.Base.{
  ℕ, Bool, true, false, Option, none, some, if◌then◌else◌, ◌==◌, List, [], ◌∷◌, ◌++◌, unwrap_or,
  is_some, ◌||◌,
}
use hephaestus.Base.Text.{Bytes, codes, bytes_eq}
use hephaestus.Base.Checked.{Result, ok, err}
use hephaestus.UidRegistry.{RegistryError}

pub data NetworkBackend : Type 0 where
  nat vmnet : NetworkBackend

unfoldable pub as_flag_value : NetworkBackend → Bytes
as_flag_value nat = codes "nat"
as_flag_value vmnet = codes "vmnet"

pub record Args : Type 0 where
  pub id : Bytes
  pub work_dir : Option Bytes
  pub firecracker_binary : Option Bytes
  pub kernel : Option Bytes
  pub rootfs : Option Bytes
  pub initramfs : Option Bytes
  pub pool_dir : Option Bytes
  pub deny_probe : Option Bytes
  pub rlimit_nofile : Option ℕ
  pub rlimit_nproc : Option ℕ
  pub rlimit_fsize : Option ℕ
  pub uid : Option ℕ
  pub gid : Option ℕ
  pub user : Option Bytes
  pub uid_base : Option ℕ
  pub allow_shared_uid : Bool
  pub network_backend : NetworkBackend
  pub host_mmds : Bool
  pub generate_launchd_plist : Bool
  pub launchd_plist_path : Option Bytes
  pub clean_work_dir : Bool
  pub teardown : Bool

pub data GenError : Type 0 where
  canonicalize_failed create_dir_failed : Bytes → GenError

-- `panicked` stands for an `expect` on a value that the parser of the arguments provides.
pub data JailerError : Type 0 where
  invalid_id : Bytes → JailerError
  unsafe_work_dir kernel_not_found rootfs_not_found binary_not_found : JailerError
  bad_profile : GenError → JailerError
  write_profile create_work_dir exec write_plist privilege_drop chown current_exe : JailerError
  instance_busy : Bytes → JailerError
  lock_error remove_error : JailerError
  uid_registry : RegistryError → JailerError
  host_mmds_requires_vmnet : JailerError
  shared_uid_live : (id other_id : Bytes) (uid : ℕ) → JailerError
  panicked : JailerError

-- What a path of the work root names.
pub data Node : Type 0 where
  absent symlink file directory : Node

-- The paths that belong to an instance: `<id>`, `<id>/api.sock`, `.<id>.sandbox.profile`,
-- `.<id>.launchd.stdout.log`, `.<id>.launchd.stderr.log` and `.<id>.lock`.
pub data Entry : Type 0 where
  work_dir api_sock profile stdout_log stderr_log lock_file : Entry

pub data RootNode : Type 0 where
  root_absent root_symlink root_no_directory : RootNode
  root_directory : (owner : ℕ) → RootNode

-- `held` says whether some process holds the lock of an instance, and `registry` is the text of the
-- file `.uid-allocations`, if there is one.
pub record Root : Type 0 where
  pub node : RootNode
  pub mode : ℕ
  pub entry : Bytes → Entry → Node
  pub profile_text : Bytes → Bytes
  pub held : Bytes → Bool
  pub registry : Option Bytes

-- What the host answers during one call; `false` is a failure.
pub record Host : Type 0 where
  pub exists : Bytes → Bool
  pub which : Option Bytes
  pub temp_dir : Bytes
  pub euid : ℕ
  pub stats_root : Bool
  pub creates_root : Bool
  pub chmods_root : Bool
  pub opens_lock : Bool
  pub lock_errno : Option ℕ
  pub chmods_lock : Bool
  pub stats_lock : Bool
  pub same_inode : ℕ → Bool
  pub probe_opens : Bytes → Bool
  pub probe_errno : Bytes → Option ℕ
  pub passwd_entry_exists : ℕ → Bool
  pub registry_opens : Bool
  pub registry_locks : Bool
  pub registry_writes : Bool
  pub removes : Entry → Bool
  pub creates_work_dir : Bool
  pub chmods_work_dir : Bool
  pub canonicalize : Bytes → Option Bytes
  pub creates_dir : Bytes → Bool
  pub slot_dirs : Bytes → List Bytes
  pub writes_profile : Bool
  pub chmods_profile : Bool
  pub getpwnam : Bytes → Option (ℕ × ℕ)
  pub current_exe : Option Bytes
  pub writes_plist : Bool
  pub chowns : Bool
  pub spawns : Bool
  pub waits : Bool
  pub exit_code : Option ℕ

abbrev pub Action : Type 0 → Type 0
Action A = Root → Result JailerError A × Root

abbrev pub Done : Type 0
Done = Unit {0}

infixl 5 ◌>>=◌ ◌>>◌
abbrev pub ◌>>=◌ : {A B : Type 0} → Action A → (A → Action B) → Action B
◌>>=◌ m f s = let (r, s') = m s in elim r [ ok a ↦ f a s' | err e ↦ (err e, s') ]

abbrev pub ◌>>◌ : {B : Type 0} → Action Done → Action B → Action B
m >> k = m >>= λ _. k

abbrev pub pure : {A : Type 0} → A → Action A
pure a s = (ok a, s)

abbrev pub done : Action Done
done s = (ok tt, s)

abbrev pub raise : {A : Type 0} → JailerError → Action A
raise e s = (err e, s)

abbrev pub get : Action Root
get s = (ok s, s)

abbrev pub require : Bool → JailerError → Action Done
require b e s = (if b then ok tt else err e, s)

abbrev pub from_some : {A : Type 0} → Option A → JailerError → Action A
from_some o e s = (elim o [ none ↦ err e | some a ↦ ok a ], s)

abbrev pub modify : (Root → Root) → Action Done
modify f s = (ok tt, f s)

abbrev pub entry_eq : Entry → Entry → Bool
entry_eq work_dir work_dir = true
entry_eq api_sock api_sock = true
entry_eq profile profile = true
entry_eq stdout_log stdout_log = true
entry_eq stderr_log stderr_log = true
entry_eq lock_file lock_file = true
entry_eq _ _ = false

unfoldable pub set_entry : Bytes → Entry → Node → Root → Root
set_entry id e n s = record s {
  entry = λ k f. if bytes_eq k id then (if entry_eq f e then n else s.entry k f) else s.entry k f;
}

unfoldable pub set_held : Bytes → Bool → Root → Root
set_held id b s = record s { held = λ k. if bytes_eq k id then b else s.held k }

abbrev pub is_absent : Node → Bool
is_absent absent = true
is_absent _ = false

abbrev pub is_symlink : Node → Bool
is_symlink symlink = true
is_symlink _ = false

-- `Path::join` of the paths that the commands and the profile name.
unfoldable pub join : Bytes → Bytes → Bytes
join dir name = dir ++ codes "/" ++ name

unfoldable pub entry_path : (root id : Bytes) → Entry → Bytes
unfolding join
entry_path root id work_dir = join root id
entry_path root id api_sock = join (join root id) (codes "api.sock")
entry_path root id profile = join root (codes "." ++ id ++ codes ".sandbox.profile")
entry_path root id stdout_log = join root (codes "." ++ id ++ codes ".launchd.stdout.log")
entry_path root id stderr_log = join root (codes "." ++ id ++ codes ".launchd.stderr.log")
entry_path root id lock_file = join root (codes "." ++ id ++ codes ".lock")

-- `resolve_user`: the user's entry, or the numbers as they were given.
unfoldable pub resolve_user :
    (Bytes → Option (ℕ × ℕ))
    → Option Bytes
    → (uid gid : Option ℕ) → Result JailerError (Option ℕ × Option ℕ)
resolve_user getpwnam none uid gid = ok (uid, gid)
resolve_user getpwnam (some name) uid gid = elim (getpwnam name) [
  | none ↦ err privilege_drop
  | some (u, g) ↦ ok (some u, some g)
]
