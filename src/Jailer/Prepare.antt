-- ===== src/Jailer/Prepare.antt =====
-- The preparation of a launch: `prepare` with its checks of the work root, `secure_work_root` and
-- `assert_trusted_work_root`.
use hephaestus.Base.{
  ℕ, Bool, true, false, not, ◌||◌, Option, none, some, if◌then◌else◌, ◌==◌, [], ◌∷◌, unwrap_or,
  is_some,
}
use hephaestus.Base.Text.{Bytes, codes, bytes_eq}
use hephaestus.Base.Checked.{ok, err}
use hephaestus.Jailer.{
  Args, unsafe_work_dir, kernel_not_found, rootfs_not_found, binary_not_found, bad_profile,
  write_profile, create_work_dir, remove_error, panicked, absent, symlink, file, directory, Entry,
  work_dir, api_sock, profile, root_absent, root_symlink, root_no_directory, root_directory, Root,
  Host, Action, Done, ◌>>=◌, ◌>>◌, done, pure, get, require, from_some, modify, entry_eq, set_entry,
  is_absent, is_symlink, join, entry_path,
}
use hephaestus.Jailer.Locks.{acquire_instance_lock, under_lock}
use hephaestus.Jailer.Identity.{validate_id, resolve_instance_identity}
use hephaestus.Jailer.Profile.{ProfileInputs, generate}

-- The lock of the plan is `held` in the state.
pub record Plan : Type 0 where
  pub binary : Bytes
  pub work_root : Bytes
  pub work_dir : Bytes
  pub api_sock : Bytes
  pub profile_path : Bytes
  pub target_uid : Option ℕ
  pub target_gid : Option ℕ

unfoldable pub default_work_root : Host → Bytes
unfolding join
default_work_root h = join h.temp_dir (codes "hephaestus-jail")

unfoldable pub check_id : Bytes → Action Done
unfolding validate_id
check_id id s = (validate_id id, s)

-- Whether there is a work root, if it is to be trusted.
unfoldable pub assert_trusted_work_root : Host → Action Bool
assert_trusted_work_root h s =
    if h.stats_root
    then elim s.node [
      | root_absent ↦ (ok false, s)
      | root_symlink ↦ (err unsafe_work_dir, s)
      | root_no_directory ↦ (err unsafe_work_dir, s)
      | root_directory owner ↦ if owner == h.euid then (ok true, s) else (err unsafe_work_dir, s)
    ]
    else (err create_work_dir, s)

unfoldable pub secure_work_root : Host → (drop_requested : Bool) → Action Done
secure_work_root h drop_requested = do
  exists ← assert_trusted_work_root h
  require (exists || h.creates_root) create_work_dir
  modify (λ s. if exists then s else record s { node = root_directory h.euid })
  require h.chmods_root unsafe_work_dir
  -- 0711 and 0700
  modify (λ s. record s { mode = if drop_requested then 457 else 448 })

abbrev pub when : Bool → Action Done → Action Done
when true m = m
when false m = done

-- What is below a directory goes with it.
unfoldable pub unlink : Bytes → Entry → Root → Root
unlink id e s =
    let s' = set_entry id e absent s in
    if entry_eq e work_dir then set_entry id api_sock absent s' else s'

-- `remove_dir_all` and `remove_file` of a path that is there.
unfoldable pub remove_entry : Host → Bytes → Entry → Action Done
remove_entry h id e = do require (h.removes e) remove_error; modify (unlink id e)

-- Nothing is done for a path that is not there.
unfoldable pub remove_if_there : Host → Bytes → Entry → Action Done
remove_if_there h id e = do s ← get; when (not (is_absent (s.entry id e))) (remove_entry h id e)

-- `create_dir_all`.
unfoldable pub create_dir : Host → Bytes → Action Done
create_dir h id s = elim (s.entry id work_dir) [
  | absent ↦
      if h.creates_work_dir
      then (ok tt, set_entry id work_dir directory s)
      else (err create_work_dir, s)
  | directory ↦ (ok tt, s)
  | symlink ↦ (err create_work_dir, s)
  | file ↦ (err create_work_dir, s)
]

unfoldable pub fresh_work_dir : Host → Args → Action Done
fresh_work_dir h args = do
  s ← get
  require (not (is_symlink (s.entry args.id work_dir))) unsafe_work_dir
  when args.clean_work_dir (remove_if_there h args.id work_dir)
  create_dir h args.id
  require h.chmods_work_dir unsafe_work_dir
  remove_if_there h args.id api_sock

-- The read-only pool base is granted for reading, and each slot for writing.
unfoldable pub profile_inputs : Host → Args → (work_dir kernel rootfs : Bytes) → ProfileInputs
profile_inputs h args dir kernel rootfs = record {
  work_dirs = dir ∷ elim args.pool_dir [ none ↦ [] | some pool ↦ h.slot_dirs pool ];
  read_write_files = rootfs ∷ [];
  reads = kernel ∷ elim args.initramfs [ none ↦ [] | some initramfs ↦ initramfs ∷ [] ];
  read_dirs = elim args.pool_dir [ none ↦ [] | some pool ↦ pool ∷ [] ];
}

unfoldable pub generate_profile : Host → ProfileInputs → Action Bytes
unfolding generate
generate_profile h inputs s =
    (elim (generate h inputs) [ ok text ↦ ok text | err e ↦ err (bad_profile e) ], s)

unfoldable pub store_profile : Host → Bytes → Bytes → Action Done
store_profile h id text = do
  require h.writes_profile write_profile
  modify (λ s.
      let s' = record s { profile_text = λ k. if bytes_eq k id then text else s.profile_text k } in
      if is_absent (s.entry id profile) then set_entry id profile file s' else s')
  require h.chmods_profile write_profile

-- What is done under the lock of the instance.
unfoldable pub prepare_locked :
    Host → Args → (Option ℕ × Option ℕ) → (root binary kernel rootfs : Bytes) → Action Plan
unfolding entry_path
prepare_locked h args explicit root binary kernel rootfs = do
  target ← resolve_instance_identity h args explicit
  fresh_work_dir h args
  text ← generate_profile h (profile_inputs h args (entry_path root args.id work_dir) kernel rootfs)
  store_profile h args.id text
  pure (record {
    binary = binary;
    work_root = root;
    work_dir = entry_path root args.id work_dir;
    api_sock = entry_path root args.id api_sock;
    profile_path = entry_path root args.id profile;
    target_uid = target.0;
    target_gid = target.1;
  })

abbrev pub or_else : {A : Type 0} → Option A → Option A → Option A
or_else none o = o
or_else (some a) _ = some a

unfoldable pub drop_requested : Args → (Option ℕ × Option ℕ) → Bool
drop_requested args explicit = is_some explicit.0 || is_some explicit.1 || is_some args.uid_base

unfoldable pub prepare : Host → Args → (Option ℕ × Option ℕ) → Action Plan
unfolding default_work_root
prepare h args explicit = do
  check_id args.id
  kernel ← from_some args.kernel panicked
  rootfs ← from_some args.rootfs panicked
  require (h.exists kernel) kernel_not_found
  require (h.exists rootfs) rootfs_not_found
  binary ← from_some (or_else args.firecracker_binary h.which) binary_not_found
  require (h.exists binary) binary_not_found
  secure_work_root h (drop_requested args explicit)
  acquire_instance_lock h args.id
  under_lock args.id (
      prepare_locked h args explicit (unwrap_or args.work_dir (default_work_root h)) binary kernel
        rootfs)
