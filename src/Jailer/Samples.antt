-- ===== src/Jailer/Samples.antt =====
-- A host that grants everything, a work root where nothing has run, and two instances of one range.
use hephaestus.Base.{true, false, ◌==◌, none, some, []}
use hephaestus.Base.Text.{Bytes, codes}
use hephaestus.Jailer.{Args, nat, absent, root_directory, Root, Host}

abbrev pub host : Host
host = record {
  exists = λ _. true;
  which = some (codes "/usr/bin/fc");
  temp_dir = codes "/tmp";
  euid = 0;
  stats_root = true;
  creates_root = true;
  chmods_root = true;
  opens_lock = true;
  lock_errno = none;
  chmods_lock = true;
  stats_lock = true;
  same_inode = λ _. true;
  probe_opens = λ _. true;
  probe_errno = λ _. none;
  passwd_entry_exists = λ uid. uid == 501;
  registry_opens = true;
  registry_locks = true;
  registry_writes = true;
  removes = λ _. true;
  creates_work_dir = true;
  chmods_work_dir = true;
  canonicalize = λ path. some path;
  creates_dir = λ _. true;
  slot_dirs = λ _. [];
  writes_profile = true;
  chmods_profile = true;
  getpwnam = λ _. none;
  current_exe = some (codes "/usr/bin/jailer");
  writes_plist = true;
  chowns = true;
  spawns = true;
  waits = true;
  exit_code = some 0;
}

abbrev pub vm : Bytes → Args
vm id = record {
  id = id;
  work_dir = some (codes "/jail");
  firecracker_binary = none;
  kernel = some (codes "/k");
  rootfs = some (codes "/r");
  initramfs = none;
  pool_dir = none;
  deny_probe = none;
  rlimit_nofile = none;
  rlimit_nproc = none;
  rlimit_fsize = none;
  uid = none;
  gid = none;
  user = none;
  uid_base = some 501;
  allow_shared_uid = false;
  network_backend = nat;
  host_mmds = false;
  generate_launchd_plist = false;
  launchd_plist_path = none;
  clean_work_dir = false;
  teardown = false;
}

abbrev pub vm_a : Bytes
vm_a = codes "a"

abbrev pub vm_b : Bytes
vm_b = codes "b"

abbrev pub empty_root : Root
empty_root = record {
  node = root_directory 0;
  mode = 457;
  entry = λ k e. absent;
  profile_text = λ k. [];
  held = λ k. false;
  registry = none;
}
