-- ===== src/Bridge/Vms.antt =====
-- The handles that a caller keeps: `Vm`, built of a `Spec`, and `VzVm`, built of a `VzSpec` or
-- restored, with their methods and what their `Drop` calls. A handle is a number.
use hephaestus.Base.{ℕ, Bool, Option, none, some, List, [], ◌∷◌, unwrap_or}
use hephaestus.Base.Text.{Bytes, codes}
use hephaestus.Base.Checked.{Result, ok, err, ◌>>=◌}
use hephaestus.Bridge.{
  VmError, swift_error, mode_code, HbRestoreTimings, HbVmConfig, LongVm, Crossing, hb_vm_new,
  hb_vm_create, hb_vm_start, hb_vm_wait, hb_vm_stop, hb_vm_free, hb_vz_long_new, hb_vz_long_restore,
  hb_vz_long_start, hb_vz_long_pause, hb_vz_long_request_stop, hb_vz_long_resume, hb_vz_long_stop,
  hb_vz_long_free, hb_vz_long_set_balloon_target, hb_vz_long_serve_mmds, hb_vz_long_connect,
  hb_vz_long_vmnet_read, hb_vz_long_vmnet_write, hb_vz_long_save, Reply, Swift, c_string, path_c,
  opt_path_cstring, opt_c_string, c_strings, drive_arrays, Called, invoke,
}
use hephaestus.Bridge.Specs.{Spec, VzSpec, allocate_ip_octet}

abbrev unit_out : Reply → Unit {0}
unit_out r = tt

-- What a specification says, with the address that it gives or that its id gives.
unfoldable pub config_of : Spec → HbVmConfig
config_of spec = record {
  id = spec.id;
  kernel_path = spec.kernel_path;
  initfs_path = spec.initfs_path;
  rootfs_path = spec.rootfs_path;
  cpus = spec.cpus;
  memory_mib = spec.memory_mib;
  argv = spec.argv;
  cwd = spec.cwd;
  enable_networking = spec.networking;
  network_ip_octet = unwrap_or spec.ip_octet (allocate_ip_octet spec.id);
  enable_tty = spec.tty;
}

unfoldable pub long_of : VzSpec → LongVm
long_of spec = record {
  kernel = spec.kernel_path;
  rootfs = spec.rootfs_path;
  initrd = spec.initrd_path;
  log = spec.log_path;
  boot_args = spec.boot_args;
  cpus = spec.cpus;
  memory_mib = spec.memory_mib;
  read_only = spec.read_only;
  network_mode = mode_code spec.network_mode;
  host_packet_interface = spec.host_packet_interface;
  mac = spec.mac;
  drives = spec.extra_drives;
}

vm_config : (Bytes → Bool) → Spec → Result VmError Crossing
vm_config u spec = do
  id ← c_string spec.id
  k ← path_c u spec.kernel_path (codes "kernel")
  i ← path_c u spec.initfs_path (codes "initfs")
  r ← path_c u spec.rootfs_path (codes "rootfs")
  d ← opt_c_string spec.cwd
  words ← c_strings spec.argv
  ok (
      hb_vm_new (record (config_of spec) {
        id = id;
        kernel_path = k;
        initfs_path = i;
        rootfs_path = r;
        argv = words;
        cwd = d;
      }))

-- `Spec::build`.
unfoldable pub build : Swift → Spec → Called ℕ
unfolding vm_config config_of
build s spec = invoke s (λ r. r.vm) (vm_config s.is_utf8 spec)

unfoldable pub create : Swift → ℕ → Called (Unit {0})
create s vm = invoke s unit_out (ok (hb_vm_create vm))

unfoldable pub start : Swift → ℕ → Called (Unit {0})
start s vm = invoke s unit_out (ok (hb_vm_start vm))

unfoldable pub wait : Swift → ℕ → Called ℕ
wait s vm = invoke s (λ r. r.exit_code) (ok (hb_vm_wait vm))

unfoldable pub stop : Swift → ℕ → Called (Unit {0})
stop s vm = invoke s unit_out (ok (hb_vm_stop vm))

-- `Drop for Vm`: whatever the stop answers, the handle is freed.
unfoldable pub drop_vm : ℕ → List Crossing
drop_vm vm = hb_vm_stop vm ∷ hb_vm_free vm ∷ []

long_crossing : (Bytes → Bool) → VzSpec → Result VmError Crossing
long_crossing u spec = do
  k ← path_c u spec.kernel_path (codes "kernel")
  r ← path_c u spec.rootfs_path (codes "rootfs")
  l ← path_c u spec.log_path (codes "log")
  b ← c_string spec.boot_args
  i ← opt_path_cstring u spec.initrd_path (codes "initrd")
  m ← opt_c_string spec.mac
  ds ← drive_arrays u spec.extra_drives
  ok (
      hb_vz_long_new (record (long_of spec) {
        kernel = k;
        rootfs = r;
        initrd = i;
        log = l;
        boot_args = b;
        mac = m;
        drives = ds;
      }))

-- `VzSpec::build`.
unfoldable pub build_long : Swift → VzSpec → Called ℕ
unfolding long_crossing long_of
build_long s spec = invoke s (λ r. r.vm) (long_crossing s.is_utf8 spec)

-- The arguments of `vz_long_restore` are the fields of a specification, the save file and the flag.
long_restore_crossing : (Bytes → Bool) → VzSpec → Bytes → Bool → Result VmError Crossing
long_restore_crossing u spec save resume = do
  k ← path_c u spec.kernel_path (codes "kernel")
  r ← path_c u spec.rootfs_path (codes "rootfs")
  l ← path_c u spec.log_path (codes "log")
  b ← c_string spec.boot_args
  f ← path_c u save (codes "save")
  i ← opt_path_cstring u spec.initrd_path (codes "initrd")
  m ← opt_c_string spec.mac
  ds ← drive_arrays u spec.extra_drives
  let machine : LongVm = record (long_of spec) {
    kernel = k;
    rootfs = r;
    initrd = i;
    log = l;
    boot_args = b;
    mac = m;
    drives = ds;
  }
  ok (hb_vz_long_restore machine f resume)

unfoldable pub vz_long_restore : Swift → VzSpec → Bytes → Bool → Called (ℕ × HbRestoreTimings)
unfolding long_restore_crossing long_of
vz_long_restore s spec save resume =
    invoke s (λ r. (r.vm, r.timings)) (long_restore_crossing s.is_utf8 spec save resume)

unfoldable pub start_long : Swift → ℕ → Called (Unit {0})
start_long s vm = invoke s unit_out (ok (hb_vz_long_start vm))

unfoldable pub pause_long : Swift → ℕ → Called (Unit {0})
pause_long s vm = invoke s unit_out (ok (hb_vz_long_pause vm))

unfoldable pub request_stop : Swift → ℕ → Called (Unit {0})
request_stop s vm = invoke s unit_out (ok (hb_vz_long_request_stop vm))

unfoldable pub set_balloon_target : Swift → ℕ → ℕ → Called (Unit {0})
set_balloon_target s vm target_bytes =
    invoke s unit_out (ok (hb_vz_long_set_balloon_target vm target_bytes))

unfoldable pub resume_long : Swift → ℕ → Called (Unit {0})
resume_long s vm = invoke s unit_out (ok (hb_vz_long_resume vm))

unfoldable pub serve_mmds_vsock : Swift → ℕ → ℕ → Bytes → Called (Unit {0})
serve_mmds_vsock s vm port json = invoke s unit_out (ok (hb_vz_long_serve_mmds vm port json))

-- A success that brings no descriptor is an error.
descriptor : Option ℕ → Result VmError ℕ
descriptor none =
    err (swift_error (codes "vz_long_connect reported success but returned no file descriptor"))
descriptor (some fd) = ok fd

unfoldable pub connect_vsock : Swift → ℕ → ℕ → Called ℕ
unfolding descriptor
connect_vsock s vm port =
    let (calls, got) = invoke s (λ r. r.fd) (ok (hb_vz_long_connect vm port)) in
    (calls, got >>= descriptor)

unfoldable pub vmnet_read : Swift → ℕ → (capacity : ℕ) → Called ℕ
vmnet_read s vm capacity = invoke s (λ r. r.len) (ok (hb_vz_long_vmnet_read vm capacity))

unfoldable pub vmnet_write : Swift → ℕ → Bytes → Called (Unit {0})
vmnet_write s vm frame = invoke s unit_out (ok (hb_vz_long_vmnet_write vm frame))

unfoldable pub stop_long : Swift → ℕ → Called (Unit {0})
stop_long s vm = invoke s unit_out (ok (hb_vz_long_stop vm))

unfoldable pub save_state : Swift → ℕ → Bytes → Called (Unit {0})
save_state s vm save =
    invoke s unit_out (path_c s.is_utf8 save (codes "save") >>= λ f. ok (hb_vz_long_save vm f))

-- `Drop for VzVm`.
unfoldable pub drop_long : ℕ → List Crossing
drop_long vm = hb_vz_long_free vm ∷ []
