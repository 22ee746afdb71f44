-- ===== src/Backend/Boot.antt =====
-- `start_micro_vm`, with the warm pool first and the cold boot after a miss, `load_snapshot`, and
-- `abort_boot`, which takes a failed start back.
use hephaestus.Base.{
  ℕ, Bool, true, false, not, ◌&&◌, ◌||◌, Option, none, some, if◌then◌else◌, List, [], ◌∷◌, ◌++◌,
  saturating_add, max_u64, unwrap_or,
}
use hephaestus.Base.Text.{Bytes, codes}
use hephaestus.Base.Checked.{ok, err}
use hephaestus.Config.{
  not_started, paused, running, BootSourceConfig, LoadSnapshotConfig, MemBackendConfig, file, uffd,
  default_kernel_cmdline,
}
use hephaestus.Pool
use hephaestus.Pool.{Pool, ClaimedSlot, Disk, PoolMatchSpec}
use hephaestus.Backend.{
  invalid_state, not_supported, internal, VzBackend, cold_boot, pool_restore, snapshot_load,
  ExtraDrive, VzSpec, built, started, pool_restored, restored, Host, Action, Done, ◌>>=◌, ◌>>◌,
  pure, done, get, require, from_some, modify, emit, require_preboot,
}
use hephaestus.Backend.Observe.{log_info, flush_metrics}
use hephaestus.Backend.Devices.{configured_network_mode, long_run_spec}
use hephaestus.Backend.Balloon.{validate_balloon, apply_initial_balloon}
use hephaestus.Backend.Metadata.{start_vmnet_mmds, start_vsock_bridge, is_vmnet}

-- Dropping the claimed slot frees it on the disk.
release_slot : Option ClaimedSlot → Disk → Disk
release_slot none d = d
release_slot (some s) d = Pool.drop_slot s d

reset_boot : VzBackend → VzBackend
reset_boot b = record b {
  vmnet_mmds = false;
  vsock_bridge = none;
  vm = none;
  pool_slot = none;
  origin = none;
  state = not_started;
}

unfoldable pub abort_boot : Action Done
unfolding release_slot reset_boot
abort_boot w = (
  ok tt,
  record w { backend = reset_boot w.backend; disk = release_slot w.backend.pool_slot w.disk },
)

unfoldable pub serial_log_path : Host → Bytes → Bytes
serial_log_path h id = Pool.join h.work_dir (codes "hephaestus-firecracker-" ++ id ++ codes ".log")

unfoldable pub bridge_or_abort : Host → Action Done
unfolding abort_boot
bridge_or_abort h w =
    let (r, w') = start_vsock_bridge h w in
    elim r [ ok _ ↦ (ok tt, w') | err e ↦ (err e, (abort_boot w').1) ]

unfoldable pub boot_args : BootSourceConfig → Bytes
boot_args boot = unwrap_or boot.boot_args default_kernel_cmdline

unfoldable pub pool_spec : Host → VzBackend → BootSourceConfig → Bytes → PoolMatchSpec
pool_spec h b boot rootfs = Pool.canonicalize h.resolve (record {
  kernel = boot.kernel_image_path;
  rootfs = rootfs;
  vcpu_count = b.machine_config.vcpu_count;
  memory_mib = b.machine_config.mem_size_mib;
})

is_nil : List ExtraDrive → Bool
is_nil [] = true
is_nil (d ∷ ds) = false

unfoldable pub adopt_slot : ClaimedSlot → ℕ → VzBackend → VzBackend
adopt_slot slot vm b =
    let m = b.metrics in
    record b {
      vm = some vm;
      pool_slot = some slot;
      state = running;
      origin = some pool_restore;
      metrics = record m { pool_hits = saturating_add max_u64 m.pool_hits 1 };
    }

unfoldable pub finish_restored : Host → Action Bool
finish_restored h = do apply_initial_balloon h; flush_metrics; pure true

-- A pool hit: the result is whether the VM was started.
unfoldable pub start_restored : Host → ClaimedSlot → ℕ → Action Bool
unfolding adopt_slot
start_restored h slot vm = do
  emit (pool_restored vm)
  modify (adopt_slot slot vm)
  bridge_or_abort h
  finish_restored h

unfoldable pub count_miss : VzBackend → VzBackend
count_miss b =
    let m = b.metrics in
    record b { metrics = record m { pool_misses = saturating_add max_u64 m.pool_misses 1 } }

-- A restore that fails drops the slot again, and the cold boot follows.
unfoldable pub restore_slot : Host → Pool → ClaimedSlot → Action Bool
restore_slot h pool slot w =
    let (r, d) = Pool.restore_into_vm h.slots pool slot w.disk in
    elim r [
      | ok vm ↦ start_restored h slot vm (record w { disk = d })
      | err e ↦ (ok false, record w { disk = Pool.drop_slot slot d })
    ]

unfoldable pub claim_and_restore : Host → Pool → PoolMatchSpec → Action Bool
claim_and_restore h pool spec w =
    let (r, d) = Pool.try_claim_matching_slot h.slots pool spec w.disk in
    elim r [
      | ok claimed ↦ elim claimed [
        | some slot ↦ restore_slot h pool slot (record w { disk = d })
        | none ↦ (modify count_miss >> pure false) (record w { disk = d })
      ]
      | err e ↦ (ok false, record w { disk = d })
    ]

-- Only a VM with no secondary drive and no vmnet interface is served from a pool.
unfoldable pub pool_attempt : Host → BootSourceConfig → Bytes → Bool → Option Pool → Action Bool
pool_attempt h boot rootfs true (some pool) w =
    claim_and_restore h pool (pool_spec h w.backend boot rootfs) w
pool_attempt h boot rootfs true none w = (ok false, w)
pool_attempt h boot rootfs false pool w = (ok false, w)

unfoldable pub try_pool : Host → BootSourceConfig → Bytes → Action Bool
unfolding is_nil
try_pool h boot rootfs w =
    pool_attempt h boot rootfs
      (is_nil w.backend.extra_drives && not (is_vmnet (configured_network_mode w.backend)))
      w.backend.pool w

unfoldable pub spec_of : Host → VzBackend → BootSourceConfig → Bytes → VzSpec
spec_of h b boot rootfs =
    long_run_spec b boot.kernel_image_path rootfs (serial_log_path h b.id) (boot_args boot)
      b.machine_config.vcpu_count b.machine_config.mem_size_mib boot.initrd_path

unfoldable pub finish_cold : Host → Action Done
finish_cold h = do apply_initial_balloon h; log_info h (codes "vmm")

unfoldable pub adopt_cold : ℕ → VzBackend → VzBackend
adopt_cold vm b = record b { vm = some vm; state = running; origin = some cold_boot }

-- With a VM at hand: the responder first, and only then the backend counts as started.
unfoldable pub start_built : Host → ℕ → Action Done
unfolding adopt_cold
start_built h vm = do start_vmnet_mmds h; modify (adopt_cold vm); bridge_or_abort h; finish_cold h

unfoldable pub boot_cold : Host → BootSourceConfig → Bytes → Action Done
boot_cold h boot rootfs = do
  w ← get
  vm ← from_some (h.builds (spec_of h w.backend boot rootfs)) internal
  emit (built (spec_of h w.backend boot rootfs))
  require h.starts internal
  emit (started vm)
  start_built h vm

unfoldable pub start_from : Host → BootSourceConfig → Bytes → Action Done
start_from h boot rootfs = do
  hit ← try_pool h boot rootfs
  if hit then done else boot_cold h boot rootfs

unfoldable pub start_micro_vm : Host → Action Done
unfolding require_preboot
start_micro_vm h = do
  require_preboot
  w ← get
  validate_balloon w.backend.balloon
  boot ← from_some w.backend.boot_source invalid_state
  rootfs ← from_some w.backend.root_drive invalid_state
  start_from h boot rootfs

is_file : Option MemBackendConfig → Bool
is_file none = true
is_file (some m) = elim m.backend_type [ file ↦ true | uffd ↦ false ]

unfoldable pub adopt_snapshot : ℕ → Bool → VzBackend → VzBackend
adopt_snapshot vm resume b = record b {
  vm = some vm;
  state = if resume then running else paused;
  origin = some snapshot_load;
}

unfoldable pub count_load : VzBackend → VzBackend
count_load b =
    let m = b.metrics in
    record b { metrics = record m { snapshot_loads = saturating_add max_u64 m.snapshot_loads 1 } }

unfoldable pub finish_snapshot : Host → Action Done
unfolding count_load
finish_snapshot h = do
  apply_initial_balloon h
  modify count_load
  flush_metrics
  log_info h (codes "vmm")

unfoldable pub start_loaded : Host → ℕ → Bool → Action Done
unfolding adopt_snapshot
start_loaded h vm resume = do
  start_vmnet_mmds h
  modify (adopt_snapshot vm resume)
  bridge_or_abort h
  finish_snapshot h

unfoldable pub restore_snapshot : Host → LoadSnapshotConfig → BootSourceConfig → Bytes → Action Done
restore_snapshot h params boot rootfs = do
  w ← get
  vm ←
      from_some (h.restores (spec_of h w.backend boot rootfs) params.snapshot_path params.resume_vm)
        internal
  emit (restored (spec_of h w.backend boot rootfs) params.snapshot_path params.resume_vm)
  start_loaded h vm params.resume_vm

unfoldable pub load_snapshot : Host → LoadSnapshotConfig → Action Done
unfolding require_preboot is_file
load_snapshot h params = do
  require_preboot
  w ← get
  validate_balloon w.backend.balloon
  require (not (params.enable_diff_snapshots || params.track_dirty_pages)) not_supported
  require (is_file params.mem_backend) not_supported
  boot ← from_some w.backend.boot_source invalid_state
  rootfs ← from_some w.backend.root_drive invalid_state
  restore_snapshot h params boot rootfs
