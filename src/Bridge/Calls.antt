-- ===== src/Bridge/Calls.antt =====
-- The calls that boot, run or restore one machine and are done with it, or hand it on: the part
-- of each before its `unsafe` block, and the call.
use hephaestus.Base.{ℕ, Bool, Option, if◌then◌else◌}
use hephaestus.Base.Text.{Bytes, codes}
use hephaestus.Base.Checked.{Result, ok, ◌>>=◌}
use hephaestus.Bridge.{
  VmError, Compression, compression_code, HbRestoreTimings, Crossing, hb_vz_boot, hb_vz_exec,
  hb_vz_exec_snapshot_save, hb_vz_exec_snapshot_restore, hb_vz_pool_restore_long,
  hb_vz_stock_pool_restore_long, hb_vz_snapshot_save, hb_vz_snapshot_restore, hb_vz_sh,
  hb_rootfs_from_tar, Reply, Swift, c_string, path_c, opt_path_cstring, Called, invoke,
}

abbrev unit_out : Reply → Unit {0}
unit_out r = tt

boot_crossing :
    (Bytes → Bool)
    → (kernel rootfs log : Bytes) → (cpus memory_mib secs : ℕ) → Result VmError Crossing
boot_crossing u kernel rootfs log cpus memory_mib secs = do
  k ← path_c u kernel (codes "kernel")
  r ← path_c u rootfs (codes "rootfs")
  l ← path_c u log (codes "log")
  ok (hb_vz_boot k r l cpus memory_mib secs)

unfoldable pub vz_boot :
    Swift → (kernel rootfs log : Bytes) → (cpus memory_mib secs : ℕ) → Called (Unit {0})
unfolding boot_crossing
vz_boot s kernel rootfs log cpus memory_mib secs =
    invoke s unit_out (boot_crossing s.is_utf8 kernel rootfs log cpus memory_mib secs)

exec_crossing :
    (Bytes → Bool)
    → (kernel initramfs rootfs command : Bytes) → Option Bytes
    → (cpus memory_mib timeout_seconds : ℕ) → Bool
    → Result VmError Crossing
exec_crossing u kernel initramfs rootfs command log cpus memory_mib timeout_seconds stdin = do
  k ← path_c u kernel (codes "kernel")
  i ← path_c u initramfs (codes "initramfs")
  r ← path_c u rootfs (codes "rootfs")
  c ← c_string command
  l ← opt_path_cstring u log (codes "log")
  ok (hb_vz_exec k i r c l cpus memory_mib timeout_seconds (if stdin then 1 else 0))

unfoldable pub vz_exec :
    Swift
    → (kernel initramfs rootfs command : Bytes) → Option Bytes
    → (cpus memory_mib timeout_seconds : ℕ) → Bool
    → Called ℕ
unfolding exec_crossing
vz_exec s kernel initramfs rootfs command log cpus memory_mib timeout_seconds stdin =
    invoke s (λ r. r.exit_code)
      (exec_crossing s.is_utf8 kernel initramfs rootfs command log cpus memory_mib timeout_seconds
        stdin)

agent_save_crossing :
    (Bytes → Bool)
    → (kernel initramfs rootfs save : Bytes) → Option Bytes
    → (cpus memory_mib : ℕ) → Result VmError Crossing
agent_save_crossing u kernel initramfs rootfs save log cpus memory_mib = do
  k ← path_c u kernel (codes "kernel")
  i ← path_c u initramfs (codes "initramfs")
  r ← path_c u rootfs (codes "rootfs")
  f ← path_c u save (codes "save")
  l ← opt_path_cstring u log (codes "log")
  ok (hb_vz_exec_snapshot_save k i r f l cpus memory_mib)

unfoldable pub vz_exec_snapshot_save :
    Swift
    → (kernel initramfs rootfs save : Bytes) → Option Bytes
    → (cpus memory_mib : ℕ) → Called (Unit {0})
unfolding agent_save_crossing
vz_exec_snapshot_save s kernel initramfs rootfs save log cpus memory_mib =
    invoke s unit_out
      (agent_save_crossing s.is_utf8 kernel initramfs rootfs save log cpus memory_mib)

agent_restore_crossing :
    (Bytes → Bool)
    → (kernel initramfs rootfs save command : Bytes) → Option Bytes
    → (cpus memory_mib : ℕ) → Result VmError Crossing
agent_restore_crossing u kernel initramfs rootfs save command log cpus memory_mib = do
  k ← path_c u kernel (codes "kernel")
  i ← path_c u initramfs (codes "initramfs")
  r ← path_c u rootfs (codes "rootfs")
  f ← path_c u save (codes "save")
  c ← c_string command
  l ← opt_path_cstring u log (codes "log")
  ok (hb_vz_exec_snapshot_restore k i r f c l cpus memory_mib)

unfoldable pub vz_exec_snapshot_restore :
    Swift
    → (kernel initramfs rootfs save command : Bytes) → Option Bytes
    → (cpus memory_mib : ℕ) → Called (ℕ × ℕ)
unfolding agent_restore_crossing
vz_exec_snapshot_restore s kernel initramfs rootfs save command log cpus memory_mib =
    invoke s (λ r. (r.exit_code, r.nanos))
      (agent_restore_crossing s.is_utf8 kernel initramfs rootfs save command log cpus memory_mib)

pool_restore_crossing :
    (Bytes → Bool)
    → (kernel initramfs rootfs save : Bytes) → Option Bytes
    → (cpus memory_mib : ℕ) → Result VmError Crossing
pool_restore_crossing u kernel initramfs rootfs save log cpus memory_mib = do
  k ← path_c u kernel (codes "kernel")
  i ← path_c u initramfs (codes "initramfs")
  r ← path_c u rootfs (codes "rootfs")
  f ← path_c u save (codes "save")
  l ← opt_path_cstring u log (codes "log")
  ok (hb_vz_pool_restore_long k i r f l cpus memory_mib)

unfoldable pub vz_pool_restore_long :
    Swift
    → (kernel initramfs rootfs save : Bytes) → Option Bytes
    → (cpus memory_mib : ℕ) → Called (ℕ × HbRestoreTimings)
unfolding pool_restore_crossing
vz_pool_restore_long s kernel initramfs rootfs save log cpus memory_mib =
    invoke s (λ r. (r.vm, r.timings))
      (pool_restore_crossing s.is_utf8 kernel initramfs rootfs save log cpus memory_mib)

stock_restore_crossing :
    (Bytes → Bool)
    → (kernel rootfs save : Bytes) → Option Bytes
    → (cpus memory_mib : ℕ) → Result VmError Crossing
stock_restore_crossing u kernel rootfs save log cpus memory_mib = do
  k ← path_c u kernel (codes "kernel")
  r ← path_c u rootfs (codes "rootfs")
  f ← path_c u save (codes "save")
  l ← opt_path_cstring u log (codes "log")
  ok (hb_vz_stock_pool_restore_long k r f l cpus memory_mib)

unfoldable pub vz_stock_pool_restore_long :
    Swift
    → (kernel rootfs save : Bytes) → Option Bytes
    → (cpus memory_mib : ℕ) → Called (ℕ × HbRestoreTimings)
unfolding stock_restore_crossing
vz_stock_pool_restore_long s kernel rootfs save log cpus memory_mib =
    invoke s (λ r. (r.vm, r.timings))
      (stock_restore_crossing s.is_utf8 kernel rootfs save log cpus memory_mib)

-- The four paths that saving and restoring a stock guest hand over.
stock_paths :
    (Bytes → Bool)
    → (Bytes → Bytes → Bytes → Bytes → Crossing)
    → (kernel rootfs log save : Bytes) → Result VmError Crossing
stock_paths u make kernel rootfs log save = do
  k ← path_c u kernel (codes "kernel")
  r ← path_c u rootfs (codes "rootfs")
  l ← path_c u log (codes "log")
  f ← path_c u save (codes "save")
  ok (make k r l f)

unfoldable pub vz_snapshot_save :
    Swift → (kernel rootfs log save : Bytes) → (cpus memory_mib settle : ℕ) → Called (Unit {0})
unfolding stock_paths
vz_snapshot_save s kernel rootfs log save cpus memory_mib settle = invoke s unit_out (
    stock_paths s.is_utf8 (λ k r l f. hb_vz_snapshot_save k r l f cpus memory_mib settle) kernel
      rootfs log save)

unfoldable pub vz_snapshot_restore :
    Swift → (kernel rootfs log save : Bytes) → (cpus memory_mib secs : ℕ) → Called ℕ
unfolding stock_paths
vz_snapshot_restore s kernel rootfs log save cpus memory_mib secs =
    invoke s (λ r. r.nanos)
      (stock_paths s.is_utf8 (λ k r l f. hb_vz_snapshot_restore k r l f cpus memory_mib secs) kernel
        rootfs log save)

sh_crossing :
    (Bytes → Bool) → (kernel rootfs : Bytes) → (cpus memory_mib secs : ℕ) → Result VmError Crossing
sh_crossing u kernel rootfs cpus memory_mib secs = do
  k ← path_c u kernel (codes "kernel")
  r ← path_c u rootfs (codes "rootfs")
  ok (hb_vz_sh k r cpus memory_mib secs)

unfoldable pub vz_sh :
    Swift → (kernel rootfs : Bytes) → (cpus memory_mib secs : ℕ) → Called (Unit {0})
unfolding sh_crossing
vz_sh s kernel rootfs cpus memory_mib secs =
    invoke s unit_out (sh_crossing s.is_utf8 kernel rootfs cpus memory_mib secs)

tar_crossing : (Bytes → Bool) → (tar out : Bytes) → ℕ → Compression → Result VmError Crossing
tar_crossing u tar out size_mib compression = do
  t ← path_c u tar (codes "tar")
  o ← path_c u out (codes "output")
  ok (hb_rootfs_from_tar t o size_mib (compression_code compression))

unfoldable pub build_rootfs_from_tar :
    Swift → (tar out : Bytes) → ℕ → Compression → Called (Unit {0})
unfolding tar_crossing
build_rootfs_from_tar s tar out size_mib compression =
    invoke s unit_out (tar_crossing s.is_utf8 tar out size_mib compression)
