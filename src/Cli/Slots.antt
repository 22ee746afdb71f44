-- ===== src/Cli/Slots.antt =====
-- The options of `hephaestus pool init`, `run`, `stats` and `destroy`, and their parsers.
use hephaestus.Base.{ℕ, Bool, true, false, if◌then◌else◌, List, [], max_u32, max_u64}
use hephaestus.Base.Text.{Bytes, codes}
use hephaestus.Base.Checked.{Result, ok, ◌>>=◌, ◌>>◌}
use hephaestus.Cli.{
  Flag, kernel, rootfs, cpus, memory_mib, initramfs, cmd, dir, size, stock_init, settle_seconds,
  UsageError, Arm, takes, sets, refuses, parse_flags, number, required, existing,
}

pub record PoolInitOptions : Type 0 where
  pub dir : Bytes
  pub kernel : Bytes
  pub rootfs : Bytes
  pub initramfs : Bytes
  pub size : ℕ
  pub cpus : ℕ
  pub memory_mib : ℕ
  pub stock_init : Bool
  pub settle_seconds : ℕ

abbrev pub init_defaults : PoolInitOptions
init_defaults = record {
  dir = [];
  kernel = [];
  rootfs = [];
  initramfs = codes "build/agent.cpio.gz";
  size = 4;
  cpus = 0;
  memory_mib = 0;
  stock_init = false;
  settle_seconds = 3;
}

unfoldable pub init_arm : PoolInitOptions → Flag → Arm PoolInitOptions
init_arm o dir = takes (λ v. ok (record o { dir = v }))
init_arm o kernel = takes (λ v. ok (record o { kernel = v }))
init_arm o rootfs = takes (λ v. ok (record o { rootfs = v }))
init_arm o initramfs = takes (λ v. ok (record o { initramfs = v }))
init_arm o size = takes (number max_u32 size (λ n. record o { size = n }))
init_arm o cpus = takes (number max_u32 cpus (λ n. record o { cpus = n }))
init_arm o memory_mib = takes (number max_u64 memory_mib (λ n. record o { memory_mib = n }))
init_arm o stock_init = sets (record o { stock_init = true })
init_arm o settle_seconds =
    takes (number max_u32 settle_seconds (λ n. record o { settle_seconds = n }))
init_arm o _ = refuses

-- The row of `--initramfs` is there only for an agent pool.
unfoldable pub check_initramfs : (Bytes → Bool) → PoolInitOptions → Result UsageError (Unit {0})
check_initramfs exists o = do required initramfs o.initramfs; existing exists initramfs o.initramfs

unfoldable pub check_init : (Bytes → Bool) → PoolInitOptions → Result UsageError PoolInitOptions
unfolding check_initramfs
check_init exists o = do
  required dir o.dir
  required kernel o.kernel
  existing exists kernel o.kernel
  required rootfs o.rootfs
  existing exists rootfs o.rootfs
  if o.stock_init then ok tt else check_initramfs exists o
  ok o

unfoldable pub parse_pool_init : (Bytes → Bool) → List Bytes → Result UsageError PoolInitOptions
unfolding init_arm check_init
parse_pool_init exists words = parse_flags init_arm words init_defaults >>= check_init exists

pub record PoolRunOptions : Type 0 where
  pub dir : Bytes
  pub command : Bytes

unfoldable pub pool_run_arm : PoolRunOptions → Flag → Arm PoolRunOptions
pool_run_arm o dir = takes (λ v. ok (record o { dir = v }))
pool_run_arm o cmd = takes (λ v. ok (record o { command = v }))
pool_run_arm o _ = refuses

unfoldable pub check_pool_run : PoolRunOptions → Result UsageError PoolRunOptions
check_pool_run o = do required dir o.dir; required cmd o.command; ok o

unfoldable pub parse_pool_run : List Bytes → Result UsageError PoolRunOptions
unfolding pool_run_arm check_pool_run
parse_pool_run words =
    parse_flags pool_run_arm words (record { dir = []; command = [] }) >>= check_pool_run

unfoldable pub dir_arm : Bytes → Flag → Arm Bytes
dir_arm d dir = takes (λ v. ok v)
dir_arm d _ = refuses

unfoldable pub check_dir : Bytes → Result UsageError Bytes
check_dir d = do required dir d; ok d

unfoldable pub parse_pool_dir_only : List Bytes → Result UsageError Bytes
unfolding dir_arm check_dir
parse_pool_dir_only words = parse_flags dir_arm words [] >>= check_dir
