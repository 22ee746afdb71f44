-- ===== src/Cli/Saved.antt =====
-- The options of `hephaestus vz-warm` and `vz-snapshot`, and their parsers.
use hephaestus.Base.{ℕ, Bool, not, Option, none, some, if◌then◌else◌, List, [], max_u32, max_u64}
use hephaestus.Base.Text.{Bytes, codes}
use hephaestus.Base.Checked.{Result, ok, ◌>>=◌, ◌>>◌}
use hephaestus.Cli.{
  Flag, kernel, rootfs, cpus, memory_mib, log, run_seconds, initramfs, cmd, settle_seconds, save,
  UsageError, Arm, takes, refuses, parse_flags, number, required, existing,
}

pub record VzWarmOptions : Type 0 where
  pub kernel : Bytes
  pub rootfs : Bytes
  pub initramfs : Bytes
  pub save : Bytes
  pub log : Option Bytes
  pub command : Bytes
  pub cpus : ℕ
  pub memory_mib : ℕ

abbrev pub warm_defaults : VzWarmOptions
warm_defaults = record {
  kernel = [];
  rootfs = [];
  initramfs = codes "build/agent.cpio.gz";
  save = [];
  log = none;
  command = [];
  cpus = 0;
  memory_mib = 0;
}

unfoldable pub warm_arm : VzWarmOptions → Flag → Arm VzWarmOptions
warm_arm o kernel = takes (λ v. ok (record o { kernel = v }))
warm_arm o rootfs = takes (λ v. ok (record o { rootfs = v }))
warm_arm o initramfs = takes (λ v. ok (record o { initramfs = v }))
warm_arm o save = takes (λ v. ok (record o { save = v }))
warm_arm o log = takes (λ v. ok (record o { log = some v }))
warm_arm o cmd = takes (λ v. ok (record o { command = v }))
warm_arm o cpus = takes (number max_u32 cpus (λ n. record o { cpus = n }))
warm_arm o memory_mib = takes (number max_u64 memory_mib (λ n. record o { memory_mib = n }))
warm_arm o _ = refuses

-- A test that is made only where the flag before it is set.
abbrev pub when : Bool → Result UsageError (Unit {0}) → Result UsageError (Unit {0})
when b test = if b then test else ok tt

unfoldable pub check_warm : Bool → (Bytes → Bool) → VzWarmOptions → Result UsageError VzWarmOptions
check_warm restoring exists o = do
  required kernel o.kernel
  required rootfs o.rootfs
  required save o.save
  when restoring (required cmd o.command)
  existing exists kernel o.kernel
  existing exists rootfs o.rootfs
  existing exists initramfs o.initramfs
  when restoring (existing exists save o.save)
  ok o

unfoldable pub parse_vz_warm_args :
    Bool → (Bytes → Bool) → List Bytes → Result UsageError VzWarmOptions
unfolding warm_arm check_warm
parse_vz_warm_args restoring exists words =
    parse_flags warm_arm words warm_defaults >>= check_warm restoring exists

pub record VzSnapOptions : Type 0 where
  pub kernel : Bytes
  pub rootfs : Bytes
  pub log : Bytes
  pub save : Bytes
  pub cpus : ℕ
  pub memory_mib : ℕ
  pub seconds : ℕ

abbrev pub snap_defaults : VzSnapOptions
snap_defaults = record {
  kernel = [];
  rootfs = [];
  log = [];
  save = [];
  cpus = 0;
  memory_mib = 0;
  seconds = 0;
}

unfoldable pub snap_arm : VzSnapOptions → Flag → Arm VzSnapOptions
snap_arm o kernel = takes (λ v. ok (record o { kernel = v }))
snap_arm o rootfs = takes (λ v. ok (record o { rootfs = v }))
snap_arm o log = takes (λ v. ok (record o { log = v }))
snap_arm o save = takes (λ v. ok (record o { save = v }))
snap_arm o cpus = takes (number max_u32 cpus (λ n. record o { cpus = n }))
snap_arm o memory_mib = takes (number max_u64 memory_mib (λ n. record o { memory_mib = n }))
snap_arm o settle_seconds = takes (number max_u32 settle_seconds (λ n. record o { seconds = n }))
snap_arm o run_seconds = takes (number max_u32 run_seconds (λ n. record o { seconds = n }))
snap_arm o _ = refuses

-- Each path is looked at whole before the next one. The save file exists before a restore only.
unfoldable pub check_snap : Bool → (Bytes → Bool) → VzSnapOptions → Result UsageError VzSnapOptions
check_snap saving exists o = do
  required kernel o.kernel
  existing exists kernel o.kernel
  required rootfs o.rootfs
  existing exists rootfs o.rootfs
  required log o.log
  required save o.save
  when (not saving) (existing exists save o.save)
  ok o

unfoldable pub parse_vz_snap_args :
    Bool → (Bytes → Bool) → List Bytes → Result UsageError VzSnapOptions
unfolding snap_arm check_snap
parse_vz_snap_args saving exists words =
    parse_flags snap_arm words snap_defaults >>= check_snap saving exists
