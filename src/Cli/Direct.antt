-- ===== src/Cli/Direct.antt =====
-- The options of `hephaestus rootfs`, `vz-boot`, `vz-exec` and `vz-sh`, and their parsers.
use hephaestus.Base.{
  ℕ, Bool, true, false, Option, none, some, if◌then◌else◌, List, [], max_u32, max_u64,
}
use hephaestus.Base.Text.{Bytes, codes, bytes_eq}
use hephaestus.Base.Checked.{Result, ok, err, ◌>>=◌, ◌>>◌}
use hephaestus.Bridge.{Compression, plain, gzip, zstd}
use hephaestus.Cli.{
  Flag, kernel, rootfs, cpus, memory_mib, from_tar, output, size_mib, compression, log, run_seconds,
  initramfs, cmd, timeout_seconds, stdin, UsageError, explicit_auto, unknown_compression, Arm,
  takes, sets, refuses, parse_flags, number, required, existing,
}

-- Where the compression is absent, it is detected.
pub record RootfsOptions : Type 0 where
  pub tar : Bytes
  pub output : Bytes
  pub size_mib : ℕ
  pub compression : Option Compression

abbrev pub rootfs_defaults : RootfsOptions
rootfs_defaults = record { tar = []; output = []; size_mib = 512; compression = none }

unfoldable pub parse_compression : Bytes → Result UsageError Compression
parse_compression v =
    if bytes_eq v (codes "auto")
    then err explicit_auto
    else if bytes_eq v (codes "none")
    then ok plain
    else if bytes_eq v (codes "gzip")
    then ok gzip
    else if bytes_eq v (codes "zstd")
    then ok zstd
    else err (unknown_compression v)

unfoldable pub rootfs_arm : RootfsOptions → Flag → Arm RootfsOptions
rootfs_arm o from_tar = takes (λ v. ok (record o { tar = v }))
rootfs_arm o output = takes (λ v. ok (record o { output = v }))
rootfs_arm o size_mib = takes (number max_u64 size_mib (λ n. record o { size_mib = n }))
rootfs_arm o compression =
    takes (λ v. parse_compression v >>= λ c. ok (record o { compression = some c }))
rootfs_arm o _ = refuses

unfoldable pub check_rootfs : (Bytes → Bool) → RootfsOptions → Result UsageError RootfsOptions
check_rootfs exists o = do
  required from_tar o.tar
  required output o.output
  existing exists from_tar o.tar
  ok o

unfoldable pub parse_rootfs_args : (Bytes → Bool) → List Bytes → Result UsageError RootfsOptions
unfolding rootfs_arm check_rootfs
parse_rootfs_args exists words =
    parse_flags rootfs_arm words rootfs_defaults >>= check_rootfs exists

-- In what follows the number 0 stands for a default of the bridge.
pub record VzBootOptions : Type 0 where
  pub kernel : Bytes
  pub rootfs : Bytes
  pub log : Bytes
  pub cpus : ℕ
  pub memory_mib : ℕ
  pub run_seconds : ℕ

abbrev pub boot_defaults : VzBootOptions
boot_defaults = record {
  kernel = [];
  rootfs = [];
  log = [];
  cpus = 0;
  memory_mib = 0;
  run_seconds = 0;
}

unfoldable pub boot_arm : VzBootOptions → Flag → Arm VzBootOptions
boot_arm o kernel = takes (λ v. ok (record o { kernel = v }))
boot_arm o rootfs = takes (λ v. ok (record o { rootfs = v }))
boot_arm o log = takes (λ v. ok (record o { log = v }))
boot_arm o cpus = takes (number max_u32 cpus (λ n. record o { cpus = n }))
boot_arm o memory_mib = takes (number max_u64 memory_mib (λ n. record o { memory_mib = n }))
boot_arm o run_seconds = takes (number max_u32 run_seconds (λ n. record o { run_seconds = n }))
boot_arm o _ = refuses

unfoldable pub check_boot : (Bytes → Bool) → VzBootOptions → Result UsageError VzBootOptions
check_boot exists o = do
  required kernel o.kernel
  required rootfs o.rootfs
  required log o.log
  existing exists kernel o.kernel
  existing exists rootfs o.rootfs
  ok o

unfoldable pub parse_vz_boot_args : (Bytes → Bool) → List Bytes → Result UsageError VzBootOptions
unfolding boot_arm check_boot
parse_vz_boot_args exists words = parse_flags boot_arm words boot_defaults >>= check_boot exists

pub record VzExecOptions : Type 0 where
  pub kernel : Bytes
  pub rootfs : Bytes
  pub initramfs : Bytes
  pub log : Option Bytes
  pub command : Bytes
  pub cpus : ℕ
  pub memory_mib : ℕ
  pub timeout_seconds : ℕ
  pub stdin : Bool

abbrev pub default_initramfs : Bytes
default_initramfs = codes "build/agent.cpio.gz"

abbrev pub exec_defaults : VzExecOptions
exec_defaults = record {
  kernel = [];
  rootfs = [];
  initramfs = default_initramfs;
  log = none;
  command = [];
  cpus = 0;
  memory_mib = 0;
  timeout_seconds = 0;
  stdin = false;
}

unfoldable pub exec_arm : VzExecOptions → Flag → Arm VzExecOptions
exec_arm o kernel = takes (λ v. ok (record o { kernel = v }))
exec_arm o rootfs = takes (λ v. ok (record o { rootfs = v }))
exec_arm o initramfs = takes (λ v. ok (record o { initramfs = v }))
exec_arm o log = takes (λ v. ok (record o { log = some v }))
exec_arm o cmd = takes (λ v. ok (record o { command = v }))
exec_arm o cpus = takes (number max_u32 cpus (λ n. record o { cpus = n }))
exec_arm o memory_mib = takes (number max_u64 memory_mib (λ n. record o { memory_mib = n }))
exec_arm o timeout_seconds =
    takes (number max_u32 timeout_seconds (λ n. record o { timeout_seconds = n }))
exec_arm o stdin = sets (record o { stdin = true })
exec_arm o _ = refuses

unfoldable pub check_exec : (Bytes → Bool) → VzExecOptions → Result UsageError VzExecOptions
check_exec exists o = do
  required kernel o.kernel
  required rootfs o.rootfs
  required cmd o.command
  existing exists kernel o.kernel
  existing exists rootfs o.rootfs
  existing exists initramfs o.initramfs
  ok o

unfoldable pub parse_vz_exec_args : (Bytes → Bool) → List Bytes → Result UsageError VzExecOptions
unfolding exec_arm check_exec
parse_vz_exec_args exists words = parse_flags exec_arm words exec_defaults >>= check_exec exists

pub record VzShOptions : Type 0 where
  pub kernel : Bytes
  pub rootfs : Bytes
  pub cpus : ℕ
  pub memory_mib : ℕ
  pub timeout_seconds : ℕ

abbrev pub sh_defaults : VzShOptions
sh_defaults = record { kernel = []; rootfs = []; cpus = 0; memory_mib = 0; timeout_seconds = 0 }

unfoldable pub sh_arm : VzShOptions → Flag → Arm VzShOptions
sh_arm o kernel = takes (λ v. ok (record o { kernel = v }))
sh_arm o rootfs = takes (λ v. ok (record o { rootfs = v }))
sh_arm o cpus = takes (number max_u32 cpus (λ n. record o { cpus = n }))
sh_arm o memory_mib = takes (number max_u64 memory_mib (λ n. record o { memory_mib = n }))
sh_arm o timeout_seconds =
    takes (number max_u32 timeout_seconds (λ n. record o { timeout_seconds = n }))
sh_arm o _ = refuses

unfoldable pub check_sh : (Bytes → Bool) → VzShOptions → Result UsageError VzShOptions
check_sh exists o = do
  required kernel o.kernel
  required rootfs o.rootfs
  existing exists kernel o.kernel
  existing exists rootfs o.rootfs
  ok o

unfoldable pub parse_vz_sh_args : (Bytes → Bool) → List Bytes → Result UsageError VzShOptions
unfolding sh_arm check_sh
parse_vz_sh_args exists words = parse_flags sh_arm words sh_defaults >>= check_sh exists
