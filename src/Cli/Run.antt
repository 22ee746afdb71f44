-- ===== src/Cli/Run.antt =====
-- `parse_run_args`: the options of `hephaestus run`.
use hephaestus.Base.{
  ℕ, Bool, true, false, ◌&&◌, Option, none, some, if◌then◌else◌, List, [], ◌∷◌, ◌++◌, leb, max_u32,
  max_u64, ◌==◌,
}
use hephaestus.Base.Text.{Bytes, codes}
use hephaestus.Base.Decimal.{parse}
use hephaestus.Base.Checked.{Result, ok, err, ◌>>=◌, ◌>>◌}
use hephaestus.Cli.{
  Flag, dashes, id, kernel, initfs, rootfs, cpus, memory_mib, cwd, network, ip, tty, UsageError,
  invalid_number, ip_out_of_range, Arm, takes, sets, ends, refuses, parse_flags, number, required,
  existing,
}

pub record RunOptions : Type 0 where
  pub id : Bytes
  pub kernel : Bytes
  pub initfs : Bytes
  pub rootfs : Bytes
  pub cpus : Option ℕ
  pub memory_mib : Option ℕ
  pub cwd : Option Bytes
  pub argv : List Bytes
  pub network : Bool
  pub ip_octet : Option ℕ
  pub tty : Bool

abbrev pub run_defaults : RunOptions
run_defaults = record {
  id = codes "hephaestus-vm";
  kernel = [];
  initfs = [];
  rootfs = [];
  cpus = none;
  memory_mib = none;
  cwd = none;
  argv = [];
  network = false;
  ip_octet = none;
  tty = false;
}

-- `rsplit('.').next()`: what follows the last dot, the whole text where there is none.
unfoldable pub last_part : Bytes → Bytes → Bytes
last_part part [] = part
last_part part (c ∷ s) = if c == b'.' then last_part [] s else last_part (part ++ c ∷ []) s

unfoldable pub parse_ip : Bytes → RunOptions → Result UsageError RunOptions
unfolding last_part
parse_ip raw o = elim (parse 255 (last_part [] raw)) [
  | none ↦ err (invalid_number ip)
  | some n ↦
      if leb 2 n && leb n 254 then ok (record o { ip_octet = some n }) else err (ip_out_of_range n)
]

unfoldable pub run_arm : RunOptions → Flag → Arm RunOptions
run_arm o dashes = ends (λ words. record o { argv = o.argv ++ words })
run_arm o id = takes (λ v. ok (record o { id = v }))
run_arm o kernel = takes (λ v. ok (record o { kernel = v }))
run_arm o initfs = takes (λ v. ok (record o { initfs = v }))
run_arm o rootfs = takes (λ v. ok (record o { rootfs = v }))
run_arm o cpus = takes (number max_u32 cpus (λ n. record o { cpus = some n }))
run_arm o memory_mib = takes (number max_u64 memory_mib (λ n. record o { memory_mib = some n }))
run_arm o cwd = takes (λ v. ok (record o { cwd = some v }))
run_arm o network = sets (record o { network = true })
run_arm o ip = takes (λ v. parse_ip v o)
run_arm o tty = sets (record o { tty = true })
run_arm o _ = refuses

unfoldable pub check_run : (Bytes → Bool) → RunOptions → Result UsageError RunOptions
check_run exists o = do
  required kernel o.kernel
  required initfs o.initfs
  required rootfs o.rootfs
  existing exists kernel o.kernel
  existing exists initfs o.initfs
  existing exists rootfs o.rootfs
  ok o

-- `exists` says which paths the host has.
unfoldable pub parse_run_args : (Bytes → Bool) → List Bytes → Result UsageError RunOptions
unfolding run_arm check_run
parse_run_args exists words = parse_flags run_arm words run_defaults >>= check_run exists
