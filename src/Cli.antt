-- ===== src/Cli.antt =====
-- The command line of src/hephaestus-cli/src/main.rs: its flags, the errors of use and the loop
-- that the parsers of the subcommands share. Arguments are byte strings; a path is a text.
pub mod Run
pub mod Direct
pub mod Saved
pub mod Slots
pub mod Help
pub mod Commands
pub mod Sound
pub mod RoundTrip
mod Examples
use hephaestus.Base.{
  ℕ, Bool, true, false, ◌&&◌, ◌||◌, Option, none, some, if◌then◌else◌, List, [], ◌∷◌,
}
use hephaestus.Base.Text.{Bytes, codes, bytes_eq}
use hephaestus.Base.Decimal.{parse}
use hephaestus.Base.Checked.{Result, ok, err, ◌>>=◌, ◌>>◌, guard}

-- The flags of all subcommands, and `dashes` for `--`.
pub data Flag : Type 0 where
  dashes id kernel initfs rootfs cpus memory_mib cwd network ip tty : Flag
  from_tar output size_mib compression log run_seconds : Flag
  initramfs cmd timeout_seconds stdin dir size stock_init settle_seconds save : Flag
  other : Flag

unfoldable pub flag_name : Flag → Bytes
flag_name dashes = codes "--"
flag_name id = codes "--id"
flag_name kernel = codes "--kernel"
flag_name initfs = codes "--initfs"
flag_name rootfs = codes "--rootfs"
flag_name cpus = codes "--cpus"
flag_name memory_mib = codes "--memory-mib"
flag_name cwd = codes "--cwd"
flag_name network = codes "--network"
flag_name ip = codes "--ip"
flag_name tty = codes "--tty"
flag_name from_tar = codes "--from-tar"
flag_name output = codes "--output"
flag_name size_mib = codes "--size-mib"
flag_name compression = codes "--compression"
flag_name log = codes "--log"
flag_name run_seconds = codes "--run-seconds"
flag_name initramfs = codes "--initramfs"
flag_name cmd = codes "--cmd"
flag_name timeout_seconds = codes "--timeout-seconds"
flag_name stdin = codes "--stdin"
flag_name dir = codes "--dir"
flag_name size = codes "--size"
flag_name stock_init = codes "--stock-init"
flag_name settle_seconds = codes "--settle-seconds"
flag_name save = codes "--save"
flag_name other = []

abbrev all_flags : List Flag
all_flags =
    dashes ∷ id ∷ kernel ∷ initfs ∷ rootfs ∷ cpus ∷ memory_mib ∷ cwd ∷ network ∷ ip ∷ tty ∷ from_tar
    ∷ output ∷ size_mib ∷ compression ∷ log ∷ run_seconds ∷ initramfs ∷ cmd ∷ timeout_seconds
    ∷ stdin ∷ dir ∷ size ∷ stock_init ∷ settle_seconds ∷ save ∷ []

flag_in : List Flag → Bytes → Flag
unfolding flag_name
flag_in [] w = other
flag_in (f ∷ fs) w = if bytes_eq w (flag_name f) then f else flag_in fs w

-- The flag that a word spells, on which each parser matches; `other` where none of them.
unfoldable pub flag_of : Bytes → Flag
unfolding flag_in
flag_of w = flag_in all_flags w

-- The messages that a parser refuses with.
pub data UsageError : Type 0 where
  missing_value : Bytes → UsageError
  invalid_number : Flag → UsageError
  ip_out_of_range : ℕ → UsageError
  explicit_auto : UsageError
  unknown_compression : Bytes → UsageError
  unknown_flag : Bytes → UsageError
  missing : Flag → UsageError
  no_such_path : Flag → Bytes → UsageError

-- What the arm of a flag does: it takes the next word, sets an option, leaves all further words
-- to the guest, or refuses the word.
pub data Arm (O : Type 0) : Type 0 where
  takes : (Bytes → Result UsageError O) → Arm O
  sets : O → Arm O
  ends : (List Bytes → O) → Arm O
  refuses : Arm O

-- The loop over the words. `require_value` is the clause in which nothing follows `takes`.
pub parse_flags : {O : Type 0} → (O → Flag → Arm O) → List Bytes → O → Result UsageError O
parse_flags arms [] o = ok o
parse_flags arms (w ∷ []) o = elim (arms o (flag_of w)) [
  | takes set ↦ err (missing_value w)
  | sets p ↦ ok p
  | ends rest ↦ ok (rest [])
  | refuses ↦ err (unknown_flag w)
]
parse_flags arms (w ∷ v ∷ ws) o = elim (arms o (flag_of w)) [
  | takes set ↦ set v >>= parse_flags arms ws
  | sets p ↦ parse_flags arms (v ∷ ws) p
  | ends rest ↦ ok (rest (v ∷ ws))
  | refuses ↦ err (unknown_flag w)
]

-- `parse` of an unsigned integer with the greatest value `bound`.
unfoldable pub number : {O : Type 0} → ℕ → Flag → (ℕ → O) → Bytes → Result UsageError O
number bound f put v = elim (parse bound v) [ none ↦ err (invalid_number f) | some n ↦ ok (put n) ]

-- The tests after the loop: of a text that may not be empty, and of a path that must exist.
unfoldable pub required : Flag → Bytes → Result UsageError (Unit {0})
required f [] = err (missing f)
required f (c ∷ p) = ok tt

unfoldable pub existing : (Bytes → Bool) → Flag → Bytes → Result UsageError (Unit {0})
existing exists f p = guard (exists p) (no_such_path f p)
