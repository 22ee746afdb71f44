-- ===== src/Jailer/Profile.antt =====
-- The sandbox profile of profile.rs: `generate` and the forms of its paths.
use hephaestus.Base.{Bool, true, false, ◌&&◌, if◌then◌else◌, List, [], ◌∷◌, ◌++◌}
use hephaestus.Base.Text.{Bytes, codes}
use hephaestus.Base.Checked.{Result, ok, ◌>>=◌, ◌>>◌, guard, ok_or}
use hephaestus.Jailer.{Host, GenError, canonicalize_failed, create_dir_failed}
use hephaestus.Jailer.Escape.{scheme_escape}

pub record ProfileInputs : Type 0 where
  pub work_dirs : List Bytes
  pub read_write_files : List Bytes
  pub reads : List Bytes
  pub read_dirs : List Bytes

abbrev pub preamble : Bytes
preamble =
    codes
      "(version 1)\n(deny default)\n\n;; Basic process/runtime operations. The profile remains file/network\n;; restrictive; these keep a normal already-exec'd Rust daemon alive.\n(allow process*)\n(allow sysctl-read)\n(allow signal (target self))\n(allow mach-lookup)\n(allow network*)\n\n;; Allow system metadata reads that libc/Foundation may perform lazily after\n;; sandbox entry. Data reads remain path-scoped below.\n(allow file-read-metadata)\n(allow file-read-data\n(subpath \"/System\")\n(subpath \"/usr/lib\")\n(subpath \"/private/var/db/timezone\")\n(literal \"/dev/null\")\n(literal \"/dev/urandom\"))\n"

-- `("<kind> \"<path>\")`, with the path escaped.
abbrev pub form : (kind path : Bytes) → Bytes
form kind path = codes "(" ++ kind ++ codes " \"" ++ scheme_escape path ++ codes "\")"

unfoldable pub literal_form : Host → Bytes → Result GenError Bytes
unfolding scheme_escape
literal_form h path = do
  canonical ← ok_or (h.canonicalize path) (canonicalize_failed path)
  ok (form (codes "literal") canonical)

unfoldable pub subpath_form : Host → Bytes → Result GenError Bytes
unfolding scheme_escape
subpath_form h path = do
  guard (h.creates_dir path) (create_dir_failed path)
  canonical ← ok_or (h.canonicalize path) (canonicalize_failed path)
  ok (form (codes "subpath") canonical)

unfoldable pub read_subpath_form : Host → Bytes → Result GenError Bytes
unfolding scheme_escape
read_subpath_form h path = do
  canonical ← ok_or (h.canonicalize path) (canonicalize_failed path)
  ok (form (codes "subpath") canonical)

-- One line for each path.
unfoldable pub form_lines : (Bytes → Result GenError Bytes) → List Bytes → Result GenError Bytes
form_lines f [] = ok []
form_lines f (path ∷ paths) = do
  text ← f path
  rest ← form_lines f paths
  ok (codes "  " ++ text ++ codes "\n" ++ rest)

abbrev pub is_nil : List Bytes → Bool
is_nil [] = true
is_nil (_ ∷ _) = false

unfoldable pub reads_section : Host → List Bytes → Result GenError Bytes
reads_section h paths = if is_nil paths then ok [] else (do
  body ← form_lines (literal_form h) paths
  ok (codes "\n;; Explicit read-only VM inputs.\n(allow file-read-data\n" ++ body ++ codes ")\n"))

unfoldable pub read_dirs_section : Host → List Bytes → Result GenError Bytes
read_dirs_section h paths = if is_nil paths then ok [] else (do
  body ← form_lines (read_subpath_form h) paths
  ok (
      codes "\n;; Read-only directory subtrees (e.g. warm-pool snapshot base).\n(allow file-read*\n"
      ++ body
      ++ codes ")\n"))

unfoldable pub work_section : Host → (dirs files : List Bytes) → Result GenError Bytes
work_section h dirs files = if is_nil dirs && is_nil files then ok [] else (do
  subpaths ← form_lines (subpath_form h) dirs
  literals ← form_lines (literal_form h) files
  ok (
      codes
        "\n;; Per-VM working directories/files: API socket, logs, metrics, snapshots.\n(allow file-read* file-write*\n"
      ++ subpaths
      ++ literals
      ++ codes ")\n"))

unfoldable pub generate : Host → ProfileInputs → Result GenError Bytes
generate h inputs = do
  reads ← reads_section h inputs.reads
  read_dirs ← read_dirs_section h inputs.read_dirs
  work ← work_section h inputs.work_dirs inputs.read_write_files
  ok (preamble ++ reads ++ read_dirs ++ work)
