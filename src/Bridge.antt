-- ===== src/Bridge.antt =====
-- The Rust side of the Swift library, src/hephaestus-bridge/src/lib.rs: what is checked before a
-- call crosses, what a call is, and how its answer is read. The Swift library itself is the
-- parameter `Swift`. A signed 32-bit exit code is its two's complement, a number below 2 ^ 32.
pub mod Specs
pub mod Calls
pub mod Vms
pub mod Sound
mod Examples
use hephaestus.Base.{
  ℕ, Bool, true, false, ◌&&◌, Option, none, some, if◌then◌else◌, ◌==◌, List, [], ◌∷◌, ◌++◌, leb,
}
use hephaestus.Base.Text.{Bytes, codes, lacks}
use hephaestus.Base.Checked.{Result, ok, err, ◌>>=◌, ◌>>◌, guard}

pub data VmError : Type 0 where
  invalid_argument swift_error : Bytes → VmError

pub data HbStatus : Type 0 where
  fine bad_argument swift_failed : HbStatus

-- Compression of a tar archive.
pub data Compression : Type 0 where
  plain gzip zstd : Compression

unfoldable pub compression_code : Compression → ℕ
compression_code plain = 0
compression_code gzip = 1
compression_code zstd = 2

-- The bytes that the first read of the file gave, four at most; `none` if it cannot be read.
unfoldable pub auto_detect : Option Bytes → Option (Option Compression)
auto_detect none = none
auto_detect (some (a ∷ b ∷ rest)) =
    if a == 31 && b == 139
    then some (some gzip)
    else if a == 40 && (b == 181 && is_zstd rest)
    then some (some zstd)
    else some none
  where
    is_zstd : Bytes → Bool
    is_zstd (c ∷ d ∷ rest) = c == 47 && d == 253
    is_zstd _ = false
auto_detect (some _) = some none

pub data VzNetworkMode : Type 0 where
  no_network nat vmnet : VzNetworkMode

unfoldable pub mode_code : VzNetworkMode → ℕ
mode_code no_network = 0
mode_code nat = 1
mode_code vmnet = 2

pub record HbRestoreTimings : Type 0 where
  pub config_nanos : ℕ
  pub construct_nanos : ℕ
  pub restore_nanos : ℕ
  pub resume_nanos : ℕ

pub record HbVmConfig : Type 0 where
  pub id : Bytes
  pub kernel_path : Bytes
  pub initfs_path : Bytes
  pub rootfs_path : Bytes
  pub cpus : ℕ
  pub memory_mib : ℕ
  pub argv : List Bytes
  pub cwd : Option Bytes
  pub enable_networking : Bool
  pub network_ip_octet : ℕ
  pub enable_tty : Bool

-- The machine that `hb_vz_long_new` and `hb_vz_long_restore` describe.
pub record LongVm : Type 0 where
  pub kernel : Bytes
  pub rootfs : Bytes
  pub initrd : Option Bytes
  pub log : Bytes
  pub boot_args : Bytes
  pub cpus : ℕ
  pub memory_mib : ℕ
  pub read_only : Bool
  pub network_mode : ℕ
  pub host_packet_interface : Bool
  pub mac : Option Bytes
  pub drives : List (Bytes × Bool)

-- What one call of a Swift symbol hands over, in the order of its parameters.
pub data Crossing : Type 0 where
  hb_vm_new : HbVmConfig → Crossing
  hb_vm_create hb_vm_start hb_vm_wait hb_vm_stop hb_vm_free : (vm : ℕ) → Crossing
  hb_vz_boot : (kernel rootfs log : Bytes) → (cpus memory_mib run_seconds : ℕ) → Crossing
  hb_vz_exec :
      (kernel initramfs rootfs command : Bytes)
      → (log : Option Bytes) → (cpus memory_mib timeout_seconds forward_stdin : ℕ) → Crossing
  hb_vz_exec_snapshot_save :
      (kernel initramfs rootfs save : Bytes)
      → (log : Option Bytes) → (cpus memory_mib : ℕ) → Crossing
  hb_vz_exec_snapshot_restore :
      (kernel initramfs rootfs save command : Bytes)
      → (log : Option Bytes) → (cpus memory_mib : ℕ) → Crossing
  hb_vz_pool_restore_long :
      (kernel initramfs rootfs save : Bytes)
      → (log : Option Bytes) → (cpus memory_mib : ℕ) → Crossing
  hb_vz_stock_pool_restore_long :
      (kernel rootfs save : Bytes) → (log : Option Bytes) → (cpus memory_mib : ℕ) → Crossing
  hb_vz_long_new : LongVm → Crossing
  hb_vz_long_restore : LongVm → (save : Bytes) → (resume : Bool) → Crossing
  hb_vz_long_start hb_vz_long_pause hb_vz_long_request_stop : (vm : ℕ) → Crossing
  hb_vz_long_resume hb_vz_long_stop hb_vz_long_free : (vm : ℕ) → Crossing
  hb_vz_long_set_balloon_target : (vm target_bytes : ℕ) → Crossing
  hb_vz_long_serve_mmds : (vm port : ℕ) → (json : Bytes) → Crossing
  hb_vz_long_connect : (vm port : ℕ) → Crossing
  hb_vz_long_vmnet_read : (vm capacity : ℕ) → Crossing
  hb_vz_long_vmnet_write : (vm : ℕ) → (frame : Bytes) → Crossing
  hb_vz_long_save : (vm : ℕ) → (save : Bytes) → Crossing
  hb_vz_snapshot_save hb_vz_snapshot_restore :
      (kernel rootfs log save : Bytes) → (cpus memory_mib seconds : ℕ) → Crossing
  hb_vz_sh : (kernel rootfs : Bytes) → (cpus memory_mib timeout_seconds : ℕ) → Crossing
  hb_rootfs_from_tar : (tar output : Bytes) → (size_mib compression : ℕ) → Crossing

-- A status, the error text, and what the call wrote to its out-parameters. A file descriptor that
-- was left at -1 is `none`.
pub record Reply : Type 0 where
  pub status : HbStatus
  pub message : Option Bytes
  pub vm : ℕ
  pub exit_code : ℕ
  pub nanos : ℕ
  pub timings : HbRestoreTimings
  pub fd : Option ℕ
  pub len : ℕ

-- The Swift library, and the test of the standard library for UTF-8.
pub record Swift : Type 0 where
  pub answer : Crossing → Reply
  pub is_utf8 : Bytes → Bool

or_no_message : Option Bytes → Bytes
or_no_message none = codes "(no message)"
or_no_message (some m) = m

unfoldable pub into_result : HbStatus → Option Bytes → Result VmError (Unit {0})
unfolding or_no_message
into_result fine message = ok tt
into_result bad_argument message = err (invalid_argument (or_no_message message))
into_result swift_failed message = err (swift_error (or_no_message message))

-- `CString::new`.
unfoldable pub c_string : Bytes → Result VmError Bytes
c_string t = guard (lacks 0 t) (invalid_argument (codes "string contained interior NUL")) >> ok t

unfoldable pub path_to_str : (Bytes → Bool) → Bytes → Bytes → Result VmError Bytes
path_to_str is_utf8 p label =
    guard (is_utf8 p) (invalid_argument (label ++ codes " path is not UTF-8")) >> ok p

-- `CString::new(path_to_str(p, label)?)?`.
unfoldable pub path_c : (Bytes → Bool) → Bytes → Bytes → Result VmError Bytes
unfolding c_string path_to_str
path_c is_utf8 p label = path_to_str is_utf8 p label >>= c_string

unfoldable pub opt_path_cstring :
    (Bytes → Bool) → Option Bytes → Bytes → Result VmError (Option Bytes)
unfolding path_c
opt_path_cstring is_utf8 none label = ok none
opt_path_cstring is_utf8 (some p) label = path_c is_utf8 p label >>= λ q. ok (some q)

-- `map(CString::new).transpose()`.
unfoldable pub opt_c_string : Option Bytes → Result VmError (Option Bytes)
unfolding c_string
opt_c_string none = ok none
opt_c_string (some t) = c_string t >>= λ q. ok (some q)

unfoldable pub c_strings : List Bytes → Result VmError (List Bytes)
unfolding c_string
c_strings [] = ok []
c_strings (t ∷ ts) = do q ← c_string t; qs ← c_strings ts; ok (q ∷ qs)

-- `DriveArrays::new`: the paths and their flags, one for one.
unfoldable pub drive_arrays :
    (Bytes → Bool) → List (Bytes × Bool) → Result VmError (List (Bytes × Bool))
unfolding path_c
drive_arrays is_utf8 [] = ok []
drive_arrays is_utf8 ((path, ro) ∷ ds) = do
  p ← path_c is_utf8 path (codes "drive")
  qs ← drive_arrays is_utf8 ds
  ok ((p, ro) ∷ qs)

-- What a call of the bridge leaves: the calls that crossed, and its result.
abbrev pub Called : Type 0 → Type 0
Called A = List Crossing × Result VmError A

-- The part that every call of the bridge ends with: the prepared call crosses, its status becomes
-- a result, and only then its out-parameters are read. A call that could not be prepared does not
-- cross.
unfoldable pub invoke : {A : Type 0} → Swift → (Reply → A) → Result VmError Crossing → Called A
unfolding into_result
invoke s out (err e) = ([], err e)
invoke s out (ok c) =
    (c ∷ [], into_result (s.answer c).status (s.answer c).message >>= λ _. ok (out (s.answer c)))
