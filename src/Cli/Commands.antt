-- ===== src/Cli/Commands.antt =====
-- The commands that the parsers hand their options to, other than those on pools: the calls of the
-- bridge that each makes, and the exit code. What is printed is left out.
pub mod Pools
pub mod Main
pub mod Busy
use hephaestus.Base.{
  ℕ, ◌<◌, Bool, true, false, Option, none, some, if◌then◌else◌, List, [], ◌∷◌, ◌++◌, leb, map,
}
use hephaestus.Base.Text.{Bytes, codes}
use hephaestus.Base.Checked.{Result, ok, err}
use hephaestus.Bridge.{VmError, Compression, plain, auto_detect, Crossing, Swift, Called}
use hephaestus.Bridge.Specs.{
  Spec, new_spec, with_argv, with_cwd, with_cpus, with_memory_mib, with_networking, with_ip_octet,
  with_tty,
}
use hephaestus.Bridge.Vms.{build, create, start, wait, stop, drop_vm}
use hephaestus.Bridge.Calls.{
  vz_boot, vz_exec, vz_exec_snapshot_save, vz_exec_snapshot_restore, vz_snapshot_save,
  vz_snapshot_restore, vz_sh, build_rootfs_from_tar,
}
use hephaestus.Cli.Run.{RunOptions}
use hephaestus.Cli.Direct.{RootfsOptions, VzBootOptions, VzExecOptions, VzShOptions}
use hephaestus.Cli.Saved.{VzWarmOptions, VzSnapOptions}

-- The calls that crossed, and the exit code of the process.
abbrev pub Ended : Type 0
Ended = List Crossing × ℕ

-- `u8::try_from(code)`, and 1 where it does not fit.
unfoldable pub guest_status : ℕ → ℕ
guest_status code = if leb code 255 then code else 1

unfoldable pub code_of : Result VmError ℕ → ℕ
unfolding guest_status
code_of (ok code) = guest_status code
code_of (err e) = 1

-- Success or 1.
unfoldable pub done_or_one : {A : Type 0} → Result VmError A → ℕ
done_or_one (ok a) = 0
done_or_one (err e) = 1

-- An optional setting of a builder.
unfoldable pub if_some : {A : Type 0} → (A → Spec → Spec) → Option A → Spec → Spec
if_some f none spec = spec
if_some f (some a) spec = f a spec

-- `if !opts.argv.is_empty()`.
unfoldable pub if_any : List Bytes → Spec → Spec
if_any [] spec = spec
if_any (w ∷ ws) spec = with_argv (w ∷ ws) spec

unfoldable pub run_spec : RunOptions → Spec
unfolding if_some if_any new_spec with_argv with_cwd with_cpus with_memory_mib with_networking
    with_ip_octet with_tty
run_spec o =
    let start : Spec = new_spec o.id o.kernel o.initfs o.rootfs in
    let sized : Spec =
      if_some with_memory_mib o.memory_mib (if_some with_cpus o.cpus (if_any o.argv start)) in
    if_some with_ip_octet o.ip_octet
      (with_tty o.tty (with_networking o.network (if_some with_cwd o.cwd sized)))

-- An early return with 1 on an error, and what comes after it on a success.
unfoldable pub and_then : {A : Type 0} → Called A → (A → Ended) → Ended
and_then (calls, err e) next = (calls, 1)
and_then (calls, ok a) next = (calls ++ (next a).0, (next a).1)

-- What `run` does with its VM. An error of the stop is printed only.
unfoldable pub drive : Swift → ℕ → Ended
unfolding and_then guest_status
drive s vm =
    and_then (create s vm) λ _.
      and_then (start s vm) λ _. and_then (wait s vm) λ code. ((stop s vm).0, guest_status code)

-- Once the VM is built, its `Drop` ends every path.
unfoldable pub run : Swift → RunOptions → Ended
unfolding drive and_then
run s o = and_then (build s (run_spec o)) λ vm. ((drive s vm).0 ++ drop_vm vm, (drive s vm).1)

or_plain : Option Compression → Compression
or_plain none = plain
or_plain (some c) = c

-- The compression of the options, or the one detected; `none` where the archive cannot be read.
-- `head` gives the first bytes of a file.
unfoldable pub chosen : (Bytes → Option Bytes) → RootfsOptions → Option Compression
unfolding or_plain
chosen head o = elim o.compression [
  | some c ↦ some c
  | none ↦ elim (auto_detect (head o.tar)) [ none ↦ none | some found ↦ some (or_plain found) ]
]

unfoldable pub build_with : Swift → RootfsOptions → Option Compression → Ended
unfolding done_or_one
build_with s o none = ([], 1)
build_with s o (some c) =
    let (calls, got) = build_rootfs_from_tar s o.tar o.output o.size_mib c in
    (calls, done_or_one got)

unfoldable pub rootfs : Swift → (Bytes → Option Bytes) → RootfsOptions → Ended
unfolding chosen build_with
rootfs s head o = build_with s o (chosen head o)

unfoldable pub vz_boot_cmd : Swift → VzBootOptions → Ended
unfolding done_or_one
vz_boot_cmd s o =
    let (calls, got) = vz_boot s o.kernel o.rootfs o.log o.cpus o.memory_mib o.run_seconds in
    (calls, done_or_one got)

abbrev pub stdin_sentinel : Bytes
stdin_sentinel = codes "__hephaestus_stdin__"

unfoldable pub wire_command : VzExecOptions → Bytes
wire_command o = if o.stdin then stdin_sentinel ++ o.command else o.command

unfoldable pub vz_exec_cmd : Swift → VzExecOptions → Ended
unfolding code_of wire_command
vz_exec_cmd s o =
    let (calls, got) =
      vz_exec s o.kernel o.initramfs o.rootfs (wire_command o) o.log o.cpus o.memory_mib
        o.timeout_seconds o.stdin in
    (calls, code_of got)

unfoldable pub vz_warm_save_cmd : Swift → VzWarmOptions → Ended
unfolding done_or_one
vz_warm_save_cmd s o =
    let (calls, got) =
      vz_exec_snapshot_save s o.kernel o.initramfs o.rootfs o.save o.log o.cpus o.memory_mib in
    (calls, done_or_one got)

warm_code : Result VmError (ℕ × ℕ) → ℕ
warm_code (ok (code, restore_nanos)) = guest_status code
warm_code (err e) = 1

unfoldable pub vz_warm_run_cmd : Swift → VzWarmOptions → Ended
unfolding warm_code guest_status
vz_warm_run_cmd s o =
    let (calls, got) =
      vz_exec_snapshot_restore s o.kernel o.initramfs o.rootfs o.save o.command o.log o.cpus
        o.memory_mib in
    (calls, warm_code got)

unfoldable pub vz_sh_cmd : Swift → VzShOptions → Ended
unfolding done_or_one
vz_sh_cmd s o =
    let (calls, got) = vz_sh s o.kernel o.rootfs o.cpus o.memory_mib o.timeout_seconds in
    (calls, done_or_one got)

unfoldable pub vz_snap_save_cmd : Swift → VzSnapOptions → Ended
unfolding done_or_one
vz_snap_save_cmd s o =
    let (calls, got) =
      vz_snapshot_save s o.kernel o.rootfs o.log o.save o.cpus o.memory_mib o.seconds in
    (calls, done_or_one got)

unfoldable pub vz_snap_restore_cmd : Swift → VzSnapOptions → Ended
unfolding done_or_one
vz_snap_restore_cmd s o =
    let (calls, got) =
      vz_snapshot_restore s o.kernel o.rootfs o.log o.save o.cpus o.memory_mib o.seconds in
    (calls, done_or_one got)
