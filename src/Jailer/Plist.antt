-- ===== src/Jailer/Plist.antt =====
-- The launchd job that runs the jailer again: `generate_launchd_plist` and `plist_path`.
use hephaestus.Base.{ℕ, Option, none, some, is_some, unwrap_or, if◌then◌else◌, List, [], ◌∷◌, ◌++◌}
use hephaestus.Base.Text.{Bytes, codes, newline}
use hephaestus.Base.Decimal.{format}
use hephaestus.Base.Checked.{Result, ok, ◌>>=◌, ok_or}
use hephaestus.Jailer.{Args, JailerError, panicked, Host, as_flag_value}
use hephaestus.Jailer.Escape.{xml_escape}
use hephaestus.Jailer.Prepare.{Plan}
use hephaestus.Jailer.Child.{flag_if}

-- A path that does not resolve is written as it was given.
unfoldable pub plist_path : Host → Bytes → Bytes
plist_path h path = unwrap_or (h.canonicalize path) path

abbrev pub flag_path : Host → Bytes → Option Bytes → List Bytes
flag_path h flag none = []
flag_path h flag (some path) = (flag ++ plist_path h path) ∷ []

abbrev pub flag_number : Bytes → Option ℕ → List Bytes
flag_number flag none = []
flag_number flag (some n) = (flag ++ format n) ∷ []

abbrev pub flag_text : Bytes → Option Bytes → List Bytes
flag_text flag none = []
flag_text flag (some text) = (flag ++ text) ∷ []

-- The identity that `--uid-base` allocated is pinned.
unfoldable pub pinned_args : Args → Plan → Result JailerError (List Bytes)
pinned_args args plan =
    if is_some args.uid_base
    then (do
      uid ← ok_or plan.target_uid panicked
      gid ← ok_or plan.target_gid panicked
      ok ((codes "--uid=" ++ format uid) ∷ (codes "--gid=" ++ format gid) ∷ []))
    else ok []

unfoldable pub program_args :
    Host → Args → Plan → (exe kernel rootfs : Bytes) → (pinned : List Bytes) → List Bytes
unfolding plist_path as_flag_value
program_args h args plan exe kernel rootfs pinned =
    exe
      ∷ (codes "--id=" ++ args.id)
      ∷ (codes "--kernel=" ++ plist_path h kernel)
      ∷ (codes "--rootfs=" ++ plist_path h rootfs)
      ∷ (codes "--work-dir=" ++ plist_path h plan.work_root)
      ∷ (codes "--firecracker-binary=" ++ plist_path h plan.binary)
      ∷ flag_path h (codes "--initramfs=") args.initramfs
    ++ flag_path h (codes "--pool-dir=") args.pool_dir
    ++ flag_path h (codes "--deny-probe=") args.deny_probe
    ++ ((codes "--network-backend=" ++ as_flag_value args.network_backend) ∷ [])
    ++ flag_if args.host_mmds (codes "--host-mmds")
    ++ pinned
    ++ flag_number (codes "--uid=") args.uid
    ++ flag_number (codes "--gid=") args.gid
    ++ flag_text (codes "--user=") args.user
    ++ flag_if args.allow_shared_uid (codes "--allow-shared-uid")
    ++ flag_number (codes "--rlimit-nofile=") args.rlimit_nofile
    ++ flag_number (codes "--rlimit-nproc=") args.rlimit_nproc
    ++ flag_number (codes "--rlimit-fsize=") args.rlimit_fsize

-- The lines of the arguments, with a line break between each two.
unfoldable pub arg_lines : List Bytes → Bytes
arg_lines [] = []
arg_lines (a ∷ []) = codes "        <string>" ++ xml_escape a ++ codes "</string>"
arg_lines (a ∷ b ∷ as_) =
    codes "        <string>" ++ xml_escape a ++ codes "</string>" ++ newline ∷ arg_lines (b ∷ as_)

unfoldable pub plist_text : (id root args_xml : Bytes) → Bytes
unfolding xml_escape
plist_text id root args_xml =
    codes
      "<?xml version=\"1.0\" encoding=\"UTF-8\"?>\n<!DOCTYPE plist PUBLIC \"-//Apple//DTD PLIST 1.0//EN\" \"http://www.apple.com/DTDs/PropertyList-1.0.dtd\">\n<plist version=\"1.0\">\n<dict>\n    <key>Label</key>\n    <string>com.hephaestus.vm."
    ++ id
    ++ codes "</string>\n    <key>ProgramArguments</key>\n    <array>\n"
    ++ args_xml
    ++ codes
        "\n    </array>\n    <key>KeepAlive</key>\n    <true/>\n    <key>RunAtLoad</key>\n    <true/>\n    <key>StandardOutPath</key>\n    <string>"
    ++ xml_escape root
    ++ codes "/."
    ++ xml_escape id
    ++ codes ".launchd.stdout.log</string>\n    <key>StandardErrorPath</key>\n    <string>"
    ++ xml_escape root
    ++ codes "/."
    ++ xml_escape id
    ++ codes
        ".launchd.stderr.log</string>\n    <key>ThrottleInterval</key>\n    <integer>5</integer>\n</dict>\n</plist>\n"

unfoldable pub generate_launchd_plist : Host → Args → Plan → Result JailerError Bytes
unfolding plist_path
generate_launchd_plist h args plan = do
  exe ← ok_or h.current_exe JailerError.current_exe
  kernel ← ok_or args.kernel panicked
  rootfs ← ok_or args.rootfs panicked
  pinned ← pinned_args args plan
  ok (
      plist_text args.id (plist_path h plan.work_root)
        (arg_lines (program_args h args plan exe kernel rootfs pinned)))
