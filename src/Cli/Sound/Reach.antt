-- ===== src/Cli/Sound/Reach.antt =====
-- What any command line reaches: the calls that a whole run of the program makes.
use hephaestus.Base.{
  ℕ, ◌≡◌, refl, Bool, true, false, if◌then◌else◌, List, [], ◌∷◌, All, arith, is_some,
}
use hephaestus.Base.Text.{Bytes}
use hephaestus.Base.Checked.{Result, ok, err, Gives}
use hephaestus.Bridge.{Crossing}
use hephaestus.Cli.{UsageError}
use hephaestus.Cli.Commands.{
  run_spec, and_then, drive, run, chosen, build_with, vz_boot_cmd, vz_exec_cmd, vz_warm_save_cmd,
  vz_warm_run_cmd, vz_sh_cmd, vz_snap_save_cmd, vz_snap_restore_cmd, Ended,
}
use hephaestus.Cli.Commands.Main.{
  Machine, Outcome, exits, calling, parsed, main, without_help, dispatch, pool_group, warm_group,
  snapshot_group,
}
use hephaestus.Cli.Sound.Safe.{
  IsSafe, build_with-All, exec-All, boot-All, sh-All, warm_save-All, warm_run-All, snap_save-All,
  snap_restore-All, run-All,
}
use hephaestus.Cli.Sound.{parse_run_args-Gives}
use hephaestus.Cli.Help.{
  Subcommand, ping, pool, vz_warm, vz_snapshot, vz_boot, vz_exec, vz_sh, unknown, subcommand,
  help_text,
}
use hephaestus.Cli.Sound.Paths.{
  parse_rootfs_args-Gives, parse_vz_boot_args-Gives, parse_vz_exec_args-Gives,
  parse_vz_sh_args-Gives, parse_vz_warm_args-Gives, parse_vz_snap_args-Gives,
}

-- What holds of the calls of an outcome.
Made : (Crossing → Type 0) → Outcome → Type 0
Made Q o = All Q o.calls

-- A command that runs on what a parser gives, and calls the bridge.
parsed-Made :
    {O : Type 0} (m : Machine) (Q : Crossing → Type 0) (P : O → Type 0) (r : Result UsageError O)
    (command : O → Ended)
    → Gives P r
    → ((o : O) → P o → All Q (command o).0)
    → Made Q (parsed m r (calling m command))
unfolding parsed Gives Made
parsed-Made m Q P (ok o) command h k = k o h
parsed-Made m Q P (err e) command h k = tt

-- The cases of a test keep a property.
if-Made :
    (Q : Crossing → Type 0) (b : Bool) (x y : Outcome)
    → Made Q x
    → Made Q y
    → Made Q (if b then x else y)
if-Made Q true x y h k = h
if-Made Q false x y h k = k

usage-Made : (m : Machine) (Q : Crossing → Type 0) (code : ℕ) → Made Q (exits m code)
unfolding Made
usage-Made m Q code = tt

module _ (m : Machine) where
  abbrev SafeHere : Crossing → Type 0
  SafeHere = IsSafe m.host.exists m.host.swift.is_utf8

  warm_group-All : (ws : List Bytes) → Made SafeHere (warm_group m ws)
  unfolding warm_group
  warm_group-All [] = usage-Made m SafeHere 2
  warm_group-All (w ∷ ws) =
      if-Made SafeHere _ _ _
        (parsed-Made m SafeHere _ _ _ (parse_vz_warm_args-Gives m.host.exists false ws)
          (warm_save-All m.host.exists m.host.swift))
        (if-Made SafeHere _ _ _
          (parsed-Made m SafeHere _ _ _ (parse_vz_warm_args-Gives m.host.exists true ws)
            (warm_run-All m.host.exists m.host.swift))
          (usage-Made m SafeHere 2))

  snapshot_group-All : (ws : List Bytes) → Made SafeHere (snapshot_group m ws)
  unfolding snapshot_group
  snapshot_group-All [] = usage-Made m SafeHere 2
  snapshot_group-All (w ∷ ws) =
      if-Made SafeHere _ _ _
        (parsed-Made m SafeHere _ _ _ (parse_vz_snap_args-Gives m.host.exists true ws)
          (λ o (k, r, f). snap_save-All m.host.exists m.host.swift o k r))
        (if-Made SafeHere _ _ _
          (parsed-Made m SafeHere _ _ _ (parse_vz_snap_args-Gives m.host.exists false ws)
            (λ o (k, r, f). snap_restore-All m.host.exists m.host.swift o k r (f refl)))
          (usage-Made m SafeHere 2))

  -- The commands on pools make their calls inside the pool crate.
  pool_group-calls : (ws : List Bytes) → (pool_group m ws).calls ≡ []
  unfolding pool_group
  pool_group-calls [] = refl
  pool_group-calls (w ∷ ws) = ground arith

  dispatch-All : (c : Subcommand) (ws : List Bytes) → Made SafeHere (dispatch m c ws)
  unfolding dispatch build_with hephaestus.Cli.Commands.rootfs
  dispatch-All ping ws = usage-Made m SafeHere 0
  dispatch-All unknown ws = usage-Made m SafeHere 2
  dispatch-All pool ws = unfold Made in rw (pool_group-calls ws) tt
  dispatch-All vz_warm ws = warm_group-All ws
  dispatch-All vz_snapshot ws = snapshot_group-All ws
  dispatch-All Subcommand.run ws =
      parsed-Made m SafeHere _ _ _ (parse_run_args-Gives m.host.exists ws)
        (run-All m.host.exists m.host.swift)
  dispatch-All Subcommand.rootfs ws =
      parsed-Made m SafeHere _ _ _ (parse_rootfs_args-Gives m.host.exists ws)
        (λ o t. build_with-All m.host.exists m.host.swift o (chosen m.head o) t)
  dispatch-All vz_boot ws =
      parsed-Made m SafeHere _ _ _ (parse_vz_boot_args-Gives m.host.exists ws)
        (λ o (k, r). boot-All m.host.exists m.host.swift o k r)
  dispatch-All vz_exec ws =
      parsed-Made m SafeHere _ _ _ (parse_vz_exec_args-Gives m.host.exists ws)
        (λ o (k, r, i, c). exec-All m.host.exists m.host.swift o k r i)
  dispatch-All vz_sh ws =
      parsed-Made m SafeHere _ _ _ (parse_vz_sh_args-Gives m.host.exists ws)
        (λ o (k, r). sh-All m.host.exists m.host.swift o k r)

  without_help-All : (words : List Bytes) → Made SafeHere (without_help m words)
  unfolding without_help
  without_help-All [] = usage-Made m SafeHere 2
  without_help-All (w ∷ ws) =
      if-Made SafeHere _ _ _ (usage-Made m SafeHere 0) (dispatch-All (subcommand w) ws)

-- Whatever the command line: every call of the bridge that the program makes itself hands over texts
-- without a zero byte and paths that are UTF-8, its kernel, its root filesystem and every other image
-- that it reads have been found on the host, and the address of a guest lies in [2, 254].
pub main-IsSafe :
    (m : Machine) (words : List Bytes)
    → All (IsSafe m.host.exists m.host.swift.is_utf8) (main m words).calls
unfolding main Made
main-IsSafe m words =
    if-Made (SafeHere m) (is_some (help_text words)) (exits m 0) (without_help m words)
      (usage-Made m (SafeHere m) 0) (without_help-All m words)
