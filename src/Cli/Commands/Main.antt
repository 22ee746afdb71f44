-- ===== src/Cli/Commands/Main.antt =====
-- `main`: the dispatch over the subcommands, and the exit code of the process.
use hephaestus.Base.{ℕ, Bool, true, false, ◌||◌, Option, if◌then◌else◌, List, [], ◌∷◌, is_some}
use hephaestus.Base.Text.{Bytes}
use hephaestus.Base.Checked.{Result, ok, err}
use hephaestus.Bridge.{Crossing}
use hephaestus.Pool.{Pool, PoolError, Host, Disk}
use hephaestus.Pool.Init.{Act, InitHost}
use hephaestus.Cli.Commands.Pools.{pool_init_cmd, pool_run_cmd, pool_stats_cmd, pool_destroy_cmd}
use hephaestus.Cli.{UsageError}
use hephaestus.Cli.Run.{parse_run_args}
use hephaestus.Cli.Direct.{
  parse_rootfs_args, parse_vz_boot_args, parse_vz_exec_args, parse_vz_sh_args,
}
use hephaestus.Cli.Saved.{parse_vz_warm_args, parse_vz_snap_args}
use hephaestus.Cli.Slots.{parse_pool_init, parse_pool_run, parse_pool_dir_only}
use hephaestus.Cli.Help.{
  Subcommand, ping, run, rootfs, vz_boot, vz_exec, pool, vz_warm, vz_sh, vz_snapshot, unknown,
  subcommand, help_text, is_word,
}
use hephaestus.Cli.Commands
use hephaestus.Cli.Commands.{
  Ended, vz_boot_cmd, vz_exec_cmd, vz_warm_save_cmd, vz_warm_run_cmd, vz_sh_cmd, vz_snap_save_cmd,
  vz_snap_restore_cmd,
}

-- The machine that the program runs on: the file system and the bridge, the first bytes of a file,
-- the answers to locks and runs of slots, the pool that opens in a directory, and the locks of it.
pub record Machine : Type 0 where
  pub host : InitHost
  pub head : Bytes → Option Bytes
  pub slots : Host
  pub opened : Bytes → Result PoolError Pool
  pub removes : Bytes → Bool
  pub disk : Disk

-- What a run of the program leaves: the calls that crossed the bridge outside pools, what the
-- initialisation of a pool did, the locks of the slots, and the exit code.
pub record Outcome : Type 0 where
  pub calls : List Crossing
  pub acts : List Act
  pub disk : Disk
  pub code : ℕ

abbrev pub ends_with : Machine → List Crossing → List Act → Disk → ℕ → Outcome
ends_with m calls acts disk code = record { calls = calls; acts = acts; disk = disk; code = code }

-- Nothing was done.
abbrev pub exits : Machine → ℕ → Outcome
exits m code = ends_with m [] [] m.disk code

-- A refused command line exits with 2.
abbrev pub usage : Machine → Outcome
usage m = exits m 2

unfoldable pub parsed : {O : Type 0} → Machine → Result UsageError O → (O → Outcome) → Outcome
parsed m (ok o) command = command o
parsed m (err e) command = usage m

-- A command that only calls the bridge.
abbrev pub calling : {O : Type 0} → Machine → (O → Ended) → O → Outcome
calling m command o = ends_with m (command o).0 [] m.disk (command o).1

unfoldable pub pool_group : Machine → List Bytes → Outcome
unfolding parsed
pool_group m [] = usage m
pool_group m (w ∷ ws) =
    if is_word "init" w
    then parsed m (parse_pool_init m.host.exists ws)
        (λ o. ends_with m [] (pool_init_cmd m.host o).0 m.disk (pool_init_cmd m.host o).1)
    else if is_word "run" w
    then parsed m (parse_pool_run ws) (λ o.
      ends_with m [] [] (pool_run_cmd m.slots m.opened o m.disk).1
        (pool_run_cmd m.slots m.opened o m.disk).0)
    else if is_word "stats" w
    then parsed m (parse_pool_dir_only ws)
        (λ dir. exits m (pool_stats_cmd m.slots m.opened dir m.disk).0)
    else if is_word "destroy" w
    then parsed m (parse_pool_dir_only ws)
        (λ dir. exits m (pool_destroy_cmd (m.host.exists dir) (m.removes dir)))
    else usage m

unfoldable pub warm_group : Machine → List Bytes → Outcome
warm_group m [] = usage m
warm_group m (w ∷ ws) =
    if is_word "save" w
    then parsed m (parse_vz_warm_args false m.host.exists ws)
        (calling m (vz_warm_save_cmd m.host.swift))
    else if is_word "run" w
    then parsed m (parse_vz_warm_args true m.host.exists ws)
        (calling m (vz_warm_run_cmd m.host.swift))
    else usage m

unfoldable pub snapshot_group : Machine → List Bytes → Outcome
snapshot_group m [] = usage m
snapshot_group m (w ∷ ws) =
    if is_word "save" w
    then parsed m (parse_vz_snap_args true m.host.exists ws)
        (calling m (vz_snap_save_cmd m.host.swift))
    else if is_word "restore" w
    then parsed m (parse_vz_snap_args false m.host.exists ws)
        (calling m (vz_snap_restore_cmd m.host.swift))
    else usage m

unfoldable pub dispatch : Machine → Subcommand → List Bytes → Outcome
dispatch m ping ws = exits m 0
dispatch m run ws =
    parsed m (parse_run_args m.host.exists ws) (calling m (Commands.run m.host.swift))
dispatch m rootfs ws =
    parsed m (parse_rootfs_args m.host.exists ws) (calling m (Commands.rootfs m.host.swift m.head))
dispatch m vz_boot ws =
    parsed m (parse_vz_boot_args m.host.exists ws) (calling m (vz_boot_cmd m.host.swift))
dispatch m vz_exec ws =
    parsed m (parse_vz_exec_args m.host.exists ws) (calling m (vz_exec_cmd m.host.swift))
dispatch m pool ws = pool_group m ws
dispatch m vz_warm ws = warm_group m ws
dispatch m vz_sh ws =
    parsed m (parse_vz_sh_args m.host.exists ws) (calling m (vz_sh_cmd m.host.swift))
dispatch m vz_snapshot ws = snapshot_group m ws
dispatch m unknown ws = usage m

-- Without a help page: the version where it is asked for first, or the subcommand.
unfoldable pub without_help : Machine → List Bytes → Outcome
without_help m [] = usage m
without_help m (w ∷ ws) =
    if is_word "-V" w || is_word "--version" w then exits m 0 else dispatch m (subcommand w) ws

-- Help comes before everything else.
unfoldable pub main : Machine → List Bytes → Outcome
main m words = if is_some (help_text words) then exits m 0 else without_help m words
