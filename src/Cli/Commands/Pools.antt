-- ===== src/Cli/Commands/Pools.antt =====
-- The commands on warm pools, over the slots and the metadata of the pool crate.
use hephaestus.Base.{ℕ, suc, ◌-◌, Bool, Option, none, some, if◌then◌else◌, List, [], ◌∷◌}
use hephaestus.Base.Text.{Bytes}
use hephaestus.Base.Checked.{Result, ok, err}
use hephaestus.Pool.Init.{PoolInit, Act, InitHost, init, destroy}
use hephaestus.Pool.{
  agent, stock_init, PoolError, Pool, Disk, Host, ClaimedSlot, SlotState, try_claim_slot, stats,
  drop_slot,
}
use hephaestus.Pool as Slots
use hephaestus.Cli.Commands.{guest_status}
use hephaestus.Cli.Slots.{PoolInitOptions, PoolRunOptions}

unfoldable pub init_args : PoolInitOptions → PoolInit
init_args o = record {
  dir = o.dir;
  kernel = o.kernel;
  rootfs_source = o.rootfs;
  slots = o.size;
  cpus = o.cpus;
  memory_mib = o.memory_mib;
  flavor = if o.stock_init then stock_init else agent;
  initramfs = if o.stock_init then none else some o.initramfs;
  settle_seconds = o.settle_seconds;
}

pool_code : {A : Type 0} → Result PoolError A → ℕ
pool_code (ok a) = 0
pool_code (err e) = 1

unfoldable pub pool_init_cmd : InitHost → PoolInitOptions → List Act × ℕ
unfolding init_args pool_code
pool_init_cmd h o = let (acts, got) = init h (init_args o) in (acts, pool_code got)

unfoldable pub pool_destroy_cmd : (exists removed : Bool) → ℕ
unfolding pool_code
pool_destroy_cmd exists removed = pool_code (destroy exists removed).0

-- The run in a claimed slot. The slot is dropped when the command returns.
unfoldable pub run_claimed : Host → Pool → Bytes → ClaimedSlot → Disk → ℕ × Disk
unfolding guest_status
run_claimed h p command s d = let (got, d') = Slots.run h p s d in (code_of got, drop_slot s d')
  where
    code_of : Result PoolError ℕ → ℕ
    code_of (ok code) = guest_status code
    code_of (err e) = 1

-- What follows the claim: 75 where every slot is busy.
unfoldable pub after_claim :
    Host → Pool → Bytes → Result PoolError (Option ClaimedSlot) → Disk → ℕ × Disk
after_claim h p command (err e) d = (1, d)
after_claim h p command (ok none) d = (75, d)
after_claim h p command (ok (some s)) d = run_claimed h p command s d

-- `opened` is what `Pool::open` gives for the directory of the options.
unfoldable pub pool_run_cmd :
    Host → (Bytes → Result PoolError Pool) → PoolRunOptions → Disk → ℕ × Disk
pool_run_cmd h opened o d = elim (opened o.dir) [
  | err e ↦ (1, d)
  | ok p ↦ let (claim, d') = try_claim_slot h p d in after_claim h p o.command claim d'
]

unfoldable pub count_busy : List SlotState → ℕ
count_busy [] = 0
count_busy (s ∷ ss) = if s.busy then suc (count_busy ss) else count_busy ss

-- What the first line of the statistics shows.
pub record Shown : Type 0 where
  pub total : ℕ
  pub busy : ℕ
  pub free : ℕ

-- The subtraction is the source's: a slot is counted once.
unfoldable pub show_stats : Pool → List SlotState → Shown
unfolding count_busy
show_stats p slots = record {
  total = p.meta.slots;
  busy = count_busy slots;
  free = p.meta.slots - count_busy slots;
}

unfoldable pub pool_stats_cmd :
    Host → (Bytes → Result PoolError Pool) → Bytes → Disk → ℕ × Option Shown
unfolding show_stats
pool_stats_cmd h opened dir d = elim (opened dir) [
  | err e ↦ (1, none)
  | ok p ↦ elim (stats h p d) [ err e ↦ (1, none) | ok slots ↦ (0, some (show_stats p slots)) ]
]
