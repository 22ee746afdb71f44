-- ===== src/Backend.antt =====
-- The state of `VzBackend` of src/hephaestus-firecracker/src/backend.rs, and the shape of its
-- operations: a method takes what the host answers during the call, and returns its result, the
-- new backend and what it did to the host. The state comes back after an error too, since what was
-- assigned stays assigned.
pub mod State
pub mod Observe
pub mod Counters
pub mod Devices
pub mod Machine
pub mod Balloon
pub mod Metadata
pub mod Boot
pub mod Lifecycle
pub mod Api
pub mod Ipv4
pub mod Valid
pub mod Invariant
pub mod Config
pub mod Connect
pub mod Preboot
pub mod Rollback
pub mod Transitions
pub mod Effects
pub mod Samples
mod Examples
pub use State.*
use hephaestus.Base.{
  ℕ, ◌+◌, Bool, true, false, Option, none, some, if◌then◌else◌, List, [], ◌∷◌, ◌==◌, is_some,
  saturating_add, max_u64,
}
use hephaestus.Base.Text.{Bytes, codes}
use hephaestus.Base.Checked.{Result, ok, err}
use hephaestus.Json.{Value, object, end}
use hephaestus.Config.{
  VmState, not_started, BootSourceConfig, NetworkInterfaceConfig, MachineConfig, MmdsConfig,
  BalloonDeviceConfig, VsockConfig, default_machine_config, default_mmds_config,
}
use hephaestus.Pool
use hephaestus.Pool.{Pool, ClaimedSlot, Disk}

abbrev pub Action : Type 0 → Type 0
Action A = World → Result VmmBackendError A × World

abbrev pub Done : Type 0
Done = Unit {0}

infixl 5 ◌>>=◌ ◌>>◌
abbrev pub ◌>>=◌ : {A B : Type 0} → Action A → (A → Action B) → Action B
◌>>=◌ m f w = let (r, w') = m w in elim r [ ok a ↦ f a w' | err e ↦ (err e, w') ]

abbrev pub ◌>>◌ : {B : Type 0} → Action Done → Action B → Action B
m >> k = m >>= λ _. k

abbrev pub pure : {A : Type 0} → A → Action A
pure a w = (ok a, w)

abbrev pub done : Action Done
done w = (ok tt, w)

abbrev pub raise : {A : Type 0} → VmmBackendError → Action A
raise e w = (err e, w)

abbrev pub get : Action World
get w = (ok w, w)

-- `if !condition { return Err(e) }`.
abbrev pub require : Bool → VmmBackendError → Action Done
require b e w = (if b then ok tt else err e, w)

abbrev pub from_some : {A : Type 0} → Option A → VmmBackendError → Action A
from_some o e w = (elim o [ none ↦ err e | some a ↦ ok a ], w)

abbrev pub modify : (VzBackend → VzBackend) → Action Done
modify f w = (ok tt, record w { backend = f w.backend })

abbrev pub emit : Event → Action Done
emit e w = (ok tt, record w { events = e ∷ w.events })

-- The result of a call as a value, as in `match` and `if let Err`.
abbrev pub attempt : {A : Type 0} → Action A → Action (Result VmmBackendError A)
attempt m w = let (r, w') = m w in (ok r, w')

unfoldable pub is_not_started : VmState → Bool
is_not_started not_started = true
is_not_started _ = false

unfoldable pub require_preboot : Action Done
unfolding is_not_started
require_preboot w = require (is_not_started w.backend.state) invalid_state w

unfoldable pub default_logger : LoggerState
default_logger = record {
  path = none;
  level = info;
  show_level = false;
  show_log_origin = false;
  module_name = none;
}

unfoldable pub no_requests : ApiCounters
no_requests = record {
  instance_info = 0;
  machine_cfg_get = 0;
  mmds_get = 0;
  vmm_version = 0;
  actions = 0;
  boot_source = 0;
  drive_put = 0;
  logger = 0;
  machine_cfg_put = 0;
  metrics = 0;
  mmds_put = 0;
  net_put = 0;
  snapshot_create = 0;
  snapshot_load = 0;
  drive_patch = 0;
  machine_cfg_patch = 0;
  mmds_patch = 0;
  net_patch = 0;
  vm_patch = 0;
}

unfoldable pub default_metrics : MetricsState
unfolding no_requests
default_metrics = record {
  file = false;
  flush_count = 0;
  api_requests = 0;
  api_request_fails = 0;
  counters = no_requests;
  pool_hits = 0;
  pool_misses = 0;
  snapshot_loads = 0;
}

unfoldable pub new : Bytes → VzBackend
unfolding default_logger default_metrics default_machine_config default_mmds_config
new id = record {
  id = id;
  state = not_started;
  boot_source = none;
  root_drive = none;
  root_drive_read_only = false;
  extra_drives = [];
  iface = none;
  network_mode = nat;
  machine_config = default_machine_config;
  mmds = object end;
  mmds_shared = object end;
  mmds_config = default_mmds_config;
  host_mmds = false;
  balloon = none;
  vsock = none;
  logger = default_logger;
  metrics = default_metrics;
  vmnet_mmds = false;
  vsock_bridge = none;
  vm = none;
  pool_slot = none;
  pool = none;
  origin = none;
}

unfoldable pub with_pool : Pool → VzBackend → VzBackend
with_pool p b = record b { pool = some p }

unfoldable pub with_host_mmds : Bool → VzBackend → VzBackend
with_host_mmds enabled b = record b { host_mmds = enabled }

unfoldable pub with_vmnet_networking : Bool → VzBackend → VzBackend
with_vmnet_networking enabled b = record b { network_mode = if enabled then vmnet else nat }
