-- ===== src/Backend/State.antt =====
-- The data of the backend: errors, the state of `VzBackend`, what the host answers during a call,
-- and what was done to it.
use hephaestus.Base.{ℕ, Bool, Option, List}
use hephaestus.Base.Text.{Bytes}
use hephaestus.Json.{Value}
use hephaestus.Config.{
  VmState, BootSourceConfig, NetworkInterfaceConfig, MachineConfig, MmdsConfig, BalloonDeviceConfig,
  VsockConfig,
}
use hephaestus.Pool
use hephaestus.Pool.{Pool, ClaimedSlot, Disk}

-- The message of an error is not kept: callers look at the kind alone.
pub data VmmBackendError : Type 0 where
  invalid_state invalid_config not_supported internal : VmmBackendError

pub data RunOrigin : Type 0 where
  cold_boot pool_restore snapshot_load : RunOrigin

pub data VzNetworkMode : Type 0 where
  no_network nat vmnet : VzNetworkMode

pub record ExtraDrive : Type 0 where
  pub id : Bytes
  pub path : Bytes
  pub read_only : Bool

pub data LogLevel : Type 0 where
  error warn info debug trace off : LogLevel

pub record LoggerState : Type 0 where
  pub path : Option Bytes
  pub level : LogLevel
  pub show_level : Bool
  pub show_log_origin : Bool
  pub module_name : Option Bytes

pub record ApiCounters : Type 0 where
  pub instance_info : ℕ
  pub machine_cfg_get : ℕ
  pub mmds_get : ℕ
  pub vmm_version : ℕ
  pub actions : ℕ
  pub boot_source : ℕ
  pub drive_put : ℕ
  pub logger : ℕ
  pub machine_cfg_put : ℕ
  pub metrics : ℕ
  pub mmds_put : ℕ
  pub net_put : ℕ
  pub snapshot_create : ℕ
  pub snapshot_load : ℕ
  pub drive_patch : ℕ
  pub machine_cfg_patch : ℕ
  pub mmds_patch : ℕ
  pub net_patch : ℕ
  pub vm_patch : ℕ

-- The start time is not kept. `file` says whether the metrics file is open.
pub record MetricsState : Type 0 where
  pub file : Bool
  pub flush_count : ℕ
  pub api_requests : ℕ
  pub api_request_fails : ℕ
  pub counters : ApiCounters
  pub pool_hits : ℕ
  pub pool_misses : ℕ
  pub snapshot_loads : ℕ

-- A VM handle is a number that the host gave out. `vmnet_mmds` says whether the responder's thread
-- runs, and `vsock_bridge` holds the path that the bridge is bound to.
pub record VzBackend : Type 0 where
  pub id : Bytes
  pub state : VmState
  pub boot_source : Option BootSourceConfig
  pub root_drive : Option Bytes
  pub root_drive_read_only : Bool
  pub extra_drives : List ExtraDrive
  pub iface : Option NetworkInterfaceConfig
  pub network_mode : VzNetworkMode
  pub machine_config : MachineConfig
  pub mmds : Value
  pub mmds_shared : Value
  pub mmds_config : MmdsConfig
  pub host_mmds : Bool
  pub balloon : Option BalloonDeviceConfig
  pub vsock : Option VsockConfig
  pub logger : LoggerState
  pub metrics : MetricsState
  pub vmnet_mmds : Bool
  pub vsock_bridge : Option Bytes
  pub vm : Option ℕ
  pub pool_slot : Option ClaimedSlot
  pub pool : Option Pool
  pub origin : Option RunOrigin

-- `VzSpec` of src/hephaestus-bridge/src/lib.rs, what a VM is built from.
pub record VzSpec : Type 0 where
  pub kernel_path : Bytes
  pub rootfs_path : Bytes
  pub initrd_path : Option Bytes
  pub log_path : Bytes
  pub boot_args : Bytes
  pub cpus : ℕ
  pub memory_mib : ℕ
  pub read_only : Bool
  pub network_mode : VzNetworkMode
  pub host_packet_interface : Bool
  pub mac : Option Bytes
  pub extra_drives : List (Bytes × Bool)

-- What the operations do to the host and to the VM, in order.
pub data Event : Type 0 where
  served_mmds : (vm : ℕ) → Bytes → Event
  saved_state : (vm : ℕ) → Bytes → Event
  paused_vm resumed_vm stop_requested : (vm : ℕ) → Event
  balloon_target : (vm bytes : ℕ) → Event
  built : VzSpec → Event
  started pool_restored : (vm : ℕ) → Event
  restored : VzSpec → (snapshot : Bytes) → (resume : Bool) → Event
  touched : Bytes → Event
  wrote_metrics : MetricsState → Event
  wrote_log : (path : Bytes) → LogLevel → Event

-- The host's answers during one call. `None` and `false` are failures.
pub record Host : Type 0 where
  pub path_exists : Bytes → Bool
  pub opens : Bytes → Bool
  pub resolve : Bytes → Option Bytes
  pub work_dir : Bytes
  pub lock_poisoned : Bool
  pub to_vec : Value → Option Bytes
  pub serves : Bytes → Bool
  pub saves : Bytes → Bool
  pub pauses : Bool
  pub resumes : Bool
  pub stops : Bool
  pub sets_balloon : ℕ → Bool
  pub builds : VzSpec → Option ℕ
  pub starts : Bool
  pub restores : VzSpec → Bytes → Bool → Option ℕ
  pub responder_starts : Bool
  pub binds : Bytes → Bool
  pub slots : Pool.Host

-- The events stand newest first.
pub record World : Type 0 where
  pub backend : VzBackend
  pub open backend use *
  pub events : List Event
  pub disk : Disk
