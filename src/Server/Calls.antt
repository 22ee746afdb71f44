-- ===== src/Server/Calls.antt =====
-- What a request of src/hephaestus-firecracker/src/server.rs comes to: the calls, the readers of the
-- bodies, and the ids of devices in paths.
use hephaestus.Base.{
  ℕ, zero, suc, Bool, true, false, ◌||◌, Option, none, some, if◌then◌else◌, ltb, [], ◌∷◌, any, ◌==◌,
  length,
}
use hephaestus.Base.Text.{Bytes, bytes_eq, strip_prefix}
use hephaestus.Json.{Value}
use hephaestus.Config.{
  BootSourceConfig, BlockDeviceConfig, BlockDeviceUpdateConfig, NetworkInterfaceConfig,
  LoggerConfig, MetricsConfig, MmdsConfig, VsockConfig, MachineConfig, MachineConfigUpdate,
  BalloonDeviceConfig, BalloonUpdateConfig, CreateSnapshotParams, LoadSnapshotConfig,
}
use hephaestus.Backend.Api.{Request, ctrl_alt_del, start, pausing, resuming, flushing}

pub data VmUpdatedState : Type 0 where
  to_paused to_resumed : VmUpdatedState

pub data ActionType : Type 0 where
  instance_start flush_metrics send_ctrl_alt_del : ActionType

-- `serde_json::from_slice` at each type; `none` is a refusal.
pub record Decoders : Type 0 where
  pub machine_config : Bytes → Option MachineConfig
  pub machine_config_update : Bytes → Option MachineConfigUpdate
  pub boot_source : Bytes → Option BootSourceConfig
  pub drive : Bytes → Option BlockDeviceConfig
  pub drive_update : Bytes → Option BlockDeviceUpdateConfig
  pub iface : Bytes → Option NetworkInterfaceConfig
  pub updated_vm : Bytes → Option VmUpdatedState
  pub logger : Bytes → Option LoggerConfig
  pub metrics : Bytes → Option MetricsConfig
  pub mmds_config : Bytes → Option MmdsConfig
  pub create_snapshot : Bytes → Option CreateSnapshotParams
  pub load_snapshot : Bytes → Option LoadSnapshotConfig
  pub action : Bytes → Option ActionType
  pub balloon : Bytes → Option BalloonDeviceConfig
  pub balloon_update : Bytes → Option BalloonUpdateConfig
  pub vsock : Bytes → Option VsockConfig
  pub value : Bytes → Option Value

-- What a request comes to. `dropped` is the refusal that returns before the request is observed.
pub data Call : Type 0 where
  change : Request → Call
  read_info read_version read_machine_config read_mmds read_balloon : Call
  unsupported refused dropped not_found : Call

abbrev pub max_body_bytes : ℕ
max_body_bytes = 51200

-- `parse_body`: a body that cannot be read is `none`; one that is too long is refused before it is
-- decoded.
unfoldable pub parse_body : {A : Type 0} → (Bytes → Option A) → Option Bytes → (A → Call) → Call
parse_body decode none k = refused
parse_body decode (some b) k =
    if ltb max_body_bytes (length b)
    then refused
    else elim (decode b) [ none ↦ refused | some a ↦ k a ]

-- `str::trim_start_matches`: the prefix is taken off as often as it stands there.
unfoldable pub trim_from : ℕ → Bytes → Bytes → Bytes
trim_from zero p s = s
trim_from (suc f) p s = elim (strip_prefix p s) [ none ↦ s | some rest ↦ trim_from f p rest ]

unfoldable pub trim_start_matches : Bytes → Bytes → Bytes
unfolding trim_from
trim_start_matches p s = trim_from (length s) p s

is_nil : Bytes → Bool
is_nil [] = true
is_nil (c ∷ s) = false

-- The id of a device in a path, and the call if it is an id.
unfoldable pub with_id : Bytes → Bytes → (Bytes → Call) → Call
unfolding trim_start_matches is_nil
with_id prefix path k =
    let id = trim_start_matches prefix path in
    if is_nil id || any (λ c. c == b'/') id then dropped else k id

-- The body names the device of the path.
unfoldable pub same_id : Bytes → Bytes → Call → Call
same_id in_body id call = if bytes_eq in_body id then call else refused

unfoldable pub vm_call : VmUpdatedState → Call
vm_call to_paused = change pausing
vm_call to_resumed = change resuming

unfoldable pub action_call : ActionType → Call
action_call instance_start = change start
action_call flush_metrics = change flushing
action_call send_ctrl_alt_del = change ctrl_alt_del
