-- ===== src/Server.antt =====
-- The routing of src/hephaestus-firecracker/src/server.rs: which call of the backend a request makes,
-- what is answered, and what is counted. The HTTP parser hands over the method, the path and the body;
-- the readers that serde derives for the configuration types are the record `Decoders`.

pub mod Calls
pub mod Endpoints
pub mod Sessions
pub mod Refusals
mod Examples
unfoldable pub use Calls.*
use hephaestus.Base.{
  ℕ, zero, suc, Bool, true, false, ◌||◌, Option, none, some, if◌then◌else◌, ltb, List, [], ◌∷◌, any,
  ◌==◌, length,
}
use hephaestus.Base.Text.{Bytes, codes, bytes_eq, starts_with, strip_prefix}
use hephaestus.Base.Checked.{Result, ok, err}
use hephaestus.Json.{Value}
use hephaestus.Config.{
  VmState, BootSourceConfig, BlockDeviceConfig, BlockDeviceUpdateConfig, NetworkInterfaceConfig,
  LoggerConfig, MetricsConfig, MmdsConfig, VsockConfig, MachineConfig, MachineConfigUpdate,
  BalloonDeviceConfig, BalloonUpdateConfig, CreateSnapshotParams, LoadSnapshotConfig,
}
use hephaestus.Backend.{
  VmmBackendError, invalid_state, invalid_config, not_supported, internal, Host, World, Done,
}
use hephaestus.Backend.Balloon.{get_balloon}
use hephaestus.Backend.Api.{
  Request, boot_source, block_device, block_device_update, network_device, network_device_update,
  logger, metrics, mmds_put, mmds_patch, mmds_config, vsock, machine_config, machine_config_update,
  entropy, balloon, balloon_update, ctrl_alt_del, start, pausing, resuming, snapshot_create,
  snapshot_load, flushing, observed, handle,
}

-- A `match` of a path: the first arm whose literal it is.
abbrev pub arms : Bytes → List (Bytes × Call) → Call → Call
arms s [] other = other
arms s ((literal, c) ∷ rest) other = if bytes_eq s literal then c else arms s rest other

unfoldable pub get_call : Bytes → Call
get_call path =
    arms path
      ((codes "/", read_info)
        ∷ (codes "/version", read_version)
        ∷ (codes "/machine-config", read_machine_config)
        ∷ (codes "/mmds", read_mmds)
        ∷ (codes "/balloon", read_balloon)
        ∷ (codes "/balloon/statistics", unsupported)
        ∷ (codes "/balloon/hinting/status", unsupported)
        ∷ (codes "/hotplug/memory", unsupported)
        ∷ (codes "/vm/config", unsupported)
        ∷ [])
      not_found

module _ (d : Decoders) where
  unfoldable pub put_drive_call : Bytes → Option Bytes → Call
  put_drive_call path b =
      with_id (codes "/drives/") path
        λ id. parse_body d.drive b λ c. same_id c.drive_id id (change (block_device c))

  unfoldable pub put_iface_call : Bytes → Option Bytes → Call
  put_iface_call path b =
      with_id (codes "/network-interfaces/") path
        λ id. parse_body d.iface b λ c. same_id c.iface_id id (change (network_device c))

  unfoldable pub put_pmem_call : Bytes → Option Bytes → Call
  put_pmem_call path b = with_id (codes "/pmem/") path λ id. parse_body d.value b λ _. unsupported

  unfoldable pub patch_drive_call : Bytes → Option Bytes → Call
  patch_drive_call path b =
      with_id (codes "/drives/") path λ id.
        parse_body d.drive_update b λ c. same_id c.drive_id id (change (block_device_update c))

  unfoldable pub patch_iface_call : Bytes → Option Bytes → Call
  patch_iface_call path b =
      with_id (codes "/network-interfaces/") path
        λ id. parse_body d.iface b λ c. same_id c.iface_id id (change (network_device_update c))

  unfoldable pub put_arms : Option Bytes → List (Bytes × Call)
  put_arms b =
      (codes "/machine-config", parse_body d.machine_config b λ c. change (machine_config c))
      ∷ (codes "/boot-source", parse_body d.boot_source b λ c. change (boot_source c))
      ∷ (codes "/logger", parse_body d.logger b λ c. change (logger c))
      ∷ (codes "/metrics", parse_body d.metrics b λ c. change (metrics c))
      ∷ (codes "/mmds", parse_body d.value b λ v. change (mmds_put v))
      ∷ (codes "/mmds/config", parse_body d.mmds_config b λ c. change (mmds_config c))
      ∷ (codes "/snapshot/create", parse_body d.create_snapshot b λ c. change (snapshot_create c))
      ∷ (codes "/snapshot/load", parse_body d.load_snapshot b λ c. change (snapshot_load c))
      ∷ (codes "/actions", parse_body d.action b action_call)
      ∷ (codes "/cpu-config", parse_body d.value b λ _. unsupported)
      ∷ (codes "/balloon", parse_body d.balloon b λ c. change (balloon c))
      ∷ (codes "/entropy", parse_body d.value b λ _. change entropy)
      ∷ (codes "/serial", parse_body d.value b λ _. unsupported)
      ∷ (codes "/hotplug/memory", parse_body d.value b λ _. unsupported)
      ∷ (codes "/vsock", parse_body d.vsock b λ c. change (vsock c))
      ∷ []

  unfoldable pub put_device_call : Bytes → Option Bytes → Call
  put_device_call path b =
      if starts_with (codes "/drives/") path
      then put_drive_call path b
      else if starts_with (codes "/network-interfaces/") path
      then put_iface_call path b
      else if starts_with (codes "/pmem/") path
      then put_pmem_call path b
      else not_found

  unfoldable pub put_call : Bytes → Option Bytes → Call
  put_call path b = arms path (put_arms b) (put_device_call path b)

  unfoldable pub patch_arms : Option Bytes → List (Bytes × Call)
  patch_arms b =
      (
        codes "/machine-config",
        parse_body d.machine_config_update b λ c. change (machine_config_update c),
      )
      ∷ (codes "/vm", parse_body d.updated_vm b vm_call)
      ∷ (codes "/mmds", parse_body d.value b λ v. change (mmds_patch v))
      ∷ (codes "/cpu-config", parse_body d.value b λ _. unsupported)
      ∷ (codes "/balloon", parse_body d.balloon_update b λ c. change (balloon_update c))
      ∷ (codes "/balloon/statistics", parse_body d.value b λ _. unsupported)
      ∷ (codes "/balloon/hinting/start", parse_body d.value b λ _. unsupported)
      ∷ (codes "/balloon/hinting/stop", parse_body d.value b λ _. unsupported)
      ∷ (codes "/hotplug/memory", parse_body d.value b λ _. unsupported)
      ∷ []

  unfoldable pub patch_device_call : Bytes → Option Bytes → Call
  patch_device_call path b =
      if starts_with (codes "/drives/") path
      then patch_drive_call path b
      else if starts_with (codes "/network-interfaces/") path
      then patch_iface_call path b
      else not_found

  unfoldable pub patch_call : Bytes → Option Bytes → Call
  patch_call path b = arms path (patch_arms b) (patch_device_call path b)

  unfoldable pub dispatch : (method path : Bytes) → Option Bytes → Call
  dispatch method path b =
      if bytes_eq method (codes "GET")
      then get_call path
      else if bytes_eq method (codes "PUT")
      then put_call path b
      else if bytes_eq method (codes "PATCH")
      then patch_call path b
      else not_found

-- What stands in the body of a response.
pub data Content : Type 0 where
  no_content fault_message version : Content
  instance_info : Bytes → VmState → Content
  machine : MachineConfig → Content
  metadata : Value → Content
  balloon_config : BalloonDeviceConfig → Content

pub record Response : Type 0 where
  pub status : ℕ
  pub content : Content

abbrev pub fault : ℕ → Response
fault status = record { status = status; content = fault_message }

unfoldable pub error_status : VmmBackendError → ℕ
error_status invalid_state = 400
error_status invalid_config = 400
error_status not_supported = 400
error_status internal = 500

unfoldable pub to_response : Result VmmBackendError Done → Response
unfolding error_status
to_response (ok _) = record { status = 204; content = no_content }
to_response (err e) = fault (error_status e)

balloon_response : Result VmmBackendError BalloonDeviceConfig → Response
balloon_response (ok c) = record { status = 200; content = balloon_config c }
balloon_response (err e) = to_response (err e)

unfoldable pub perform : Host → Call → World → Response × World
unfolding balloon_response
perform h (change r) w = let (res, w') = handle h r w in (to_response res, w')
perform h read_info w =
    (record { status = 200; content = instance_info w.backend.id w.backend.state }, w)
perform h read_version w = (record { status = 200; content = version }, w)
perform h read_machine_config w =
    (record { status = 200; content = machine w.backend.machine_config }, w)
perform h read_mmds w = (record { status = 200; content = metadata w.backend.mmds }, w)
perform h read_balloon w = (balloon_response (get_balloon w), w)
perform h unsupported w = (to_response (err not_supported), w)
perform h refused w = (fault 400, w)
perform h dropped w = (fault 400, w)
perform h not_found w = (fault 404, w)

unfoldable pub is_dropped : Call → Bool
is_dropped dropped = true
is_dropped _ = false

-- One request: its call, then the observation, each with the host's answers to it.
unfoldable pub serve : (h after : Host) → (method path : Bytes) → Call → World → Response × World
unfolding is_dropped
serve h after method path call w =
    let (r, w') = perform h call w in
    if is_dropped call then (r, w') else (r, (handle after (observed method path r.status) w').1)

unfoldable pub route :
    Decoders → (h after : Host) → (method path : Bytes) → Option Bytes → World → Response × World
unfolding dispatch serve
route d h after method path b w = serve h after method path (dispatch d method path b) w
