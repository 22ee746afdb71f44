-- ===== src/Backend/Api.antt =====
-- The `VmmBackend` trait as `VzBackend` implements it: one constructor for each method that takes
-- `&mut self`, and the method that it calls; `flushing` is for `VzBackend::flush_metrics`. `update_network_device` is the trait's default.
use hephaestus.Base.{ℕ, List, [], ◌∷◌}
use hephaestus.Base.Text.{Bytes}
use hephaestus.Json.{Value}
use hephaestus.Config.{
  BootSourceConfig, BlockDeviceConfig, BlockDeviceUpdateConfig, NetworkInterfaceConfig,
  LoggerConfig, MetricsConfig, MmdsConfig, VsockConfig, MachineConfig, MachineConfigUpdate,
  BalloonDeviceConfig, BalloonUpdateConfig, CreateSnapshotParams, LoadSnapshotConfig,
}
use hephaestus.Backend.{Host, World, Action, Done, done, require_preboot}
use hephaestus.Backend.Observe.{configure_logger, configure_metrics, observe_request, flush_metrics}
use hephaestus.Backend.Devices.{
  configure_boot_source, insert_block_device, update_block_device, insert_network_device,
}
use hephaestus.Backend.Machine.{put_machine_config, patch_machine_config}
use hephaestus.Backend.Balloon.{configure_balloon, update_balloon}
use hephaestus.Backend.Metadata.{put_mmds, patch_mmds, configure_mmds, configure_vsock}
use hephaestus.Backend.Boot.{start_micro_vm, load_snapshot}
use hephaestus.Backend.Lifecycle.{pause, resume, send_ctrl_alt_del, create_snapshot}

pub data Request : Type 0 where
  boot_source : BootSourceConfig → Request
  block_device : BlockDeviceConfig → Request
  block_device_update : BlockDeviceUpdateConfig → Request
  network_device : NetworkInterfaceConfig → Request
  network_device_update : NetworkInterfaceConfig → Request
  logger : LoggerConfig → Request
  metrics : MetricsConfig → Request
  mmds_put : Value → Request
  mmds_patch : Value → Request
  mmds_config : MmdsConfig → Request
  vsock : VsockConfig → Request
  machine_config : MachineConfig → Request
  machine_config_update : MachineConfigUpdate → Request
  entropy : Request
  balloon : BalloonDeviceConfig → Request
  balloon_update : BalloonUpdateConfig → Request
  ctrl_alt_del : Request
  start : Request
  pausing : Request
  resuming : Request
  snapshot_create : CreateSnapshotParams → Request
  snapshot_load : LoadSnapshotConfig → Request
  flushing : Request
  observed : (method path : Bytes) → ℕ → Request

unfoldable pub configure_entropy : Action Done
unfolding require_preboot
configure_entropy = require_preboot

unfoldable pub update_network_device : NetworkInterfaceConfig → Action Done
update_network_device cfg = done

unfoldable pub handle : Host → Request → Action Done
unfolding configure_entropy update_network_device
handle h (boot_source cfg) = configure_boot_source h cfg
handle h (block_device cfg) = insert_block_device h cfg
handle h (block_device_update cfg) = update_block_device h cfg
handle h (network_device cfg) = insert_network_device cfg
handle h (network_device_update cfg) = update_network_device cfg
handle h (logger cfg) = configure_logger h cfg
handle h (metrics cfg) = configure_metrics h cfg
handle h (mmds_put value) = put_mmds h value
handle h (mmds_patch value) = patch_mmds h value
handle h (mmds_config cfg) = configure_mmds cfg
handle h (vsock cfg) = configure_vsock cfg
handle h (machine_config cfg) = put_machine_config cfg
handle h (machine_config_update cfg) = patch_machine_config cfg
handle h entropy = configure_entropy
handle h (balloon cfg) = configure_balloon cfg
handle h (balloon_update cfg) = update_balloon h cfg
handle h ctrl_alt_del = send_ctrl_alt_del h
handle h start = start_micro_vm h
handle h pausing = pause h
handle h resuming = resume h
handle h (snapshot_create params) = create_snapshot h params
handle h (snapshot_load params) = load_snapshot h params
handle h flushing = flush_metrics
handle h (observed method path status) = observe_request h method path status

-- Calls in order, each with the host's answers to it.
unfoldable pub run : List (Host × Request) → World → World
unfolding handle
run [] w = w
run ((h, r) ∷ rest) w = run rest (handle h r w).1
