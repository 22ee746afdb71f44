-- ===== src/Backend/Invariant/Steps.antt =====
-- The operations that do not boot keep the backend valid.
use hephaestus.Base.{ℕ, ◌≡◌, arith}
use hephaestus.Base.Checked.{ok}
use hephaestus.Backend.{Host, World}
use hephaestus.Backend.Valid.{Keeps}
use hephaestus.Backend.Observe.{
  flush_metrics, write_log, log_info, observe_request, count_request, configure_logger,
  configure_metrics,
}
use hephaestus.Backend.Devices.{
  configure_boot_source, insert_block_device, update_block_device, insert_network_device,
}
use hephaestus.Backend.Machine.{put_machine_config, patch_machine_config}
use hephaestus.Backend.Balloon.{is_live, configure_balloon, update_balloon, apply_initial_balloon}
use hephaestus.Backend.Metadata.{
  put_mmds, patch_mmds, configure_mmds, configure_vsock, refresh_mmds_vsock_service,
}
use hephaestus.Backend.Lifecycle.{pause, resume, send_ctrl_alt_del, create_snapshot}
use hephaestus.Config.{
  BootSourceConfig, BlockDeviceConfig, BlockDeviceUpdateConfig, NetworkInterfaceConfig,
  MachineConfig, MachineConfigUpdate, BalloonDeviceConfig, BalloonUpdateConfig, MmdsConfig,
  VsockConfig, LoggerConfig, MetricsConfig, CreateSnapshotParams,
}
use hephaestus.Base.Text.{Bytes, codes}
use hephaestus.Json.{Value}
use hephaestus.Backend.{LogLevel, debug}

pub configure_boot_source-Keeps :
    (h : Host) (c : BootSourceConfig) → Keeps (configure_boot_source h c)
unfolding configure_boot_source
configure_boot_source-Keeps h c w v = ground arith

pub insert_block_device-Keeps : (h : Host) (c : BlockDeviceConfig) → Keeps (insert_block_device h c)
unfolding insert_block_device
insert_block_device-Keeps h c w v = ground arith

pub put_machine_config-Keeps : (c : MachineConfig) → Keeps (put_machine_config c)
unfolding put_machine_config is_live
put_machine_config-Keeps c w v = ground arith

pub update_balloon-Keeps : (h : Host) (c : BalloonUpdateConfig) → Keeps (update_balloon h c)
unfolding update_balloon is_live
update_balloon-Keeps h c w v = ground arith

pub update_block_device-Keeps :
    (h : Host) (c : BlockDeviceUpdateConfig) → Keeps (update_block_device h c)
unfolding update_block_device
update_block_device-Keeps h c w v = ground arith

pub insert_network_device-Keeps : (c : NetworkInterfaceConfig) → Keeps (insert_network_device c)
unfolding insert_network_device
insert_network_device-Keeps c w v = ground arith

pub patch_machine_config-Keeps : (c : MachineConfigUpdate) → Keeps (patch_machine_config c)
unfolding patch_machine_config put_machine_config is_live
patch_machine_config-Keeps c w v = ground arith

pub configure_balloon-Keeps : (c : BalloonDeviceConfig) → Keeps (configure_balloon c)
unfolding configure_balloon is_live
configure_balloon-Keeps c w v = ground arith

pub configure_mmds-Keeps : (c : MmdsConfig) → Keeps (configure_mmds c)
unfolding configure_mmds
configure_mmds-Keeps c w v = ground arith

pub configure_vsock-Keeps : (c : VsockConfig) → Keeps (configure_vsock c)
unfolding configure_vsock
configure_vsock-Keeps c w v = ground arith

pub refresh-backend :
    (h : Host) (w : World) → (refresh_mmds_vsock_service h w).1.backend ≡ w.backend
unfolding refresh_mmds_vsock_service
refresh-backend h w = ground arith

pub put_mmds-Keeps : (h : Host) (d : Value) → Keeps (put_mmds h d)
unfolding put_mmds
put_mmds-Keeps h d w v = ground arith

pub patch_mmds-Keeps : (h : Host) (d : Value) → Keeps (patch_mmds h d)
unfolding patch_mmds
patch_mmds-Keeps h d w v = ground arith

pub flush_metrics-Keeps : Keeps flush_metrics
unfolding flush_metrics
flush_metrics-Keeps w v = ground arith

pub write_log-backend :
    (h : Host) (l : LogLevel) (o : Bytes) (w : World) → (write_log h l o w).1.backend ≡ w.backend
unfolding write_log
write_log-backend h l o w = ground arith

pub write_log-ok : (h : Host) (l : LogLevel) (o : Bytes) (w : World) → (write_log h l o w).0 ≡ ok tt
unfolding write_log
write_log-ok h l o w = ground arith

pub observe_request-Keeps : (h : Host) (m p : Bytes) (s : ℕ) → Keeps (observe_request h m p s)
unfolding observe_request
observe_request-Keeps h m p s w v =
    let counted : World = record w {
      backend = record w.backend { metrics = count_request m p s w.backend.metrics };
    } in
    let logged : World = (write_log h debug (codes "api_server::request") counted).1 in
    ground (
      arith,
      write_log-ok h debug (codes "api_server::request") counted,
      write_log-backend h debug (codes "api_server::request") counted,
      flush_metrics-Keeps logged,
    )

pub configure_logger-Keeps : (h : Host) (c : LoggerConfig) → Keeps (configure_logger h c)
unfolding configure_logger log_info
configure_logger-Keeps h c w v = ground arith

pub configure_metrics-Keeps : (h : Host) (c : MetricsConfig) → Keeps (configure_metrics h c)
unfolding configure_metrics
configure_metrics-Keeps h c w v = ground arith

pub apply_initial_balloon-backend :
    (h : Host) (w : World) → (apply_initial_balloon h w).1.backend ≡ w.backend
unfolding apply_initial_balloon
apply_initial_balloon-backend h w = ground arith

pub flush_metrics-ok : (w : World) → (flush_metrics w).0 ≡ ok tt
unfolding flush_metrics
flush_metrics-ok w = ground arith

pub apply_initial_balloon-ok : (h : Host) (w : World) → (apply_initial_balloon h w).0 ≡ ok tt
unfolding apply_initial_balloon
apply_initial_balloon-ok h w = ground arith

pub pause-Keeps : (h : Host) → Keeps (pause h)
unfolding pause log_info is_live
pause-Keeps h w v = ground arith

pub resume-Keeps : (h : Host) → Keeps (resume h)
unfolding resume log_info is_live
resume-Keeps h w v = ground arith

pub send_ctrl_alt_del-Keeps : (h : Host) → Keeps (send_ctrl_alt_del h)
unfolding send_ctrl_alt_del log_info
send_ctrl_alt_del-Keeps h w v = ground arith

pub create_snapshot-Keeps : (h : Host) (p : CreateSnapshotParams) → Keeps (create_snapshot h p)
unfolding create_snapshot
create_snapshot-Keeps h p w v = ground arith
