-- ===== src/Backend/Preboot.antt =====
-- The requests that a started VM refuses.
use hephaestus.Base.{◌≡◌, true, false, Bool, arith}
use hephaestus.Base.Checked.{err}
use hephaestus.Backend.{Host, World, invalid_state}
use hephaestus.Backend.Devices.{
  configure_boot_source, insert_block_device, update_block_device, insert_network_device,
}
use hephaestus.Backend.Machine.{put_machine_config, patch_machine_config}
use hephaestus.Backend.Balloon.{is_live, configure_balloon}
use hephaestus.Backend.Metadata.{configure_mmds, configure_vsock}
use hephaestus.Backend.Boot.{start_micro_vm, load_snapshot}
use hephaestus.Backend.Api.{
  Request, boot_source, block_device, block_device_update, network_device, network_device_update,
  logger, metrics, mmds_put, mmds_patch, mmds_config, vsock, machine_config, machine_config_update,
  entropy, balloon, balloon_update, ctrl_alt_del, start, pausing, resuming, snapshot_create,
  snapshot_load, flushing, observed, handle,
}

-- The requests that configure the VM or boot it.
unfoldable pub is_preboot : Request → Bool
is_preboot (boot_source _) = true
is_preboot (block_device _) = true
is_preboot (block_device_update _) = true
is_preboot (network_device _) = true
is_preboot (network_device_update _) = false
is_preboot (logger _) = false
is_preboot (metrics _) = false
is_preboot (mmds_put _) = false
is_preboot (mmds_patch _) = false
is_preboot (mmds_config _) = true
is_preboot (vsock _) = true
is_preboot (machine_config _) = true
is_preboot (machine_config_update _) = true
is_preboot entropy = true
is_preboot (balloon _) = true
is_preboot (balloon_update _) = false
is_preboot ctrl_alt_del = false
is_preboot start = true
is_preboot pausing = false
is_preboot resuming = false
is_preboot (snapshot_create _) = false
is_preboot (snapshot_load _) = true
is_preboot flushing = false
is_preboot (observed _ _ _) = false

-- On a live VM, running or paused, each request that configures or boots is refused as an invalid
-- state, and nothing changes: not the backend, not the host, not the pool's disk.
pub handle-preboot :
    (h : Host) (r : Request) (w : World)
    → is_preboot r ≡ true
    → is_live w.backend.state ≡ true
    → handle h r w ≡ (err invalid_state, w)
unfolding handle is_preboot is_live
handle-preboot h (boot_source cfg) w p l = unfold configure_boot_source in ground arith
handle-preboot h (block_device cfg) w p l = unfold insert_block_device in ground arith
handle-preboot h (block_device_update cfg) w p l = unfold update_block_device in ground arith
handle-preboot h (network_device cfg) w p l = unfold insert_network_device in ground arith
handle-preboot h (mmds_config cfg) w p l = unfold configure_mmds in ground arith
handle-preboot h (vsock cfg) w p l = unfold configure_vsock in ground arith
handle-preboot h (machine_config cfg) w p l = unfold put_machine_config in ground arith
handle-preboot h (machine_config_update cfg) w p l = unfold patch_machine_config in ground arith
handle-preboot h entropy w p l = unfold handle in ground arith
handle-preboot h (balloon cfg) w p l = unfold configure_balloon in ground arith
handle-preboot h start w p l = unfold start_micro_vm in ground arith
handle-preboot h (snapshot_load params) w p l = unfold load_snapshot in ground arith
handle-preboot h _ w p l = cc
