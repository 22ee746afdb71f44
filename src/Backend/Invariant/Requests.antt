-- ===== src/Backend/Invariant/Requests.antt =====
-- Every request keeps the backend valid, and so does every history from a new backend.
use hephaestus.Base.{◌≡◌, refl, Option, none, some, arith, List, [], ◌∷◌}
use hephaestus.Base.Text.{Bytes}
use hephaestus.Config.{LoadSnapshotConfig, BootSourceConfig}
use hephaestus.Pool.{Disk}
use hephaestus.Backend.{Host, World, new, Event}
use hephaestus.Backend.Valid.{IsValid, Keeps}
use hephaestus.Backend.Balloon.{validate_balloon, is_live}
use hephaestus.Backend.Boot.{start_micro_vm, load_snapshot}
use hephaestus.Backend.Api.{
  Request, boot_source, block_device, block_device_update, network_device, network_device_update,
  logger, metrics, mmds_put, mmds_patch, mmds_config, vsock, machine_config, machine_config_update,
  entropy, balloon, balloon_update, ctrl_alt_del, start, pausing, resuming, snapshot_create,
  snapshot_load, flushing, observed, handle, run,
}
use hephaestus.Backend.Invariant.Steps.{
  flush_metrics-Keeps, configure_boot_source-Keeps, insert_block_device-Keeps,
  update_block_device-Keeps, insert_network_device-Keeps, put_machine_config-Keeps,
  patch_machine_config-Keeps, configure_balloon-Keeps, update_balloon-Keeps, configure_mmds-Keeps,
  configure_vsock-Keeps, put_mmds-Keeps, patch_mmds-Keeps, observe_request-Keeps,
  configure_logger-Keeps, configure_metrics-Keeps, pause-Keeps, resume-Keeps,
  send_ctrl_alt_del-Keeps, create_snapshot-Keeps,
}
use hephaestus.Backend.Invariant.Boots.{start_from-IsValid, restore_snapshot-IsValid}

pub start_micro_vm-Keeps : (h : Host) → Keeps (start_micro_vm h)
unfolding start_micro_vm validate_balloon is_live
start_micro_vm-Keeps h w v = go w.backend.boot_source w.backend.root_drive refl refl
  where
    go :
        (b : Option BootSourceConfig) (r : Option Bytes)
        → w.backend.boot_source ≡ b
        → w.backend.root_drive ≡ r
        → IsValid (start_micro_vm h w).1.backend
    go (some b) (some r) p q = ground (arith, start_from-IsValid h b r w)
    go none _ p q = ground arith
    go (some b) none p q = ground arith

pub load_snapshot-Keeps : (h : Host) (c : LoadSnapshotConfig) → Keeps (load_snapshot h c)
unfolding load_snapshot validate_balloon is_live
load_snapshot-Keeps h c w v = go w.backend.boot_source w.backend.root_drive refl refl
  where
    go :
        (b : Option BootSourceConfig) (r : Option Bytes)
        → w.backend.boot_source ≡ b
        → w.backend.root_drive ≡ r
        → IsValid (load_snapshot h c w).1.backend
    go (some b) (some r) p q = ground (arith, restore_snapshot-IsValid h c b r w)
    go none _ p q = ground arith
    go (some b) none p q = ground arith

pub handle-Keeps : (h : Host) (r : Request) → Keeps (handle h r)
unfolding handle
handle-Keeps h (boot_source cfg) = configure_boot_source-Keeps h cfg
handle-Keeps h (block_device cfg) = insert_block_device-Keeps h cfg
handle-Keeps h (block_device_update cfg) = update_block_device-Keeps h cfg
handle-Keeps h (network_device cfg) = insert_network_device-Keeps cfg
handle-Keeps h (network_device_update cfg) = λ w v. v
handle-Keeps h (logger cfg) = configure_logger-Keeps h cfg
handle-Keeps h (metrics cfg) = configure_metrics-Keeps h cfg
handle-Keeps h (mmds_put value) = put_mmds-Keeps h value
handle-Keeps h (mmds_patch value) = patch_mmds-Keeps h value
handle-Keeps h (mmds_config cfg) = configure_mmds-Keeps cfg
handle-Keeps h (vsock cfg) = configure_vsock-Keeps cfg
handle-Keeps h (machine_config cfg) = put_machine_config-Keeps cfg
handle-Keeps h (machine_config_update cfg) = patch_machine_config-Keeps cfg
handle-Keeps h entropy = λ w v. v
handle-Keeps h (balloon cfg) = configure_balloon-Keeps cfg
handle-Keeps h (balloon_update cfg) = update_balloon-Keeps h cfg
handle-Keeps h ctrl_alt_del = send_ctrl_alt_del-Keeps h
handle-Keeps h start = start_micro_vm-Keeps h
handle-Keeps h pausing = pause-Keeps h
handle-Keeps h resuming = resume-Keeps h
handle-Keeps h (snapshot_create params) = create_snapshot-Keeps h params
handle-Keeps h (snapshot_load params) = load_snapshot-Keeps h params
handle-Keeps h flushing = flush_metrics-Keeps
handle-Keeps h (observed m p s) = observe_request-Keeps h m p s

-- Whatever the host answers, a request leaves a valid backend valid, also when it fails.
pub handle-IsValid :
    (h : Host) (r : Request) (w : World) → IsValid w.backend → IsValid (handle h r w).1.backend
handle-IsValid = handle-Keeps

run-Keeps :
    (calls : List (Host × Request)) (w : World) → IsValid w.backend → IsValid (run calls w).backend
unfolding run
run-Keeps [] w v = v
run-Keeps ((h, r) ∷ rest) w v = run-Keeps rest (handle h r w).1 (handle-Keeps h r w v)

new-IsValid : (id : Bytes) → IsValid (new id)
unfolding new
new-IsValid id = ground arith

-- After any history of requests from a new backend the backend is valid.
pub run-new-IsValid :
    (id : Bytes) (events : List Event) (disk : Disk) (calls : List (Host × Request))
    → IsValid (run calls (record { backend = new id; events = events; disk = disk })).backend
run-new-IsValid id events disk calls = run-Keeps calls _ (new-IsValid id)
