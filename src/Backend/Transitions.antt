-- ===== src/Backend/Transitions.antt =====
-- The states of the VM: what each request does to them, by its success or failure.
use hephaestus.Base.{◌≡◌, refl, true, arith, if◌then◌else◌}
use hephaestus.Base.Checked.{Result, ok, err, is_ok}
use hephaestus.Config.{VmState, paused, running}
use hephaestus.Backend.{Host, World, VmmBackendError, VzBackend, debug, modify, require_preboot}
use hephaestus.Base.{Bool-cases, inl, inr, ap, List, [], ◌∷◌}
use hephaestus.Base.Text.{codes}
use hephaestus.Backend.Valid.{IsValid}
use hephaestus.Backend.Invariant.Steps.{write_log-ok, write_log-backend}
use hephaestus.Backend.Invariant.Requests.{handle-Keeps}
use hephaestus.Backend.Rollback.{Ends}
use hephaestus.Backend.Rollback.Cold.{start_micro_vm-Ends, load_snapshot-Ends}
use hephaestus.Backend.Devices.{
  configure_boot_source, insert_block_device, update_block_device, insert_network_device,
}
use hephaestus.Backend.Machine.{put_machine_config, patch_machine_config}
use hephaestus.Backend.Balloon.{configure_balloon, update_balloon, is_live}
use hephaestus.Backend.Metadata.{put_mmds, patch_mmds, configure_mmds, configure_vsock}
use hephaestus.Backend.Boot.{start_micro_vm, load_snapshot}
use hephaestus.Backend.Api.{
  Request, boot_source, block_device, block_device_update, network_device, network_device_update,
  logger, metrics, mmds_put, mmds_patch, mmds_config, vsock, machine_config, machine_config_update,
  entropy, balloon, balloon_update, ctrl_alt_del, start, pausing, resuming, snapshot_create,
  snapshot_load, flushing, observed, handle, run,
}
use hephaestus.Backend.Lifecycle.{pause, resume, send_ctrl_alt_del, create_snapshot}
use hephaestus.Backend.Observe.{
  log_info, configure_logger, configure_metrics, observe_request, count_request, flush_metrics,
}

-- The state that a request leads to when it succeeds.
abbrev pub target : Request → VmState → VmState
target start s = running
target (snapshot_load params) s = if params.resume_vm then running else paused
target pausing s = paused
target resuming s = running
target _ s = s

Ends-state :
    {A : Type 0} (s : VmState) (w : World) (x : Result VmmBackendError A × World)
    → Ends s w x
    → x.1.backend.state ≡ (if is_ok x.0 then s else w.backend.state)
Ends-state s w (ok a, w') e = e
Ends-state s w (err x, w') e = ap (λ (b : VzBackend). b.state) e

-- The state machine of a valid backend, for every request and whatever the host answers: a request
-- that succeeds leads to its target state, so only starting, loading, pausing and resuming move the
-- VM; a request that fails leaves the state as it was.
pub handle-state :
    (h : Host) (r : Request) (w : World)
    → IsValid w.backend
    → (handle h r w).1.backend.state
      ≡ (if is_ok (handle h r w).0 then target r w.backend.state else w.backend.state)
unfolding handle
handle-state h (boot_source cfg) w v = unfold configure_boot_source in ground arith
handle-state h (block_device cfg) w v = unfold insert_block_device in ground arith
handle-state h (block_device_update cfg) w v = unfold update_block_device in ground arith
handle-state h (network_device cfg) w v = unfold insert_network_device in ground arith
handle-state h (network_device_update cfg) w v = refl
handle-state h (logger cfg) w v = unfold configure_logger log_info in ground arith
handle-state h (metrics cfg) w v = unfold configure_metrics in ground arith
handle-state h (mmds_put value) w v = unfold put_mmds in ground arith
handle-state h (mmds_patch value) w v = unfold patch_mmds in ground arith
handle-state h (mmds_config cfg) w v = unfold configure_mmds in ground arith
handle-state h (vsock cfg) w v = unfold configure_vsock in ground arith
handle-state h (machine_config cfg) w v = unfold put_machine_config in ground arith
handle-state h (machine_config_update cfg) w v = unfold patch_machine_config in ground arith
handle-state h entropy w v = unfold require_preboot in ground arith
handle-state h (balloon cfg) w v = unfold configure_balloon in ground arith
handle-state h (balloon_update cfg) w v = unfold update_balloon in ground arith
handle-state h ctrl_alt_del w v = unfold send_ctrl_alt_del log_info in ground arith
handle-state h start w v = Ends-state running w (start_micro_vm h w) (start_micro_vm-Ends h w v)
handle-state h pausing w v = unfold pause log_info in ground arith
handle-state h resuming w v = unfold resume log_info in ground arith
handle-state h (snapshot_create params) w v = unfold create_snapshot in ground arith
handle-state h (snapshot_load params) w v =
    Ends-state (if params.resume_vm then running else paused) w (load_snapshot h params w)
      (load_snapshot-Ends h params w v)
handle-state h flushing w v = unfold flush_metrics in ground arith
handle-state h (observed m p s) w v =
    unfold observe_request count_request flush_metrics in
    ground (
      arith,
      write_log-ok h debug (codes "api_server::request")
          (modify (λ b. record b { metrics = count_request m p s b.metrics }) w).1,
      write_log-backend h debug (codes "api_server::request")
          (modify (λ b. record b { metrics = count_request m p s b.metrics }) w).1,
    )

target-live : (r : Request) (s : VmState) → is_live s ≡ true → is_live (target r s) ≡ true
unfolding is_live
target-live start s l = refl
target-live (snapshot_load params) s l = ground arith
target-live pausing s l = refl
target-live resuming s l = refl
target-live _ s l = l

handle-live :
    (h : Host) (r : Request) (w : World)
    → IsValid w.backend
    → is_live w.backend.state ≡ true
    → is_live (handle h r w).1.backend.state ≡ true
handle-live h r w v l = elim (Bool-cases (is_ok (handle h r w).0)) [
  | inl e ↦ rw (handle-state h r w v, e) (target-live r w.backend.state l)
  | inr e ↦ rw (handle-state h r w v, e) l
]

-- However a history of requests goes on from a valid backend, a VM that was started is never not-
-- started again.
pub run-live :
    (calls : List (Host × Request)) (w : World)
    → IsValid w.backend
    → is_live w.backend.state ≡ true
    → is_live (run calls w).backend.state ≡ true
unfolding run
run-live [] w v l = l
run-live ((h, r) ∷ rest) w v l =
    run-live rest (handle h r w).1 (handle-Keeps h r w v) (handle-live h r w v l)
