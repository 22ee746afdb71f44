-- ===== src/Backend/Lifecycle.antt =====
-- The operations on a started VM: `pause`, `resume`, `send_ctrl_alt_del`, `create_snapshot`.
use hephaestus.Base.{Bool, true, false, Option, none, some}
use hephaestus.Base.Text.{codes}
use hephaestus.Config.{
  VmState, not_started, paused, running, CreateSnapshotParams, SnapshotType, full, diff,
}
use hephaestus.Backend.{
  invalid_state, invalid_config, not_supported, internal, RunOrigin, cold_boot, pool_restore,
  snapshot_load, saved_state, paused_vm, resumed_vm, stop_requested, touched, Host, Action, Done,
  ◌>>=◌, ◌>>◌, done, raise, get, require, from_some, modify, emit,
}
use hephaestus.Backend.Observe.{log_info}

do_pause : Host → Action Done
do_pause h = do
  w ← get
  vm ← from_some w.backend.vm internal
  require h.pauses internal
  emit (paused_vm vm)
  modify (λ b. record b { state = paused })
  log_info h (codes "vmm")

pause_in : Host → VmState → Action Done
pause_in h running = do_pause h
pause_in h paused = done
pause_in h not_started = raise invalid_state

unfoldable pub pause : Host → Action Done
unfolding pause_in do_pause
pause h w = pause_in h w.backend.state w

do_resume : Host → Action Done
do_resume h = do
  w ← get
  vm ← from_some w.backend.vm internal
  require h.resumes internal
  emit (resumed_vm vm)
  modify (λ b. record b { state = running })
  log_info h (codes "vmm")

resume_in : Host → VmState → Action Done
resume_in h paused = do_resume h
resume_in h running = done
resume_in h not_started = raise invalid_state

unfoldable pub resume : Host → Action Done
unfolding resume_in do_resume
resume h w = resume_in h w.backend.state w

is_running : VmState → Bool
is_running running = true
is_running _ = false

unfoldable pub send_ctrl_alt_del : Host → Action Done
unfolding is_running
send_ctrl_alt_del h = do
  w ← get
  require (is_running w.backend.state) invalid_state
  vm ← from_some w.backend.vm internal
  require h.stops internal
  emit (stop_requested vm)
  log_info h (codes "vmm")

is_paused : VmState → Bool
is_paused paused = true
is_paused _ = false

is_full : SnapshotType → Bool
is_full full = true
is_full diff = false

unfoldable pub check_origin : Option RunOrigin → Action Done
check_origin none = raise invalid_state
check_origin (some cold_boot) = done
check_origin (some snapshot_load) = done
check_origin (some pool_restore) = raise not_supported

unfoldable pub create_snapshot : Host → CreateSnapshotParams → Action Done
unfolding is_paused is_full check_origin
create_snapshot h params = do
  w ← get
  require (is_paused w.backend.state) invalid_state
  require (is_full params.snapshot_type) not_supported
  check_origin w.backend.origin
  vm ← from_some w.backend.vm internal
  require (h.saves params.snapshot_path) internal
  emit (saved_state vm params.snapshot_path)
  require (h.opens params.mem_file_path) invalid_config
  emit (touched params.mem_file_path)
