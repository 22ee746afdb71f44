-- ===== src/Backend/Examples.antt =====
-- Runs of the backend on concrete inputs: a VM that is configured, running, or restored and paused.
use hephaestus.Base.Decimal.{format}
use hephaestus.Base.Text.{newline}
use hephaestus.Backend.Connect.{bridge_connection, proxies, invalid_line}
use hephaestus.Backend.Connect.Handshake.{bridge_connection-proxies}
use hephaestus.Base.{
  ℕ, ◌-◌, ◌*◌, ◌++◌, ◌==◌, ◌≤◌, ◌<◌, ◌≡◌, ◌↔◌, ◌⊎◌, refl, true, false, none, some, arith,
  if◌then◌else◌, List, [], ◌∷◌, unwrap_or,
}
use hephaestus.Base.Text.{codes}
use hephaestus.Base.Checked.{ok, err, is_ok}
use hephaestus.Config.{
  paused, running, MachineConfigUpdate, BalloonUpdateConfig, CreateSnapshotParams, full,
  LoadSnapshotConfig, default_machine_config,
}
use hephaestus.Backend.{invalid_state, cold_boot, snapshot_load, Host, touched, saved_state, new}
use hephaestus.Backend.Valid.{IsValid}
use hephaestus.Backend.Balloon.{update_balloon}
use hephaestus.Backend.Boot.{start_micro_vm, load_snapshot}
use hephaestus.Backend.Lifecycle.{create_snapshot}
use hephaestus.Backend.Api.{Request, boot_source, block_device, start, pausing, handle}
use hephaestus.Backend.Invariant.Requests.{handle-IsValid}
use hephaestus.Backend.Preboot.{is_preboot, handle-preboot}
use hephaestus.Backend.Rollback.{Ends}
use hephaestus.Backend.Rollback.Cold.{start_micro_vm-Ends, load_snapshot-Ends}
use hephaestus.Backend.Transitions.{target, handle-state}
use hephaestus.Backend.Effects.{create_snapshot-ok, Cycles, resume-pause}
use hephaestus.Backend.Samples.{
  host, boot, root_drive, ready, up, ready-IsValid, up-IsValid, running_live, paused_live,
}

handle-IsValid_example : IsValid (handle host start ready).1.backend
handle-IsValid_example = handle-IsValid host start ready ready-IsValid

abbrev session : List (Host × Request)
session =
    (host, boot_source boot)
    ∷ (host, block_device root_drive)
    ∷ (host, start)
    ∷ (host, pausing)
    ∷ []

start-is_preboot : is_preboot start ≡ true
unfolding is_preboot
start-is_preboot = refl

handle-preboot_example :
    handle host start (up running cold_boot) ≡ (err invalid_state, up running cold_boot)
handle-preboot_example =
    handle-preboot host start (up running cold_boot) start-is_preboot running_live

start_micro_vm-Ends_example : Ends running ready (start_micro_vm host ready)
start_micro_vm-Ends_example = start_micro_vm-Ends host ready ready-IsValid

abbrev saved : LoadSnapshotConfig
saved = record {
  snapshot_path = codes "/s";
  mem_file_path = none;
  mem_backend = none;
  enable_diff_snapshots = false;
  track_dirty_pages = false;
  resume_vm = false;
}

load_snapshot-Ends_example : Ends paused ready (load_snapshot host saved ready)
load_snapshot-Ends_example = load_snapshot-Ends host saved ready ready-IsValid

handle-state_example : (handle host start ready).1.backend.state ≡ (
    if is_ok (handle host start ready).0
    then target start ready.backend.state
    else ready.backend.state)
handle-state_example = handle-state host start ready ready-IsValid

abbrev snapshot : CreateSnapshotParams
snapshot = record { snapshot_path = codes "/s"; mem_file_path = codes "/m"; snapshot_type = full }

snapshot_taken : (create_snapshot host snapshot (up paused cold_boot)).0 ≡ ok tt
unfolding create_snapshot
snapshot_taken = refl

create_snapshot-ok_example :
    (paused ≡ paused)
    × (full ≡ full)
    × (((up paused cold_boot).backend.origin ≡ some cold_boot)
        ⊎ ((up paused cold_boot).backend.origin ≡ some snapshot_load))
    × ((vm : ℕ) × ((up paused cold_boot).backend.vm ≡ some vm)
        × ((create_snapshot host snapshot (up paused cold_boot)).1 ≡ record (up paused cold_boot) {
          events = touched (codes "/m") ∷ saved_state vm (codes "/s") ∷ [];
        }))
create_snapshot-ok_example =
    create_snapshot-ok host snapshot (up paused cold_boot) (up-IsValid paused cold_boot paused_live)
      snapshot_taken

resume-pause_example : Cycles host host (up running cold_boot) 7
resume-pause_example = resume-pause host host (up running cold_boot) 7 refl refl

abbrev to_32 : BalloonUpdateConfig
to_32 = record { amount_mib = 32 }

abbrev to_128 : BalloonUpdateConfig
to_128 = record { amount_mib = 128 }

has_128_mib : (up running cold_boot).backend.machine_config.mem_size_mib ≡ 128
unfolding new default_machine_config
has_128_mib = refl

updated : (update_balloon host to_32 (up running cold_boot)).0 ≡ ok tt
unfolding update_balloon new
updated = refl

abbrev two_vcpus : MachineConfigUpdate
two_vcpus = record {
  vcpu_count = some 2;
  mem_size_mib = none;
  smt = none;
  cpu_template = none;
  track_dirty_pages = none;
  huge_pages = none;
}

bridge_connection-proxies_example :
    bridge_connection
      (λ line. true)
      (λ port. port == 5000)
      (codes "CONNECT " ++ format 5000 ++ newline ∷ codes "hello")
    ≡ proxies 5000 (codes "hello")
unfolding format
bridge_connection-proxies_example =
    bridge_connection-proxies (λ line. true) (λ port. port == 5000) 5000 (codes "hello")
      (omega arith) (omega arith) (omega arith) refl refl

no_port : bridge_connection (λ line. true) (λ port. true) (codes "CONNECT 0\n") ≡ invalid_line
unfolding bridge_connection hephaestus.Base.Decimal.parse
no_port = refl
