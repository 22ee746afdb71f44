-- ===== src/Backend/Effects.antt =====
-- What the operations on a live VM do to the host: snapshots, the balloon, pausing, the metadata.
use hephaestus.Base.{
  List, [], Bool-cases, false, refl, sym, ap, ◌∙◌, subst, ℕ, ◌-◌, ◌*◌, ◌≤◌, ◌<◌, ◌^◌, ◌≡◌, ◌⊎◌,
  true, some, arith, ◌∷◌, is_some, Option-cases, inl, inr,
}
use hephaestus.Base.Checked.{Result, ok, err}
use hephaestus.Config.{
  VmState, running, paused, CreateSnapshotParams, full, BalloonDeviceConfig, BalloonUpdateConfig,
}
use hephaestus.Backend.{
  VzBackend, VmmBackendError, Done, Event, info, internal, wrote_log, paused_vm, resumed_vm,
  invalid_config, not_supported, cold_boot, pool_restore, snapshot_load, Host, World, saved_state,
  touched, balloon_target,
}
use hephaestus.Backend.Valid.{IsValid}
use hephaestus.Backend.Invariant.Steps.{write_log-ok, write_log-backend}
use hephaestus.Backend.Observe.{log_info, write_log}
use hephaestus.Base.Text.{Bytes, codes}
use hephaestus.Backend.Balloon.{update_balloon, is_live}
use hephaestus.Backend.Lifecycle.{pause, resume, create_snapshot}

-- A snapshot that succeeds on a valid backend was asked of a paused VM, as a full one, and the VM
-- was started cold or from a snapshot; the VM's state was saved first and the memory file touched
-- after it; the backend is as it was.
pub create_snapshot-ok :
    (h : Host) (p : CreateSnapshotParams) (w : World)
    → IsValid w.backend
    → (create_snapshot h p w).0 ≡ ok tt
    → (w.backend.state ≡ paused)
      × (p.snapshot_type ≡ full)
      × ((w.backend.origin ≡ some cold_boot) ⊎ (w.backend.origin ≡ some snapshot_load))
      × ((vm : ℕ) × (w.backend.vm ≡ some vm)
          × ((create_snapshot h p w).1 ≡ record w {
            events = touched p.mem_file_path ∷ saved_state vm p.snapshot_path ∷ w.events;
          }))
unfolding create_snapshot
create_snapshot-ok h p w v e = elim (Option-cases w.backend.vm) [
  | inl n ↦ absurd (ground arith)
  | inr (vm, q) ↦ (ground arith, ground arith, ground arith, (vm, q, ground arith))
]

-- Of a paused VM, in a valid backend, that was restored from a pool no snapshot is taken: the
-- request is not supported, and nothing changes.
pub create_snapshot-pool :
    (h : Host) (p : CreateSnapshotParams) (w : World)
    → IsValid w.backend
    → w.backend.state ≡ paused
    → w.backend.origin ≡ some pool_restore
    → create_snapshot h p w ≡ (err not_supported, w)
unfolding create_snapshot
create_snapshot-pool h p w v s o = ground arith

-- The events without the records of the logger.
pub without_logs : List Event → List Event
without_logs [] = []
without_logs (wrote_log path level ∷ es) = without_logs es
without_logs (e ∷ es) = e ∷ without_logs es

log_info-without_logs :
    (h : Host) (origin : Bytes) (w : World)
    → without_logs (log_info h origin w).1.events ≡ without_logs w.events
unfolding log_info write_log without_logs
log_info-without_logs h origin w = ground arith

-- What a call that the hypervisor has done leaves: the state, and the call of the VM.
abbrev DoneWith : Result VmmBackendError Done × World → VmState → Event → World → Type 0
DoneWith (r, w') s call w =
    (r ≡ ok tt)
    × (w'.backend ≡ record w.backend { state = s })
    × (without_logs w'.events ≡ call ∷ without_logs w.events)

-- The world in which a call that the hypervisor has done is logged.
abbrev after : VmState → Event → World → World
after s call w = record w { backend = record w.backend { state = s }; events = call ∷ w.events }

-- A call that ends in the logger's record of it.
log_info-DoneWith :
    (h : Host) (s : VmState) (call : Event) (w : World)
    → without_logs (call ∷ w.events) ≡ call ∷ without_logs w.events
    → DoneWith (log_info h (codes "vmm") (after s call w)) s call w
log_info-DoneWith h s call w e = (
  unfold log_info in write_log-ok h info (codes "vmm") (after s call w),
  unfold log_info in write_log-backend h info (codes "vmm") (after s call w),
  log_info-without_logs h (codes "vmm") (after s call w) ∙ e,
)

pause-running :
    (h : Host) (w : World) (vm : ℕ)
    → w.backend.state ≡ running
    → w.backend.vm ≡ some vm
    → (h.pauses ≡ true → DoneWith (pause h w) paused (paused_vm vm) w)
      × (h.pauses ≡ false → pause h w ≡ (err internal, w))
unfolding pause without_logs
pause-running h w vm s v = (
  λ p.
      let done : pause h w ≡ log_info h (codes "vmm") (after paused (paused_vm vm) w) =
        ground arith in
      subst (λ x. DoneWith x paused (paused_vm vm) w) (sym done)
        (log_info-DoneWith h paused (paused_vm vm) w refl),
  λ p. ground arith,
)

resume-paused :
    (h : Host) (w : World) (vm : ℕ)
    → w.backend.state ≡ paused
    → w.backend.vm ≡ some vm
    → (h.resumes ≡ true → DoneWith (resume h w) running (resumed_vm vm) w)
      × (h.resumes ≡ false → resume h w ≡ (err internal, w))
unfolding resume without_logs
resume-paused h w vm s v = (
  λ p.
      let done : resume h w ≡ log_info h (codes "vmm") (after running (resumed_vm vm) w) =
        ground arith in
      subst (λ x. DoneWith x running (resumed_vm vm) w) (sym done)
        (log_info-DoneWith h running (resumed_vm vm) w refl),
  λ p. ground arith,
)

-- A VM that is paused with one host's answers and then resumed with another's.
abbrev pub Cycles : Host → Host → World → (vm : ℕ) → Type 0
Cycles h k w vm =
    let (paused_as, middle) = pause h w in
    let (resumed_as, end) = resume k middle in
    (h.pauses ≡ true → k.resumes ≡ true → (paused_as ≡ ok tt) × (resumed_as ≡ ok tt))
    × (paused_as ≡ ok tt
        → resumed_as ≡ ok tt
        → (h.pauses ≡ true)
          × (k.resumes ≡ true)
          × (middle.backend ≡ record w.backend { state = paused })
          × (end.backend ≡ w.backend)
          × (without_logs end.events ≡ resumed_vm vm ∷ paused_vm vm ∷ without_logs w.events))
    × (h.pauses ≡ false → pause h w ≡ (err internal, w))

Cycles-both :
    (h k : Host) (w : World) (vm : ℕ)
    → w.backend.state ≡ running
    → h.pauses ≡ true
    → k.resumes ≡ true
    → DoneWith (pause h w) paused (paused_vm vm) w
    → DoneWith (resume k (pause h w).1) running (resumed_vm vm) (pause h w).1
    → Cycles h k w vm
Cycles-both h k w vm s p r (a, b, e) (x, y, z) = (
  λ _ _. (a, x),
  λ _ _. (
    p,
    r,
    b,
    y
        ∙ (ap (λ (c : VzBackend). record c { state = running }) b
            ∙ ap (λ t. record w.backend { state = t }) (sym s)),
    z ∙ ap (λ es. resumed_vm vm ∷ es) e,
  ),
  λ n. absurd (cc),
)

-- A running VM that is paused and then resumed: both succeed if the hypervisor does both, and only
-- then. The backend is then paused in between and in the end as it was, and the VM was told to pause
-- and then to resume, and nothing else, the records of the logger apart. A pause that the hypervisor
-- refuses is an internal error and changes nothing.
pub resume-pause :
    (h k : Host) (w : World) (vm : ℕ)
    → w.backend.state ≡ running
    → w.backend.vm ≡ some vm
    → Cycles h k w vm
resume-pause h k w vm s q =
    let (does, refuses) = pause-running h w vm s q in
    elim (Bool-cases h.pauses) [
      | inr p ↦ (λ t. absurd (cc), λ t. absurd (ground (arith, refuses p)), λ _. refuses p)
      | inl p ↦
          let done = does p in
          let (resumes, stays) =
            resume-paused k (pause h w).1 vm (ap (λ (b : VzBackend). b.state) done.1)
              (ap (λ (b : VzBackend). b.vm) done.1 ∙ q) in
          elim (Bool-cases k.resumes) [
            | inl r ↦ Cycles-both h k w vm s p r done (resumes r)
            | inr r ↦
                (λ _ t. absurd (cc), λ _ t. absurd (ground (arith, stays r)), λ n. absurd (cc))
          ]
    ]

-- A balloon update that succeeds on a live VM of a valid backend, with a memory of less than 2^40
-- MiB: the amount, which is less than the memory, is stored, the rest of the backend is as it was,
-- and the VM is told to keep what the reclaim leaves, in bytes.
pub update_balloon-live :
    (h : Host) (c : BalloonUpdateConfig) (w : World)
    → IsValid w.backend
    → w.backend.machine_config.mem_size_mib < 2 ^ 40
    → is_live w.backend.state ≡ true
    → (update_balloon h c w).0 ≡ ok tt
    → (old : BalloonDeviceConfig) × (vm : ℕ) × (w.backend.balloon ≡ some old)
      × (w.backend.vm ≡ some vm)
      × (c.amount_mib < w.backend.machine_config.mem_size_mib)
      × ((update_balloon h c w).1 ≡ record w {
        backend = record w.backend { balloon = some (record old { amount_mib = c.amount_mib }) };
        events =
            balloon_target vm ((w.backend.machine_config.mem_size_mib - c.amount_mib) * 1024 * 1024)
            ∷ w.events;
      })
unfolding update_balloon is_live
update_balloon-live h c w v small l e = elim (Option-cases w.backend.balloon) [
  | inl n ↦ absurd (ground arith)
  | inr (old, b) ↦ elim (Option-cases w.backend.vm) [
    | inl n ↦ absurd (ground arith)
    | inr (vm, q) ↦ (old, vm, b, q, ground arith, ground arith)
  ]
]

-- On a live VM with a balloon, an update to an amount that is not less than the memory is refused
-- as an invalid configuration, and nothing changes.
pub update_balloon-too_much :
    (h : Host) (c : BalloonUpdateConfig) (w : World)
    → is_live w.backend.state ≡ true
    → is_some w.backend.balloon ≡ true
    → w.backend.machine_config.mem_size_mib ≤ c.amount_mib
    → update_balloon h c w ≡ (err invalid_config, w)
unfolding update_balloon is_live
update_balloon-too_much h c w l b t = ground arith
