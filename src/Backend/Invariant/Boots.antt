-- ===== src/Backend/Invariant/Boots.antt =====
-- The operations that boot keep the backend valid, the failed boots too.
use hephaestus.Base.{
  ℕ, ◌≡◌, refl, ◌≢◌, inl, inr, true, false, Bool, Option, none, some, arith, Option-cases,
}
use hephaestus.Base.Text.{Bytes, codes}
use hephaestus.Base.Checked.{Result, ok, err, Result-cases}
use hephaestus.Config.{BootSourceConfig, LoadSnapshotConfig}
use hephaestus.Pool.{Pool, ClaimedSlot, PoolMatchSpec}
use hephaestus.Pool
use hephaestus.Backend.{
  Host, World, Action, ◌>>=◌, modify, emit, pool_restored, started, built, restored, Done,
  VmmBackendError,
}
use hephaestus.Backend.Valid.{IsValid, Keeps, after-IsValid, bind-IsValid}
use hephaestus.Backend.Observe.{flush_metrics}
use hephaestus.Backend.Balloon.{is_live, apply_initial_balloon}
use hephaestus.Backend.Metadata.{start_vmnet_mmds}
use hephaestus.Backend.Boot.{
  pool_attempt, adopt_cold, adopt_snapshot, count_load, spec_of, start_from, adopt_slot,
  restore_slot, count_miss, finish_restored, finish_cold, finish_snapshot, start_built,
  start_loaded, bridge_or_abort, start_restored, claim_and_restore, try_pool, boot_cold,
  restore_snapshot,
}
use hephaestus.Backend.Invariant.Bridge.{
  log_info-Keeps, apply_initial_balloon-Keeps, Up, bridge_or_abort-cases, finish_cold-Keeps, Fresh,
  Fresh-IsValid, start_restored-IsValid,
}
use hephaestus.Backend.Invariant.Steps.{
  flush_metrics-Keeps, flush_metrics-ok, apply_initial_balloon-ok,
}

pub finish_restored-true : (h : Host) (w : World) → (finish_restored h w).0 ≡ ok true
unfolding finish_restored
finish_restored-true h w =
    ground (arith, apply_initial_balloon-ok h w, flush_metrics-ok (apply_initial_balloon h w).1)

pub start_restored-ne-false :
    (h : Host) (s : ClaimedSlot) (vm : ℕ) (w : World) → (start_restored h s vm w).0 ≢ ok false
unfolding start_restored
start_restored-ne-false h s vm w =
    let w' : World = (modify (adopt_slot s vm) (emit (pool_restored vm) w).1).1 in
    ground (arith, finish_restored-true h (bridge_or_abort h w').1)

-- After the pool was tried: a miss leaves the backend as fresh as it was.
abbrev pub Tried : Result VmmBackendError Bool × World → Type 0
Tried x = IsValid x.1.backend × (x.0 ≡ ok false → Fresh x.1)

pub started-Tried :
    (h : Host) (s : ClaimedSlot) (vm : ℕ) (w : World) → Fresh w → Tried (start_restored h s vm w)
started-Tried h s vm w f =
    (start_restored-IsValid h s vm w f, λ e. absurd (start_restored-ne-false h s vm w e))

pub missed-Tried : (w : World) → Fresh w → Tried (ok false, w)
missed-Tried w f = (Fresh-IsValid w f, λ e. f)

pub restore_slot-Tried :
    (h : Host) (p : Pool) (s : ClaimedSlot) (w : World) → Fresh w → Tried (restore_slot h p s w)
unfolding restore_slot
restore_slot-Tried h p s w f = elim (Result-cases (Pool.restore_into_vm h.slots p s w.disk).0) [
  | inl (vm, e) ↦
      rw (e, restore_slot)
        (started-Tried h s vm (record w { disk = (Pool.restore_into_vm h.slots p s w.disk).1 }) f)
  | inr (x, e) ↦
      rw (e, restore_slot)
        (missed-Tried
          (record w { disk = Pool.drop_slot s (Pool.restore_into_vm h.slots p s w.disk).1 }) f)
]

pub claim_and_restore-Tried :
    (h : Host) (p : Pool) (spec : PoolMatchSpec) (w : World)
    → Fresh w
    → Tried (claim_and_restore h p spec w)
unfolding claim_and_restore count_miss
claim_and_restore-Tried h p spec w f =
    go (Pool.try_claim_matching_slot h.slots p spec w.disk).0 refl
  where
    w' : World
    w' = record w { disk = (Pool.try_claim_matching_slot h.slots p spec w.disk).1 }

    go :
        (r : Result Pool.PoolError (Option ClaimedSlot))
        → (Pool.try_claim_matching_slot h.slots p spec w.disk).0 ≡ r
        → Tried (claim_and_restore h p spec w)
    go (ok (some s)) e = rw (e, claim_and_restore) (restore_slot-Tried h p s w' f)
    go (ok none) e =
        rw (e, claim_and_restore) (missed-Tried (modify count_miss w').1 (ground arith))
    go (err x) e = rw (e, claim_and_restore) (missed-Tried w' f)

pub pool_attempt-Tried :
    (h : Host) (boot : BootSourceConfig) (rootfs : Bytes) (b : Bool) (p : Option Pool) (w : World)
    → Fresh w
    → Tried (pool_attempt h boot rootfs b p w)
unfolding pool_attempt
pool_attempt-Tried h boot rootfs true (some p) w f = claim_and_restore-Tried h p _ w f
pool_attempt-Tried h boot rootfs true none w f = missed-Tried w f
pool_attempt-Tried h boot rootfs false p w f = missed-Tried w f

pub try_pool-Tried :
    (h : Host) (boot : BootSourceConfig) (rootfs : Bytes) (w : World)
    → Fresh w
    → Tried (try_pool h boot rootfs w)
unfolding try_pool
try_pool-Tried h boot rootfs w f = pool_attempt-Tried h boot rootfs _ w.backend.pool w f

pub count_load-Keeps : Keeps (modify count_load)
unfolding count_load
count_load-Keeps w v = ground arith

-- A responder that does not start leaves the backend as it was.
pub start_vmnet_mmds-err :
    (h : Host) (w : World) (e : VmmBackendError)
    → (start_vmnet_mmds h w).0 ≡ err e
    → (start_vmnet_mmds h w).1.backend ≡ w.backend
unfolding start_vmnet_mmds
start_vmnet_mmds-err h w e p = ground arith

pub adopt_cold-Up :
    (h : Host) (vm : ℕ) (w : World)
    → Fresh w
    → Up (modify (adopt_cold vm) (start_vmnet_mmds h w).1).1
unfolding start_vmnet_mmds adopt_cold is_live
adopt_cold-Up h vm w f = (ground arith, ground arith)

pub adopt_snapshot-Up :
    (h : Host) (vm : ℕ) (resume : Bool) (w : World)
    → Fresh w
    → Up (modify (adopt_snapshot vm resume) (start_vmnet_mmds h w).1).1
unfolding start_vmnet_mmds adopt_snapshot is_live
adopt_snapshot-Up h vm resume w f = (ground arith, ground arith)

pub start_built-IsValid :
    (h : Host) (vm : ℕ) (w : World) → Fresh w → IsValid (start_built h vm w).1.backend
unfolding start_built
start_built-IsValid h vm w f =
    bind-IsValid (start_vmnet_mmds h w) (λ _. modify (adopt_cold vm) >>= λ _. go_on)
      (λ e p. rw (start_vmnet_mmds-err h w e p) (Fresh-IsValid w f))
      λ _ _.
        after-IsValid (bridge_or_abort h w') (λ _. finish_cold h)
          (bridge_or_abort-cases h w' (adopt_cold-Up h vm w f)) (λ _. finish_cold-Keeps h)
  where
    go_on : Action Done
    go_on = bridge_or_abort h >>= λ _. finish_cold h

    w' : World
    w' = (modify (adopt_cold vm) (start_vmnet_mmds h w).1).1

pub finish_snapshot-Keeps : (h : Host) → Keeps (finish_snapshot h)
unfolding finish_snapshot
finish_snapshot-Keeps h w v =
    let w1 : World = (apply_initial_balloon h w).1 in
    let w2 : World = (modify count_load w1).1 in
    let w3 : World = (flush_metrics w2).1 in
    ground (
      arith,
      apply_initial_balloon-ok h w,
      apply_initial_balloon-Keeps h w v,
      count_load-Keeps w1,
      flush_metrics-ok w2,
      flush_metrics-Keeps w2,
      log_info-Keeps h (codes "vmm") w3,
    )

pub start_loaded-IsValid :
    (h : Host) (vm : ℕ) (r : Bool) (w : World) → Fresh w → IsValid (start_loaded h vm r w).1.backend
unfolding start_loaded
start_loaded-IsValid h vm r w f =
    bind-IsValid (start_vmnet_mmds h w) (λ _. modify (adopt_snapshot vm r) >>= λ _. go_on)
      (λ e p. rw (start_vmnet_mmds-err h w e p) (Fresh-IsValid w f))
      λ _ _.
        after-IsValid (bridge_or_abort h w') (λ _. finish_snapshot h)
          (bridge_or_abort-cases h w' (adopt_snapshot-Up h vm r w f)) (λ _. finish_snapshot-Keeps h)
  where
    go_on : Action Done
    go_on = bridge_or_abort h >>= λ _. finish_snapshot h

    w' : World
    w' = (modify (adopt_snapshot vm r) (start_vmnet_mmds h w).1).1

pub boot_cold-IsValid :
    (h : Host) (boot : BootSourceConfig) (rootfs : Bytes) (w : World)
    → Fresh w
    → IsValid (boot_cold h boot rootfs w).1.backend
unfolding boot_cold
boot_cold-IsValid h boot rootfs w f =
    elim (Option-cases (h.builds (spec_of h w.backend boot rootfs))) [
      | inl e ↦ rw (e, boot_cold) (Fresh-IsValid w f)
      | inr (vm, e) ↦
          rw (e, boot_cold)
            (ground (
              arith,
              Fresh-IsValid w f,
              start_built-IsValid h vm
                  (emit (started vm) (emit (built (spec_of h w.backend boot rootfs)) w).1).1 f,
            ))
    ]

pub start_from-IsValid :
    (h : Host) (boot : BootSourceConfig) (rootfs : Bytes) (w : World)
    → Fresh w
    → IsValid (start_from h boot rootfs w).1.backend
unfolding start_from
start_from-IsValid h boot rootfs w f = ground (
  arith,
  try_pool-Tried h boot rootfs w f,
  boot_cold-IsValid h boot rootfs (try_pool h boot rootfs w).1,
)

pub restore_snapshot-IsValid :
    (h : Host) (c : LoadSnapshotConfig) (boot : BootSourceConfig) (rootfs : Bytes) (w : World)
    → Fresh w
    → IsValid (restore_snapshot h c boot rootfs w).1.backend
unfolding restore_snapshot
restore_snapshot-IsValid h c boot rootfs w f =
    let spec = spec_of h w.backend boot rootfs in
    elim (Option-cases (h.restores spec c.snapshot_path c.resume_vm)) [
      | inl e ↦ rw (e, restore_snapshot) (Fresh-IsValid w f)
      | inr (vm, e) ↦
          rw (e, restore_snapshot)
            (start_loaded-IsValid h vm c.resume_vm
              (emit (restored spec c.snapshot_path c.resume_vm) w).1 f)
    ]
