-- ===== src/Backend/Rollback.antt =====
-- What a boot leaves behind: the state it leads to, or the backend it began with.
pub mod Cold
use hephaestus.Base.{
  ℕ, ◌≡◌, refl, sym, ◌∙◌, ◌≢◌, ◌⊎◌, inl, inr, true, false, Bool, Option, none, some, arith,
  Option-cases, if◌then◌else◌, List, ◌∷◌,
}
use hephaestus.Base.Text.{Bytes, codes}
use hephaestus.Base.Checked.{Result, ok, err, Result-cases}
use hephaestus.Config.{VmState, not_started, paused, running, BootSourceConfig, LoadSnapshotConfig}
use hephaestus.Pool
use hephaestus.Pool.{Pool, ClaimedSlot, PoolMatchSpec, PoolError}
use hephaestus.Backend.{
  VzBackend, Host, World, Action, Done, ◌>>=◌, modify, emit, Event, pool_restored, started, built,
  restored, VmmBackendError,
}
use hephaestus.Backend.Valid.{IsIdle}
use hephaestus.Backend.Invariant.Boots.{start_restored-ne-false}
use hephaestus.Backend.Observe.{flush_metrics, log_info}
use hephaestus.Backend.Balloon.{apply_initial_balloon, validate_balloon}
use hephaestus.Backend.Metadata.{start_vmnet_mmds, start_vsock_bridge}
use hephaestus.Backend.Boot.{
  abort_boot, bridge_or_abort, adopt_slot, finish_restored, start_restored, restore_slot,
  count_miss, claim_and_restore, pool_attempt, try_pool, adopt_cold, finish_cold, start_built,
  boot_cold, start_from, start_micro_vm, adopt_snapshot, count_load, finish_snapshot, start_loaded,
  restore_snapshot, load_snapshot, spec_of,
}

-- Of the backend only the metrics have changed.
abbrev pub OnlyMetrics : World → World → Type 0
OnlyMetrics w w' = w'.backend ≡ record w.backend { metrics = w'.backend.metrics }

-- A success leads to the state `s`; a failure changes nothing but the metrics.
abbrev pub Ends : {A : Type 0} → VmState → World → Result VmmBackendError A × World → Type 0
Ends s w (ok _, w') = w'.backend.state ≡ s
Ends s w (err _, w') = OnlyMetrics w w'

start_vsock_bridge-state :
    (h : Host) (w : World) → (start_vsock_bridge h w).1.backend.state ≡ w.backend.state
unfolding start_vsock_bridge
start_vsock_bridge-state h w = ground arith

-- A bridge that cannot be bound rolls the whole boot back.
start_vsock_bridge-abort :
    (h : Host) (w : World)
    → (abort_boot (start_vsock_bridge h w).1).1.backend ≡ (abort_boot w).1.backend
unfolding start_vsock_bridge abort_boot
start_vsock_bridge-abort h w = ground arith

-- The end of a boot keeps the state, and cannot fail.
pub Finishes : {A : Type 0} → Action A → Type 0
Finishes {A} m =
    (w : World) → (a : A) × ((m w).0 ≡ ok a) × ((m w).1.backend.state ≡ w.backend.state)

finish_restored-Finishes : (h : Host) → Finishes (finish_restored h)
unfolding Finishes finish_restored apply_initial_balloon flush_metrics
finish_restored-Finishes h w = (true, ground arith, ground arith)

pub finish_cold-Finishes : (h : Host) → Finishes (finish_cold h)
unfolding Finishes finish_cold apply_initial_balloon log_info
finish_cold-Finishes h w = (tt, ground arith, ground arith)

pub finish_snapshot-Finishes : (h : Host) → Finishes (finish_snapshot h)
unfolding Finishes finish_snapshot apply_initial_balloon flush_metrics log_info
finish_snapshot-Finishes h w = (tt, ground arith, ground arith)

pub bridge-Ends :
    {A : Type 0} (h : Host) (w w' : World) (f : Action A)
    → Finishes f
    → OnlyMetrics w (abort_boot w').1
    → Ends w'.backend.state w ((bridge_or_abort h >>= λ _. f) w')
unfolding bridge_or_abort Finishes
bridge-Ends h w w' f fin back = go (start_vsock_bridge h w').0 refl
  where
    next : World
    next = (start_vsock_bridge h w').1

    go :
        (r : Result VmmBackendError Done)
        → (start_vsock_bridge h w').0 ≡ r
        → Ends w'.backend.state w ((bridge_or_abort h >>= λ _. f) w')
    go (ok u) e = ground (arith, fin next, start_vsock_bridge-state h w')
    go (err x) e = ground (arith, start_vsock_bridge-abort h w', back)

-- A miss of the pool changes nothing but the metrics.
abbrev pub EndsPool : World → Result VmmBackendError Bool × World → Type 0
EndsPool w (ok true, w') = w'.backend.state ≡ running
EndsPool w (ok false, w') = OnlyMetrics w w'
EndsPool w (err _, w') = OnlyMetrics w w'

adopt_slot-back :
    (s : ClaimedSlot) (vm : ℕ) (w : World)
    → IsIdle w.backend
    → OnlyMetrics w (abort_boot (modify (adopt_slot s vm) (emit (pool_restored vm) w).1).1).1
unfolding abort_boot adopt_slot
adopt_slot-back s vm w i = ground arith

EndsPool-of_Ends :
    (w : World) (x : Result VmmBackendError Bool × World)
    → Ends running w x
    → x.0 ≢ ok false
    → EndsPool w x
EndsPool-of_Ends w (ok true, w') e n = e
EndsPool-of_Ends w (ok false, w') e n = absurd (n refl)
EndsPool-of_Ends w (err x, w') e n = e

start_restored-Ends :
    (h : Host) (s : ClaimedSlot) (vm : ℕ) (w : World)
    → IsIdle w.backend
    → EndsPool w (start_restored h s vm w)
unfolding start_restored adopt_slot
start_restored-Ends h s vm w i =
    EndsPool-of_Ends w (start_restored h s vm w)
      (bridge-Ends h w (modify (adopt_slot s vm) (emit (pool_restored vm) w).1).1
        (finish_restored h) (finish_restored-Finishes h) (adopt_slot-back s vm w i))
      (start_restored-ne-false h s vm w)

restore_slot-Ends :
    (h : Host) (p : Pool) (s : ClaimedSlot) (w : World)
    → IsIdle w.backend
    → EndsPool w (restore_slot h p s w)
unfolding restore_slot
restore_slot-Ends h p s w i = elim (Result-cases (Pool.restore_into_vm h.slots p s w.disk).0) [
  | inl (vm, e) ↦
      rw (e, restore_slot)
        (start_restored-Ends h s vm
          (record w { disk = (Pool.restore_into_vm h.slots p s w.disk).1 }) i)
  | inr (x, e) ↦ rw (e, restore_slot) refl
]

claim_and_restore-Ends :
    (h : Host) (p : Pool) (spec : PoolMatchSpec) (w : World)
    → IsIdle w.backend
    → EndsPool w (claim_and_restore h p spec w)
unfolding claim_and_restore count_miss
claim_and_restore-Ends h p spec w i = go (Pool.try_claim_matching_slot h.slots p spec w.disk).0 refl
  where
    w' : World
    w' = record w { disk = (Pool.try_claim_matching_slot h.slots p spec w.disk).1 }

    go :
        (r : Result PoolError (Option ClaimedSlot))
        → (Pool.try_claim_matching_slot h.slots p spec w.disk).0 ≡ r
        → EndsPool w (claim_and_restore h p spec w)
    go (ok (some s)) e = rw (e, claim_and_restore) (restore_slot-Ends h p s w' i)
    go (ok none) e = rw (e, claim_and_restore) refl
    go (err x) e = rw (e, claim_and_restore) refl

pool_attempt-Ends :
    (h : Host) (boot : BootSourceConfig) (rootfs : Bytes) (b : Bool) (p : Option Pool) (w : World)
    → IsIdle w.backend
    → EndsPool w (pool_attempt h boot rootfs b p w)
unfolding pool_attempt
pool_attempt-Ends h boot rootfs true (some p) w i = claim_and_restore-Ends h p _ w i
pool_attempt-Ends h boot rootfs true none w i = refl
pool_attempt-Ends h boot rootfs false p w i = refl

pub try_pool-Ends :
    (h : Host) (boot : BootSourceConfig) (rootfs : Bytes) (w : World)
    → IsIdle w.backend
    → EndsPool w (try_pool h boot rootfs w)
unfolding try_pool
try_pool-Ends h boot rootfs w i = pool_attempt-Ends h boot rootfs _ w.backend.pool w i
