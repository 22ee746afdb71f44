-- ===== src/Backend/Rollback/Cold.antt =====
-- The cold boot and the loading of a snapshot, and the two requests as wholes.
use hephaestus.Base.{
  ℕ, ◌≡◌, refl, Option-cases, inl, inr, true, false, Bool, Option, none, some, arith, if◌then◌else◌,
  ◌⊎◌,
}
use hephaestus.Base.Text.{Bytes}
use hephaestus.Base.Checked.{Result, ok, err}
use hephaestus.Config.{VmState, paused, running, BootSourceConfig, LoadSnapshotConfig}
use hephaestus.Backend.{
  Host, World, Action, Done, done, ◌>>=◌, ◌>>◌, require, modify, emit, started, built, restored,
  VmmBackendError, internal,
}
use hephaestus.Backend.Valid.{IsIdle, IsValid, IsUp}
use hephaestus.Backend.Balloon.{validate_balloon, is_live}
use hephaestus.Backend.Metadata.{start_vmnet_mmds}
use hephaestus.Backend.Boot.{
  abort_boot, try_pool, adopt_cold, finish_cold, start_built, boot_cold, start_from, start_micro_vm,
  adopt_snapshot, finish_snapshot, start_loaded, restore_snapshot, load_snapshot, spec_of,
  bridge_or_abort,
}
use hephaestus.Backend.Invariant.Boots.{start_vmnet_mmds-err}
use hephaestus.Backend.Rollback.{
  OnlyMetrics, Ends, EndsPool, bridge-Ends, finish_cold-Finishes, finish_snapshot-Finishes,
  try_pool-Ends,
}

bind-Ends :
    {A B : Type 0} (s : VmState) (w : World) (x : Result VmmBackendError A × World)
    (f : A → Action B)
    → ((e : VmmBackendError) → x.0 ≡ err e → OnlyMetrics w x.1)
    → ((a : A) → x.0 ≡ ok a → Ends s w (f a x.1))
    → Ends s w (◌>>=◌ (λ _. x) f x.1)
bind-Ends s w (ok a, w') f failed went_on = went_on a refl
bind-Ends s w (err e, w') f failed went_on = failed e refl

OnlyMetrics-trans : (u v w : World) → OnlyMetrics u v → OnlyMetrics v w → OnlyMetrics u w
OnlyMetrics-trans u v w p q = ground arith

OnlyMetrics-IsIdle : (u v : World) → OnlyMetrics u v → IsIdle u.backend → IsIdle v.backend
OnlyMetrics-IsIdle u v p i = ground arith

Ends-trans :
    {A : Type 0} (s : VmState) (u v : World) (x : Result VmmBackendError A × World)
    → OnlyMetrics u v
    → Ends s v x
    → Ends s u x
Ends-trans s u v (ok a, w) p e = e
Ends-trans s u v (err x, w) p e = OnlyMetrics-trans u v w p e

-- A responder that does not start changes nothing.
responder-back :
    (h : Host) (w : World) (e : VmmBackendError)
    → (start_vmnet_mmds h w).0 ≡ err e
    → OnlyMetrics w (start_vmnet_mmds h w).1
responder-back h w e p = ground (arith, start_vmnet_mmds-err h w e p)

adopt_cold-back :
    (h : Host) (vm : ℕ) (w : World)
    → IsIdle w.backend
    → OnlyMetrics w (abort_boot (modify (adopt_cold vm) (start_vmnet_mmds h w).1).1).1
unfolding abort_boot adopt_cold start_vmnet_mmds
adopt_cold-back h vm w i = ground arith

adopt_snapshot-back :
    (h : Host) (vm : ℕ) (r : Bool) (w : World)
    → IsIdle w.backend
    → OnlyMetrics w (abort_boot (modify (adopt_snapshot vm r) (start_vmnet_mmds h w).1).1).1
unfolding abort_boot adopt_snapshot start_vmnet_mmds
adopt_snapshot-back h vm r w i = ground arith

start_built-Ends :
    (h : Host) (vm : ℕ) (w : World) → IsIdle w.backend → Ends running w (start_built h vm w)
unfolding start_built adopt_cold
start_built-Ends h vm w i =
    bind-Ends running w (start_vmnet_mmds h w) (λ _. modify (adopt_cold vm) >>= λ _. go_on)
      (responder-back h w)
      λ _ _.
        bridge-Ends h w (modify (adopt_cold vm) (start_vmnet_mmds h w).1).1 (finish_cold h)
          (finish_cold-Finishes h) (adopt_cold-back h vm w i)
  where
    go_on : Action Done
    go_on = bridge_or_abort h >>= λ _. finish_cold h

abbrev loaded_state : Bool → VmState
loaded_state resume = if resume then running else paused

start_loaded-Ends :
    (h : Host) (vm : ℕ) (r : Bool) (w : World)
    → IsIdle w.backend
    → Ends (loaded_state r) w (start_loaded h vm r w)
unfolding start_loaded adopt_snapshot
start_loaded-Ends h vm r w i =
    bind-Ends (loaded_state r) w (start_vmnet_mmds h w)
      (λ _. modify (adopt_snapshot vm r) >>= λ _. go_on) (responder-back h w)
      λ _ _.
        bridge-Ends h w (modify (adopt_snapshot vm r) (start_vmnet_mmds h w).1).1
          (finish_snapshot h) (finish_snapshot-Finishes h) (adopt_snapshot-back h vm r w i)
  where
    go_on : Action Done
    go_on = bridge_or_abort h >>= λ _. finish_snapshot h

-- A VM that does not start changes nothing.
starts-Ends :
    (u w : World) (b : Bool) (vm : ℕ) (m : Action Done)
    → OnlyMetrics u w
    → Ends running u (m (emit (started vm) w).1)
    → Ends {A = Done} running u ((require b internal >> (emit (started vm) >> m)) w)
starts-Ends u w true vm m p e = e
starts-Ends u w false vm m p e = p

boot_cold-Ends :
    (h : Host) (boot : BootSourceConfig) (rootfs : Bytes) (w : World)
    → IsIdle w.backend
    → Ends running w (boot_cold h boot rootfs w)
unfolding boot_cold
boot_cold-Ends h boot rootfs w i =
    elim (Option-cases (h.builds (spec_of h w.backend boot rootfs))) [
      | inl e ↦ rw (e, boot_cold) refl
      | inr (vm, e) ↦
          rw (e, boot_cold)
            (starts-Ends w (emit (built (spec_of h w.backend boot rootfs)) w).1 h.starts vm
              (start_built h vm) refl
              (start_built-Ends h vm
                (emit (started vm) (emit (built (spec_of h w.backend boot rootfs)) w).1).1 i))
    ]

start_from-Ends :
    (h : Host) (boot : BootSourceConfig) (rootfs : Bytes) (w : World)
    → IsIdle w.backend
    → Ends running w (start_from h boot rootfs w)
unfolding start_from
start_from-Ends h boot rootfs w i = go (try_pool h boot rootfs w) (try_pool-Ends h boot rootfs w i)
  where
    go :
        (x : Result VmmBackendError Bool × World)
        → EndsPool w x
        → Ends running w (◌>>=◌ (λ _. x) (λ hit. if hit then done else boot_cold h boot rootfs) x.1)
    go (ok true, w') e = e
    go (ok false, w') e =
        Ends-trans running w w' (boot_cold h boot rootfs w') e
          (boot_cold-Ends h boot rootfs w' (OnlyMetrics-IsIdle w w' e i))
    go (err x, w') e = e

-- `InstanceStart` on a valid backend: a success leaves the VM running; a failure, of whichever step,
-- leaves the backend as it was, the metrics apart.
pub start_micro_vm-Ends :
    (h : Host) (w : World) → IsValid w.backend → Ends running w (start_micro_vm h w)
unfolding start_micro_vm validate_balloon is_live
start_micro_vm-Ends h w v = go w.backend.boot_source w.backend.root_drive refl refl v.phase
  where
    go :
        (b : Option BootSourceConfig) (r : Option Bytes)
        → w.backend.boot_source ≡ b
        → w.backend.root_drive ≡ r
        → (IsIdle w.backend ⊎ IsUp w.backend)
        → Ends running w (start_micro_vm h w)
    go (some b) (some r) p q (inl i) = ground (arith, start_from-Ends h b r w i)
    go none _ p q (inl i) = ground arith
    go (some b) none p q (inl i) = ground arith
    go _ _ p q (inr u) = ground arith

restore_snapshot-Ends :
    (h : Host) (c : LoadSnapshotConfig) (boot : BootSourceConfig) (rootfs : Bytes) (w : World)
    → IsIdle w.backend
    → Ends (loaded_state c.resume_vm) w (restore_snapshot h c boot rootfs w)
unfolding restore_snapshot
restore_snapshot-Ends h c boot rootfs w i =
    let spec = spec_of h w.backend boot rootfs in
    elim (Option-cases (h.restores spec c.snapshot_path c.resume_vm)) [
      | inl e ↦ rw (e, restore_snapshot) refl
      | inr (vm, e) ↦
          rw (e, restore_snapshot)
            (start_loaded-Ends h vm c.resume_vm
              (emit (restored spec c.snapshot_path c.resume_vm) w).1 i)
    ]

-- Loading a snapshot on a valid backend: a success leaves the VM running or paused, as it was asked to;
-- a failure, of whichever step, leaves the backend as it was, the metrics apart.
pub load_snapshot-Ends :
    (h : Host) (c : LoadSnapshotConfig) (w : World)
    → IsValid w.backend
    → Ends (loaded_state c.resume_vm) w (load_snapshot h c w)
unfolding load_snapshot validate_balloon is_live
load_snapshot-Ends h c w v = go w.backend.boot_source w.backend.root_drive refl refl v.phase
  where
    go :
        (b : Option BootSourceConfig) (r : Option Bytes)
        → w.backend.boot_source ≡ b
        → w.backend.root_drive ≡ r
        → (IsIdle w.backend ⊎ IsUp w.backend)
        → Ends (loaded_state c.resume_vm) w (load_snapshot h c w)
    go (some b) (some r) p q (inl i) = ground (arith, restore_snapshot-Ends h c b r w i)
    go none _ p q (inl i) = ground arith
    go (some b) none p q (inl i) = ground arith
    go _ _ p q (inr u) = ground arith
