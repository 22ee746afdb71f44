-- ===== src/Backend/Invariant/Bridge.antt =====
-- The parts that the boots share: the bridge with its roll-back, and what is done at the end.
use hephaestus.Base.{ℕ, inl, inr, arith}
use hephaestus.Base.Text.{Bytes, codes}
use hephaestus.Base.Checked.{Result-cases}
use hephaestus.Pool.{ClaimedSlot}
use hephaestus.Backend.{Host, World, modify, emit, pool_restored}
use hephaestus.Backend.Valid.{
  IsValid, IsIdle, IsUp, IsConfigured, Keeps, after-IsValid, BalloonFits,
}
use hephaestus.Backend.Observe.{log_info}
use hephaestus.Backend.Balloon.{is_live, apply_initial_balloon}
use hephaestus.Backend.Metadata.{start_vsock_bridge}
use hephaestus.Backend.Boot.{
  abort_boot, adopt_slot, finish_restored, finish_cold, bridge_or_abort, start_restored,
}
use hephaestus.Backend.Invariant.Steps.{
  flush_metrics-Keeps, flush_metrics-ok, apply_initial_balloon-ok, write_log-backend,
  apply_initial_balloon-backend, refresh-backend,
}

pub log_info-Keeps : (h : Host) (o : Bytes) → Keeps (log_info h o)
unfolding log_info
log_info-Keeps h o w v = rw (write_log-backend h _ o w) v

pub apply_initial_balloon-Keeps : (h : Host) → Keeps (apply_initial_balloon h)
apply_initial_balloon-Keeps h w v = rw (apply_initial_balloon-backend h w) v

abbrev pub Up : World → Type 0
Up w = IsConfigured w.backend × IsUp w.backend

pub Up-IsValid : (w : World) → Up w → IsValid w.backend
Up-IsValid w (c, u) = record { configured = c; phase = inr u }

pub start_vsock_bridge-Up : (h : Host) (w : World) → Up w → Up (start_vsock_bridge h w).1
unfolding start_vsock_bridge is_live
start_vsock_bridge-Up h w (c, u) = ground (arith, refresh-backend h w)

pub abort_boot-IsValid : (w : World) → IsConfigured w.backend → IsValid (abort_boot w).1.backend
unfolding abort_boot
abort_boot-IsValid w c = ground arith

-- After the bridge the VM is up, or nothing is left of it.
pub bridge_or_abort-cases : (h : Host) (w : World) → Up w → IsValid (bridge_or_abort h w).1.backend
unfolding bridge_or_abort
bridge_or_abort-cases h w u = elim (Result-cases (start_vsock_bridge h w).0) [
  | inl (a, e) ↦
      rw (e, bridge_or_abort) (Up-IsValid (start_vsock_bridge h w).1 (start_vsock_bridge-Up h w u))
  | inr (e, p) ↦
      rw (p, bridge_or_abort)
        (abort_boot-IsValid (start_vsock_bridge h w).1 (start_vsock_bridge-Up h w u).0)
]

pub finish_restored-Keeps : (h : Host) → Keeps (finish_restored h)
unfolding finish_restored
finish_restored-Keeps h w v =
    let w' : World = (apply_initial_balloon h w).1 in
    ground (
      arith,
      apply_initial_balloon-ok h w,
      apply_initial_balloon-Keeps h w v,
      flush_metrics-ok w',
      flush_metrics-Keeps w',
    )

pub finish_cold-Keeps : (h : Host) → Keeps (finish_cold h)
unfolding finish_cold
finish_cold-Keeps h w v = ground (
  arith,
  apply_initial_balloon-ok h w,
  apply_initial_balloon-Keeps h w v,
  log_info-Keeps h (codes "vmm") (apply_initial_balloon h w).1,
)

-- What a boot starts from: an idle backend whose balloon leaves memory.
abbrev pub Fresh : World → Type 0
Fresh w =
    IsConfigured w.backend
    × IsIdle w.backend
    × BalloonFits w.backend.balloon w.backend.machine_config.mem_size_mib

pub Fresh-IsValid : (w : World) → Fresh w → IsValid w.backend
Fresh-IsValid w (c, i, b) = record { configured = c; phase = inl i }

pub start_restored-IsValid :
    (h : Host) (s : ClaimedSlot) (vm : ℕ) (w : World)
    → Fresh w
    → IsValid (start_restored h s vm w).1.backend
unfolding start_restored is_live
start_restored-IsValid h s vm w (c, i, b) =
    after-IsValid (bridge_or_abort h w') (λ _. finish_restored h)
      (bridge_or_abort-cases h w' (ground arith, ground arith)) (λ _. finish_restored-Keeps h)
  where
    w' : World
    w' = (modify (adopt_slot s vm) (emit (pool_restored vm) w).1).1
