-- ===== src/Server/Sessions.antt =====
-- The server as it runs: the backend that `main` of src/hephaestus-firecracker/src/main.rs builds, and
-- the turns in which the connections and the timer of that file take its lock. A request takes the lock
-- once for its call and once more for its observation, and others may take turns between the two.
pub mod Valid
use hephaestus.Base.{
  ℕ, zero, suc, Bool, true, false, not, ◌&&◌, Option, none, some, if◌then◌else◌, List, [], ◌∷◌,
  ◌++◌,
}
use hephaestus.Base.Text.{Bytes}
use hephaestus.Base.Checked.{Result, ok, err}
use hephaestus.Pool.{Pool, PoolError}
use hephaestus.Backend.{
  Host, World, VzBackend, new, with_pool, with_host_mmds, with_vmnet_networking,
}
use hephaestus.Backend.Api.{observed, flushing, handle}
use hephaestus.Server.{Decoders, dispatch, perform, is_dropped}

-- The arguments of the program that the backend is built from; `vmnet` says whether its network backend
-- is that one.
pub record ServerArgs : Type 0 where
  pub id : Bytes
  pub vmnet : Bool
  pub host_mmds : Bool
  pub pool_dir : Option Bytes

-- A pool that does not open is left out.
unfoldable pub attach_pool : Option (Result PoolError Pool) → VzBackend → VzBackend
unfolding with_pool
attach_pool none b = b
attach_pool (some (ok p)) b = with_pool p b
attach_pool (some (err e)) b = b

abbrev pub opened_pool :
    (Bytes → Result PoolError Pool) → Option Bytes → Option (Result PoolError Pool)
opened_pool opens none = none
opened_pool opens (some dir) = some (opens dir)

-- `opens` is `Pool::open`. The metadata service of the host needs the vmnet network.
unfoldable pub build_backend : (Bytes → Result PoolError Pool) → ServerArgs → Option VzBackend
unfolding attach_pool with_host_mmds with_vmnet_networking
build_backend opens args =
    if args.host_mmds && not args.vmnet
    then none
    else some (
        attach_pool (opened_pool opens args.pool_dir)
          (with_host_mmds args.host_mmds (with_vmnet_networking args.vmnet (new args.id))))

-- An answered request that is still to be observed.
pub record Answered : Type 0 where
  pub method : Bytes
  pub path : Bytes
  pub status : ℕ

pub record Serving : Type 0 where
  pub world : World
  pub unobserved : List Answered

-- Who takes the lock: a request for its call, the answered request at a position for its observation,
-- or the timer that flushes the metrics. Each comes with the host's answers to it.
pub data Turn : Type 0 where
  calls : Host → (method path : Bytes) → Option Bytes → Turn
  observes : Host → (position : ℕ) → Turn
  flushes : Host → Turn

unfoldable pub take_at : ℕ → List Answered → Option (Answered × List Answered)
take_at n [] = none
take_at zero (a ∷ later) = some (a, later)
take_at (suc n) (a ∷ later) = elim (take_at n later) [
  | none ↦ none
  | some (found, rest) ↦ some (found, a ∷ rest)
]

unfoldable pub take_turn : Decoders → Turn → Serving → Serving
unfolding take_at
take_turn d (calls h method path body) s =
    let call = dispatch d method path body in
    let (r, w) = perform h call s.world in
    let answered : Answered = record { method = method; path = path; status = r.status } in
    record {
      world = w;
      unobserved = if is_dropped call then s.unobserved else s.unobserved ++ answered ∷ [];
    }
take_turn d (observes h n) s = elim (take_at n s.unobserved) [
  | none ↦ s
  | some (a, rest) ↦ record {
    world = (handle h (observed a.method a.path a.status) s.world).1;
    unobserved = rest;
  }
]
take_turn d (flushes h) s = record s { world = (handle h flushing s.world).1 }

unfoldable pub take_turns : Decoders → List Turn → Serving → Serving
unfolding take_turn
take_turns d [] s = s
take_turns d (t ∷ ts) s = take_turns d ts (take_turn d t s)
