-- ===== src/Server/Sessions/Valid.antt =====
-- The backend of a server stays well-formed however the connections and the timer take turns.
use hephaestus.Base.{
  ℕ, ◌≡◌, refl, Bool, true, false, Option, none, some, List, [], ◌∷◌, arith, not, ◌&&◌, subst,
  if◌then◌else◌,
}
use hephaestus.Base.Text.{Bytes}
use hephaestus.Base.Checked.{Result, ok, err}
use hephaestus.Pool.{Pool, PoolError, Disk}
use hephaestus.Backend.{Host, World, Event, VzBackend, new, with_host_mmds, with_vmnet_networking}
use hephaestus.Backend.Valid.{IsValid}
use hephaestus.Backend.Api.{observed, flushing}
use hephaestus.Backend.Invariant.Requests.{handle-IsValid}
use hephaestus.Server.{
  Call, change, read_info, read_version, read_machine_config, read_mmds, read_balloon, unsupported,
  refused, dropped, not_found, Decoders, dispatch, perform,
}
use hephaestus.Server.Sessions.{
  ServerArgs, opened_pool, attach_pool, build_backend, Answered, Serving, Turn, calls, observes,
  flushes, take_at, take_turn, take_turns,
}

perform-IsValid :
    (h : Host) (c : Call) (w : World) → IsValid w.backend → IsValid (perform h c w).1.backend
unfolding perform
perform-IsValid h (change r) w v = handle-IsValid h r w v
perform-IsValid h read_info w v = v
perform-IsValid h read_version w v = v
perform-IsValid h read_machine_config w v = v
perform-IsValid h read_mmds w v = v
perform-IsValid h read_balloon w v = v
perform-IsValid h unsupported w v = v
perform-IsValid h refused w v = v
perform-IsValid h dropped w v = v
perform-IsValid h not_found w v = v

observe-IsValid :
    (h : Host) (found : Option (Answered × List Answered)) (s : Serving) (n : ℕ)
    → take_at n s.unobserved ≡ found
    → (d : Decoders) → IsValid s.world.backend
    → IsValid (take_turn d (observes h n) s).world.backend
unfolding take_turn
observe-IsValid h none s n e d v = rw (e, take_turn) v
observe-IsValid h (some (a, rest)) s n e d v =
    rw (e, take_turn) (handle-IsValid h (observed a.method a.path a.status) s.world v)

take_turn-IsValid :
    (d : Decoders) (t : Turn) (s : Serving)
    → IsValid s.world.backend
    → IsValid (take_turn d t s).world.backend
unfolding take_turn
take_turn-IsValid d (calls h m p b) s v = perform-IsValid h (dispatch d m p b) s.world v
take_turn-IsValid d (observes h n) s v = observe-IsValid h _ s n refl d v
take_turn-IsValid d (flushes h) s v = handle-IsValid h flushing s.world v

take_turns-IsValid :
    (d : Decoders) (ts : List Turn) (s : Serving)
    → IsValid s.world.backend
    → IsValid (take_turns d ts s).world.backend
unfolding take_turns
take_turns-IsValid d [] s v = v
take_turns-IsValid d (t ∷ ts) s v =
    take_turns-IsValid d ts (take_turn d t s) (take_turn-IsValid d t s v)

attach_pool-IsValid :
    (o : Option (Result PoolError Pool)) (vmnet host_mmds : Bool) (id : Bytes)
    → IsValid (attach_pool o (with_host_mmds host_mmds (with_vmnet_networking vmnet (new id))))
unfolding attach_pool with_host_mmds with_vmnet_networking new
attach_pool-IsValid none vmnet host_mmds id = ground arith
attach_pool-IsValid (some (ok p)) vmnet host_mmds id = ground arith
attach_pool-IsValid (some (err e)) vmnet host_mmds id = ground arith

build_backend-IsValid :
    (opens : Bytes → Result PoolError Pool) (args : ServerArgs) (b : VzBackend)
    → build_backend opens args ≡ some b
    → IsValid b
unfolding build_backend
build_backend-IsValid opens args b e =
    go (args.host_mmds && not args.vmnet)
      (attach_pool-IsValid (opened_pool opens args.pool_dir) args.vmnet args.host_mmds args.id) e
  where
    go : (c : Bool) {x : VzBackend} → IsValid x → (if c then none else some x) ≡ some b → IsValid b
    go true v q = absurd (cc)
    go false {x} v q = let same : x ≡ b = cc in subst IsValid same v

-- Whatever the arguments of the server, with or without a pool, a vmnet network and the metadata
-- service of the host: if it starts, then its backend stays valid whatever the clients send, in
-- whatever order the calls, the observations and the timer take turns, and whatever the host answers.
pub take_turns-build_backend-IsValid :
    (opens : Bytes → Result PoolError Pool) (args : ServerArgs) (b : VzBackend) (d : Decoders)
    (ts : List Turn) (events : List Event) (disk : Disk)
    → build_backend opens args ≡ some b
    → let start : Serving = record {
      world = record { backend = b; events = events; disk = disk };
      unobserved = [];
    } in
      IsValid (take_turns d ts start).world.backend
take_turns-build_backend-IsValid opens args b d ts events disk e =
    take_turns-IsValid d ts _ (build_backend-IsValid opens args b e)
