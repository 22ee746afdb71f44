-- ===== src/Server/Examples.antt =====
-- Requests to a server whose backend is ready to boot.
use hephaestus.Base.{ℕ, ◌≤◌, ◌≡◌, refl, true, false, none, some, List, [], ◌∷◌, length, arith}
use hephaestus.Base.Text.{Bytes, codes, bytes_eq}
use hephaestus.Backend.{World, VzBackend, new, with_host_mmds, with_vmnet_networking}
use hephaestus.Backend.Valid.{IsValid}
use hephaestus.Backend.Rollback.{OnlyMetrics}
use hephaestus.Backend.Api.{block_device, start, observed, handle}
use hephaestus.Backend.Samples.{host, free, data_drive, ready, ready-IsValid}
use hephaestus.Server.{
  Decoders, Call, change, dropped, instance_start, to_paused, dispatch, route, to_response,
}
use hephaestus.Server.Endpoints.{endpoint, Asks, route-endpoint}
use hephaestus.Server.Sessions.{
  ServerArgs, attach_pool, build_backend, Serving, Turn, calls, observes, flushes, take_turns,
}
use hephaestus.Server.Sessions.Valid.{take_turns-build_backend-IsValid}
use hephaestus.Pool.{Pool, PoolError, stock_init}
use hephaestus.Base.Checked.{Result, ok}
use hephaestus.Server.Refusals.{route-too_long, route-failed}

-- Readers that know a drive and an action.
abbrev decoders : Decoders
decoders = record {
  machine_config = λ _. none;
  machine_config_update = λ _. none;
  boot_source = λ _. none;
  drive = λ _. some data_drive;
  drive_update = λ _. none;
  iface = λ _. none;
  updated_vm = λ _. some to_paused;
  logger = λ _. none;
  metrics = λ _. none;
  mmds_config = λ _. none;
  create_snapshot = λ _. none;
  load_snapshot = λ _. none;
  action = λ _. some instance_start;
  balloon = λ _. none;
  balloon_update = λ _. none;
  vsock = λ _. none;
  value = λ _. none;
}

-- A repeated prefix is taken off twice, and leaves a valid id.
repeated_prefix :
    dispatch decoders (codes "PUT") (codes "/drives//drives/data") (some [])
    ≡ change (block_device data_drive)
unfolding dispatch bytes_eq hephaestus.Server.put_call hephaestus.Server.put_arms
    hephaestus.Server.put_device_call hephaestus.Server.put_drive_call hephaestus.Server.with_id
    hephaestus.Server.parse_body hephaestus.Server.same_id
repeated_prefix = refl

-- A path without an id is refused, and the request is not counted.
not_counted : (route decoders host host (codes "PUT") (codes "/drives/") (some []) ready).1 ≡ ready
unfolding route bytes_eq hephaestus.Server.put_call hephaestus.Server.put_arms
    hephaestus.Server.put_device_call hephaestus.Server.put_drive_call hephaestus.Server.with_id
    hephaestus.Server.perform
not_counted = refl

abbrev long_body : ℕ → Bytes
long_body ℕ.zero = []
long_body (ℕ.suc n) = 0 ∷ long_body n

length-long_body : (n : ℕ) → length (long_body n) ≡ n
length-long_body ℕ.zero = refl
length-long_body (ℕ.suc n) = omega (arith, length-long_body n)

put_is_no_get : bytes_eq (codes "PUT") (codes "GET") ≡ false
unfolding bytes_eq
put_is_no_get = refl

Asks-start : Asks decoders start (codes "x")
unfolding Asks
Asks-start = refl

route-endpoint_example :
    let at = endpoint start in
    let (result, done) = handle host start ready in
    let response = to_response result in
    route decoders host host at.method at.path (some (codes "x")) ready
    ≡ (response, (handle host (observed at.method at.path response.status) done).1)
route-endpoint_example =
    route-endpoint decoders host host start (codes "x") ready (omega arith) Asks-start

-- A server on vmnet with the metadata service of the host and a pool, whose connections overlap.
abbrev server_args : ServerArgs
server_args = record {
  id = codes "i";
  vmnet = true;
  host_mmds = true;
  pool_dir = some (codes "/p");
}

abbrev opens : Bytes → Result PoolError Pool
opens dir = ok (record {
  dir = dir;
  meta = record {
    kernel = codes "/k";
    initramfs = none;
    pristine = codes "/p/pristine.ext4";
    save = codes "/p/save.bin";
    slots = 2;
    cpus = 2;
    memory_mib = 512;
    flavor = stock_init;
  };
})

abbrev server_backend : VzBackend
server_backend =
    attach_pool (some (opens (codes "/p")))
      (with_host_mmds true (with_vmnet_networking true (new (codes "i"))))

builds : build_backend opens server_args ≡ some server_backend
unfolding build_backend
builds = refl

abbrev overlapping : List Turn
overlapping =
    calls host (codes "PUT") (codes "/actions") (some [])
    ∷ calls host (codes "PATCH") (codes "/vm") (some [])
    ∷ observes host 1
    ∷ flushes host
    ∷ observes host 0
    ∷ []

abbrev serving : Serving
serving = record {
  world = record { backend = server_backend; events = []; disk = free };
  unobserved = [];
}

take_turns-build_backend-IsValid_example :
    IsValid (take_turns decoders overlapping serving).world.backend
take_turns-build_backend-IsValid_example =
    take_turns-build_backend-IsValid opens server_args server_backend decoders overlapping [] free
      builds

-- A metadata service of the host without a vmnet network is refused.
needs_vmnet : build_backend opens (record server_args { vmnet = false }) ≡ none
unfolding build_backend
needs_vmnet = refl

route-too_long_example :
    let (r, w') =
      route decoders host host (codes "PUT") (codes "/actions") (some (long_body 60000)) ready in
    (400 ≤ r.status) × (r.status ≤ 404) × OnlyMetrics ready w'
route-too_long_example =
    route-too_long decoders host host (codes "PUT") (codes "/actions") (long_body 60000) ready
      put_is_no_get (omega (arith, length-long_body 60000))

pause_fails :
    (route decoders host host (codes "PATCH") (codes "/vm") (some []) ready).0.status ≡ 400
unfolding route bytes_eq hephaestus.Server.patch_call hephaestus.Server.patch_arms
    hephaestus.Server.parse_body hephaestus.Server.vm_call hephaestus.Server.perform
    hephaestus.Server.to_response hephaestus.Backend.Api.handle hephaestus.Backend.Lifecycle.pause
    new
pause_fails = refl

route-failed_example :
    (route decoders host host (codes "PATCH") (codes "/vm") (some []) ready).1.backend.state
    ≡ ready.backend.state
route-failed_example =
    route-failed decoders host host (codes "PATCH") (codes "/vm") (some []) ready ready-IsValid
      (omega (arith, pause_fails))
