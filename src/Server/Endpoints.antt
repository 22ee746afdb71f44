-- ===== src/Server/Endpoints.antt =====
-- The HTTP interface as a client sees it: under which method and path each operation of the backend is
-- documented in docs/firecracker-compatibility.md, and that the router serves it there.
use hephaestus.Base.{
  ℕ, zero, suc, ◌≤◌, ◌≡◌, ◌≢◌, refl, ◌∙◌, false, Option, none, some, [], ◌∷◌, ◌++◌, any, ◌==◌,
  length, ltb, arith,
}
use hephaestus.Base.Text.{Bytes, codes, bytes_eq, bytes_eq_refl, strip_prefix}
use hephaestus.Json.{Value}
use hephaestus.Backend.{Host, World}
use hephaestus.Backend.Api.{
  Request, boot_source, block_device, block_device_update, network_device, network_device_update,
  logger, metrics, mmds_put, mmds_patch, mmds_config, vsock, machine_config, machine_config_update,
  entropy, balloon, balloon_update, ctrl_alt_del, start, pausing, resuming, snapshot_create,
  snapshot_load, flushing, observed, handle,
}
use hephaestus.Server.{
  Decoders, Call, change, to_paused, to_resumed, instance_start, flush_metrics, send_ctrl_alt_del,
  max_body_bytes, parse_body, with_id, same_id, trim_from, trim_start_matches, vm_call, action_call,
  put_arms, patch_arms, put_call, patch_call, put_device_call, patch_device_call, put_drive_call,
  patch_drive_call, put_iface_call, patch_iface_call, dispatch, perform, serve, route, to_response,
}

pub record Endpoint : Type 0 where
  pub method : Bytes
  pub path : Bytes

abbrev put : Bytes → Endpoint
put path = record { method = codes "PUT"; path = path }

abbrev patch : Bytes → Endpoint
patch path = record { method = codes "PATCH"; path = path }

-- Where a client asks for an operation. An observation is none of a client's.
pub endpoint : Request → Endpoint
endpoint (boot_source c) = put (codes "/boot-source")
endpoint (logger c) = put (codes "/logger")
endpoint (metrics c) = put (codes "/metrics")
endpoint (mmds_put c) = put (codes "/mmds")
endpoint (mmds_patch c) = patch (codes "/mmds")
endpoint (mmds_config c) = put (codes "/mmds/config")
endpoint (vsock c) = put (codes "/vsock")
endpoint (machine_config c) = put (codes "/machine-config")
endpoint (machine_config_update c) = patch (codes "/machine-config")
endpoint (balloon c) = put (codes "/balloon")
endpoint (balloon_update c) = patch (codes "/balloon")
endpoint (snapshot_create c) = put (codes "/snapshot/create")
endpoint (snapshot_load c) = put (codes "/snapshot/load")
endpoint (block_device c) = put (codes "/drives/" ++ c.drive_id)
endpoint (block_device_update c) = patch (codes "/drives/" ++ c.drive_id)
endpoint (network_device c) = put (codes "/network-interfaces/" ++ c.iface_id)
endpoint (network_device_update c) = patch (codes "/network-interfaces/" ++ c.iface_id)
endpoint entropy = put (codes "/entropy")
endpoint start = put (codes "/actions")
endpoint flushing = put (codes "/actions")
endpoint ctrl_alt_del = put (codes "/actions")
endpoint pausing = patch (codes "/vm")
endpoint resuming = patch (codes "/vm")
endpoint (observed m p s) = put []

-- An id that can stand in a path.
pub record IsId (id : Bytes) : Type 0 where
  pub nonempty : id ≢ []
  pub no_slash : any (λ c. c == b'/') id ≡ false

-- A body asks for an operation, by what the reader of the endpoint makes of it.
unfoldable pub Asks : Decoders → Request → Bytes → Type 0
Asks d (boot_source c) b = d.boot_source b ≡ some c
Asks d (logger c) b = d.logger b ≡ some c
Asks d (metrics c) b = d.metrics b ≡ some c
Asks d (mmds_put c) b = d.value b ≡ some c
Asks d (mmds_patch c) b = d.value b ≡ some c
Asks d (mmds_config c) b = d.mmds_config b ≡ some c
Asks d (vsock c) b = d.vsock b ≡ some c
Asks d (machine_config c) b = d.machine_config b ≡ some c
Asks d (machine_config_update c) b = d.machine_config_update b ≡ some c
Asks d (balloon c) b = d.balloon b ≡ some c
Asks d (balloon_update c) b = d.balloon_update b ≡ some c
Asks d (snapshot_create c) b = d.create_snapshot b ≡ some c
Asks d (snapshot_load c) b = d.load_snapshot b ≡ some c
Asks d (block_device c) b = (d.drive b ≡ some c) × IsId c.drive_id
Asks d (block_device_update c) b = (d.drive_update b ≡ some c) × IsId c.drive_id
Asks d (network_device c) b = (d.iface b ≡ some c) × IsId c.iface_id
Asks d (network_device_update c) b = (d.iface b ≡ some c) × IsId c.iface_id
Asks d entropy b = (v : Value) × (d.value b ≡ some v)
Asks d start b = d.action b ≡ some instance_start
Asks d flushing b = d.action b ≡ some flush_metrics
Asks d ctrl_alt_del b = d.action b ≡ some send_ctrl_alt_del
Asks d pausing b = d.updated_vm b ≡ some to_paused
Asks d resuming b = d.updated_vm b ≡ some to_resumed
Asks d (observed m p s) b = ⊥

parse_body-some :
    {A : Type 0} (decode : Bytes → Option A) (b : Bytes) (a : A) (k : A → Call)
    → length b ≤ max_body_bytes
    → decode b ≡ some a
    → parse_body decode (some b) k ≡ k a
unfolding parse_body
parse_body-some decode b a k l e =
    let fits : ltb max_body_bytes (length b) ≡ false = ground arith in rw (fits) (rw (e) refl)

same_id_refl : (id : Bytes) (call : Call) → same_id id id call ≡ call
unfolding same_id
same_id_refl id call = rw (bytes_eq_refl id) refl

strip_prefix-append : (p s : Bytes) → strip_prefix p (p ++ s) ≡ some s
strip_prefix-append [] s = refl
strip_prefix-append (c ∷ p) s = ground (arith, strip_prefix-append p s)

-- An id does not begin with a slash, so the prefix is taken off once.
strip_prefix-IsId : (p id : Bytes) → IsId id → strip_prefix (b'/' ∷ p) id ≡ none
strip_prefix-IsId p [] h = absurd (h.nonempty refl)
strip_prefix-IsId p (c ∷ id) h = let n = h.no_slash in ground arith

trim_from-IsId : (f : ℕ) (p id : Bytes) → IsId id → trim_from f (b'/' ∷ p) id ≡ id
unfolding trim_from
trim_from-IsId zero p id h = refl
trim_from-IsId (suc f) p id h = rw (strip_prefix-IsId p id h, trim_from) refl

trim_start_matches-IsId :
    (p id : Bytes) → IsId id → trim_start_matches (b'/' ∷ p) (b'/' ∷ p ++ id) ≡ id
unfolding trim_start_matches trim_from
trim_start_matches-IsId p id h =
    rw (strip_prefix-append p id) (trim_from-IsId (length (p ++ id)) p id h)

with_id-IsId :
    (p id : Bytes) (k : Bytes → Call) → IsId id → with_id (b'/' ∷ p) (b'/' ∷ p ++ id) k ≡ k id
unfolding with_id
with_id-IsId p [] k h = absurd (h.nonempty refl)
with_id-IsId p (c ∷ id) k h = rw (trim_start_matches-IsId p (c ∷ id) h) (rw (h.no_slash) refl)

module _ (d : Decoders) where
  -- A device is asked for under its own id.
  with_id-parse_body :
      {A : Type 0} (p b : Bytes) (decode : Bytes → Option A) (id_of : A → Bytes) (k : A → Call)
      (a : A)
      → length b ≤ max_body_bytes
      → decode b ≡ some a
      → IsId (id_of a)
      → with_id
          (b'/' ∷ p)
          (b'/' ∷ p ++ id_of a)
          (λ id. parse_body decode (some b) λ c. same_id (id_of c) id (k c))
        ≡ k a
  with_id-parse_body p b decode id_of k a l e h =
      with_id-IsId p (id_of a) _ h
      ∙ (parse_body-some decode b a _ l e ∙ same_id_refl (id_of a) (k a))

  dispatch-endpoint :
      (r : Request) (b : Bytes)
      → length b ≤ max_body_bytes
      → Asks d r b
      → dispatch d (endpoint r).method (endpoint r).path (some b) ≡ change r
  unfolding endpoint Asks dispatch put_call patch_call put_arms patch_arms bytes_eq put_device_call
      patch_device_call put_drive_call patch_drive_call put_iface_call patch_iface_call vm_call
      action_call
  dispatch-endpoint (boot_source c) b l e = parse_body-some d.boot_source b c _ l e
  dispatch-endpoint (logger c) b l e = parse_body-some d.logger b c _ l e
  dispatch-endpoint (metrics c) b l e = parse_body-some d.metrics b c _ l e
  dispatch-endpoint (mmds_put c) b l e = parse_body-some d.value b c _ l e
  dispatch-endpoint (mmds_patch c) b l e = parse_body-some d.value b c _ l e
  dispatch-endpoint (mmds_config c) b l e = parse_body-some d.mmds_config b c _ l e
  dispatch-endpoint (vsock c) b l e = parse_body-some d.vsock b c _ l e
  dispatch-endpoint (machine_config c) b l e = parse_body-some d.machine_config b c _ l e
  dispatch-endpoint (machine_config_update c) b l e =
      parse_body-some d.machine_config_update b c _ l e
  dispatch-endpoint (balloon c) b l e = parse_body-some d.balloon b c _ l e
  dispatch-endpoint (balloon_update c) b l e = parse_body-some d.balloon_update b c _ l e
  dispatch-endpoint (snapshot_create c) b l e = parse_body-some d.create_snapshot b c _ l e
  dispatch-endpoint (snapshot_load c) b l e = parse_body-some d.load_snapshot b c _ l e
  dispatch-endpoint (block_device c) b l (e, h) =
      with_id-parse_body (codes "drives/") b d.drive (λ c. c.drive_id)
        (λ c. change (block_device c)) c l e h
  dispatch-endpoint (block_device_update c) b l (e, h) =
      with_id-parse_body (codes "drives/") b d.drive_update (λ c. c.drive_id)
        (λ c. change (block_device_update c)) c l e h
  dispatch-endpoint (network_device c) b l (e, h) =
      with_id-parse_body (codes "network-interfaces/") b d.iface (λ c. c.iface_id)
        (λ c. change (network_device c)) c l e h
  dispatch-endpoint (network_device_update c) b l (e, h) =
      with_id-parse_body (codes "network-interfaces/") b d.iface (λ c. c.iface_id)
        (λ c. change (network_device_update c)) c l e h
  dispatch-endpoint entropy b l (v, e) = parse_body-some d.value b v _ l e
  dispatch-endpoint start b l e = parse_body-some d.action b instance_start _ l e
  dispatch-endpoint flushing b l e = parse_body-some d.action b flush_metrics _ l e
  dispatch-endpoint ctrl_alt_del b l e = parse_body-some d.action b send_ctrl_alt_del _ l e
  dispatch-endpoint pausing b l e = parse_body-some d.updated_vm b to_paused _ l e
  dispatch-endpoint resuming b l e = parse_body-some d.updated_vm b to_resumed _ l e
  dispatch-endpoint (observed m p s) b l e = absurd e

-- Each operation of the backend is served under its documented method and path, for a body within the
-- limit that is read as its argument, and for a device under its own id, if that is nonempty and has no
-- slash: exactly that operation is done, its result is the response, and then the request is observed
-- with the status of the response.
pub route-endpoint :
    (d : Decoders) (h after : Host) (r : Request) (b : Bytes) (w : World)
    → length b ≤ max_body_bytes
    → Asks d r b
    → let at = endpoint r in
      let (result, done) = handle h r w in
      let response = to_response result in
      route d h after at.method at.path (some b) w
      ≡ (response, (handle after (observed at.method at.path response.status) done).1)
unfolding route serve perform
route-endpoint d h after r b w l a = rw (dispatch-endpoint d r b l a) refl
