-- ===== src/Server/Refusals.antt =====
-- What a request that is refused leaves as it was.
use hephaestus.Base.{
  ℕ, ◌≤◌, ◌<◌, ◌≡◌, refl, ◌∙◌, ap, true, false, Bool, Option, some, if◌then◌else◌, ltb, length,
  arith, List, [], ◌∷◌, All, Bool-cases, inl, inr,
}
use hephaestus.Base.Text.{Bytes, codes, bytes_eq, starts_with}
use hephaestus.Base.Checked.{Result, ok, err, is_ok}
use hephaestus.Backend.{Host, World, debug, modify, VmmBackendError, VzBackend, Done}
use hephaestus.Backend.Observe.{observe_request, count_request, flush_metrics}
use hephaestus.Backend.Valid.{IsValid}
use hephaestus.Backend.Rollback.{OnlyMetrics}
use hephaestus.Backend.Invariant.Steps.{write_log-ok, write_log-backend}
use hephaestus.Backend.Api.{Request, observed, handle}
use hephaestus.Backend.Transitions.{handle-state}
use hephaestus.Server.{
  Call, change, read_info, read_version, read_machine_config, read_mmds, read_balloon, unsupported,
  refused, dropped, not_found, Decoders, parse_body, with_id, arms, put_call, patch_call, dispatch,
  put_arms, patch_arms, put_device_call, patch_device_call, trim_start_matches, put_drive_call,
  put_iface_call, put_pmem_call, patch_drive_call, patch_iface_call, perform, serve, route,
  to_response, error_status, is_dropped, max_body_bytes,
}

observed-OnlyMetrics :
    (h : Host) (m p : Bytes) (s : ℕ) (w : World) → OnlyMetrics w (handle h (observed m p s) w).1
unfolding handle observe_request flush_metrics
observed-OnlyMetrics h m p s w = ground (
  arith,
  write_log-ok h debug (codes "api_server::request")
      (modify (λ b. record b { metrics = count_request m p s b.metrics }) w).1,
  write_log-backend h debug (codes "api_server::request")
      (modify (λ b. record b { metrics = count_request m p s b.metrics }) w).1,
)

-- The calls that answer with an error without asking the backend.
abbrev pub IsRefusal : Call → Type 0
IsRefusal unsupported = Unit {0}
IsRefusal refused = Unit {0}
IsRefusal dropped = Unit {0}
IsRefusal not_found = Unit {0}
IsRefusal _ = ⊥

IsRefusal-arms :
    (s : Bytes) (cs : List (Bytes × Call)) (other : Call)
    → All (λ c. IsRefusal c.1) cs
    → IsRefusal other
    → IsRefusal (arms s cs other)
IsRefusal-arms s [] other a o = o
IsRefusal-arms s ((l, c) ∷ cs) other a o = elim (Bool-cases (bytes_eq s l)) [
  | inl e ↦ rw (e) a.0
  | inr e ↦ rw (e) (IsRefusal-arms s cs other a.1 o)
]

IsRefusal-parse_body :
    {A : Type 0} (decode : Bytes → Option A) (b : Bytes) (k : A → Call)
    → max_body_bytes < length b
    → IsRefusal (parse_body decode (some b) k)
unfolding parse_body
IsRefusal-parse_body decode b k l =
    let long : ltb max_body_bytes (length b) ≡ true = ground arith in rw (long) tt

IsRefusal-if : (b : Bool) (c e : Call) → IsRefusal c → IsRefusal e → IsRefusal (if b then c else e)
IsRefusal-if true c e x y = x
IsRefusal-if false c e x y = y

IsRefusal-with_id :
    (prefix path : Bytes) (k : Bytes → Call)
    → ((id : Bytes) → IsRefusal (k id))
    → IsRefusal (with_id prefix path k)
unfolding with_id
IsRefusal-with_id prefix path k r =
    IsRefusal-if _ dropped (k (trim_start_matches prefix path)) tt (r _)

module _ (d : Decoders) (b : Bytes) (l : max_body_bytes < length b) where
  long :
      {A : Type 0} (decode : Bytes → Option A) (k : A → Call)
      → IsRefusal (parse_body decode (some b) k)
  long decode k = IsRefusal-parse_body decode b k l

  put_arms-refuse : All (λ c. IsRefusal c.1) (put_arms d (some b))
  unfolding put_arms
  put_arms-refuse = (
    long _ _,
    (
      long _ _,
      (
        long _ _,
        (
          long _ _,
          (
            long _ _,
            (
              long _ _,
              (
                long _ _,
                (
                  long _ _,
                  (
                    long _ _,
                    (long _ _, (long _ _, (long _ _, (long _ _, (long _ _, (long _ _, tt)))))),
                  ),
                ),
              ),
            ),
          ),
        ),
      ),
    ),
  )

  patch_arms-refuse : All (λ c. IsRefusal c.1) (patch_arms d (some b))
  unfolding patch_arms
  patch_arms-refuse = (
    long _ _,
    (
      long _ _,
      (long _ _, (long _ _, (long _ _, (long _ _, (long _ _, (long _ _, (long _ _, tt))))))),
    ),
  )

  put_drive_call-refuse : (path : Bytes) → IsRefusal (put_drive_call d path (some b))
  unfolding put_drive_call
  put_drive_call-refuse path = IsRefusal-with_id (codes "/drives/") path _ (λ id. long d.drive _)

  put_iface_call-refuse : (path : Bytes) → IsRefusal (put_iface_call d path (some b))
  unfolding put_iface_call
  put_iface_call-refuse path =
      IsRefusal-with_id (codes "/network-interfaces/") path _ (λ id. long d.iface _)

  put_pmem_call-refuse : (path : Bytes) → IsRefusal (put_pmem_call d path (some b))
  unfolding put_pmem_call
  put_pmem_call-refuse path = IsRefusal-with_id (codes "/pmem/") path _ (λ id. long d.value _)

  patch_drive_call-refuse : (path : Bytes) → IsRefusal (patch_drive_call d path (some b))
  unfolding patch_drive_call
  patch_drive_call-refuse path =
      IsRefusal-with_id (codes "/drives/") path _ (λ id. long d.drive_update _)

  patch_iface_call-refuse : (path : Bytes) → IsRefusal (patch_iface_call d path (some b))
  unfolding patch_iface_call
  patch_iface_call-refuse path =
      IsRefusal-with_id (codes "/network-interfaces/") path _ (λ id. long d.iface _)

  put_device_call-refuse : (path : Bytes) → IsRefusal (put_device_call d path (some b))
  unfolding put_device_call
  put_device_call-refuse path =
      IsRefusal-if (starts_with (codes "/drives/") path) (put_drive_call d path (some b)) _
        (put_drive_call-refuse path)
        (IsRefusal-if (starts_with (codes "/network-interfaces/") path)
          (put_iface_call d path (some b)) _ (put_iface_call-refuse path)
          (IsRefusal-if (starts_with (codes "/pmem/") path) (put_pmem_call d path (some b))
            not_found (put_pmem_call-refuse path) tt))

  patch_device_call-refuse : (path : Bytes) → IsRefusal (patch_device_call d path (some b))
  unfolding patch_device_call
  patch_device_call-refuse path =
      IsRefusal-if (starts_with (codes "/drives/") path) (patch_drive_call d path (some b)) _
        (patch_drive_call-refuse path)
        (IsRefusal-if (starts_with (codes "/network-interfaces/") path)
          (patch_iface_call d path (some b)) not_found (patch_iface_call-refuse path) tt)

  put_call-refuse : (path : Bytes) → IsRefusal (put_call d path (some b))
  unfolding put_call
  put_call-refuse path =
      IsRefusal-arms path (put_arms d (some b)) (put_device_call d path (some b)) put_arms-refuse
        (put_device_call-refuse path)

  patch_call-refuse : (path : Bytes) → IsRefusal (patch_call d path (some b))
  unfolding patch_call
  patch_call-refuse path =
      IsRefusal-arms path (patch_arms d (some b)) (patch_device_call d path (some b))
        patch_arms-refuse (patch_device_call-refuse path)

  dispatch-refuse :
      (method path : Bytes)
      → bytes_eq method (codes "GET") ≡ false
      → IsRefusal (dispatch d method path (some b))
  unfolding dispatch
  dispatch-refuse method path g = rw (g) (
      IsRefusal-if (bytes_eq method (codes "PUT")) (put_call d path (some b)) _
        (put_call-refuse path)
        (IsRefusal-if (bytes_eq method (codes "PATCH")) (patch_call d path (some b)) not_found
          (patch_call-refuse path) tt))

-- A refusal is an error of the client, and changes the metrics at most.
serve-refusal :
    (h after : Host) (m p : Bytes) (c : Call) (w : World)
    → IsRefusal c
    → let (r, w') = serve h after m p c w in (400 ≤ r.status) × (r.status ≤ 404) × OnlyMetrics w w'
unfolding serve perform to_response error_status is_dropped
serve-refusal h after m p unsupported w i =
    (omega arith, omega arith, observed-OnlyMetrics after m p 400 w)
serve-refusal h after m p refused w i =
    (omega arith, omega arith, observed-OnlyMetrics after m p 400 w)
serve-refusal h after m p dropped w i = (omega arith, omega arith, refl)
serve-refusal h after m p not_found w i =
    (omega arith, omega arith, observed-OnlyMetrics after m p 404 w)
serve-refusal h after m p (change r) w i = absurd i
serve-refusal h after m p read_info w i = absurd i
serve-refusal h after m p read_version w i = absurd i
serve-refusal h after m p read_machine_config w i = absurd i
serve-refusal h after m p read_mmds w i = absurd i
serve-refusal h after m p read_balloon w i = absurd i

-- A request other than a GET whose body is longer than 51200 bytes is answered with an error of the
-- client, a status from 400 to 404, whatever its path and whatever the body would decode to; it
-- changes nothing but the metrics.
pub route-too_long :
    (d : Decoders) (h after : Host) (m p b : Bytes) (w : World)
    → bytes_eq m (codes "GET") ≡ false
    → max_body_bytes < length b
    → let (r, w') = route d h after m p (some b) w in
      (400 ≤ r.status) × (r.status ≤ 404) × OnlyMetrics w w'
unfolding route
route-too_long d h after m p b w g l =
    serve-refusal h after m p (dispatch d m p (some b)) w (dispatch-refuse d b l m p g)

observed-state :
    (h : Host) (m p : Bytes) (s : ℕ) (w : World)
    → (handle h (observed m p s) w).1.backend.state ≡ w.backend.state
observed-state h m p s w = ap (λ (b : VzBackend). b.state) (observed-OnlyMetrics h m p s w)

to_response-failed :
    (r : Result VmmBackendError Done) → 400 ≤ (to_response r).status → is_ok r ≡ false
unfolding to_response
to_response-failed (ok t) s = absurd (omega arith)
to_response-failed (err e) s = refl

change-state :
    (h after : Host) (m p : Bytes) (r : Request) (w : World)
    → IsValid w.backend
    → 400 ≤ (serve h after m p (change r) w).0.status
    → (serve h after m p (change r) w).1.backend.state ≡ w.backend.state
unfolding serve perform is_dropped
change-state h after m p r w v s =
    let (res, w') = handle h r w in
    let failed = to_response-failed res s in
    let kept : w'.backend.state ≡ w.backend.state = rw (handle-state h r w v, failed) refl in
    observed-state after m p (to_response res).status w' ∙ kept

-- A valid backend under a request that is answered with an error, of the client or of the server,
-- does not change its state: no VM is started, paused or resumed by it.
pub route-failed :
    (d : Decoders) (h after : Host) (m p : Bytes) (b : Option Bytes) (w : World)
    → IsValid w.backend
    → 400 ≤ (route d h after m p b w).0.status
    → (route d h after m p b w).1.backend.state ≡ w.backend.state
unfolding route serve perform is_dropped
route-failed d h after m p b w v s = serve_state (dispatch d m p b) s
  where
    serve_state :
        (c : Call)
        → 400 ≤ (serve h after m p c w).0.status
        → (serve h after m p c w).1.backend.state ≡ w.backend.state
    serve_state (change r) s = change-state h after m p r w v s
    serve_state read_info s = observed-state after m p _ w
    serve_state read_version s = observed-state after m p _ w
    serve_state read_machine_config s = observed-state after m p _ w
    serve_state read_mmds s = observed-state after m p _ w
    serve_state read_balloon s = observed-state after m p _ w
    serve_state unsupported s = observed-state after m p _ w
    serve_state refused s = observed-state after m p _ w
    serve_state dropped s = refl
    serve_state not_found s = observed-state after m p _ w
