-- ===== src/Backend/Metadata.antt =====
-- The metadata document and its transports: `put_mmds`, `patch_mmds`, `configure_mmds`,
-- `configure_vsock`, the vsock service, the vmnet responder and the vsock bridge.
use hephaestus.Base.{ℕ, Bool, true, false, not, Option, none, some, if◌then◌else◌, leb, [], ◌∷◌}
use hephaestus.Base.Text.{Bytes}
use hephaestus.Json.{Value, merge_json}
use hephaestus.Config.{MmdsConfig, VsockConfig}
use hephaestus.Backend.{
  invalid_config, internal, VzNetworkMode, vmnet, served_mmds, Host, Action, Done, ◌>>=◌, ◌>>◌,
  done, get, require, from_some, modify, emit, attempt, require_preboot,
}
use hephaestus.Backend.Devices.{configured_network_mode}
use hephaestus.Backend.Ipv4.{is_link_local}

serve : Host → ℕ → Action Done
serve h vm = do
  w ← get
  json ← from_some (h.to_vec w.backend.mmds) internal
  require (h.serves json) internal
  emit (served_mmds vm json)

unfoldable pub refresh_mmds_vsock_service : Host → Action Done
unfolding serve
refresh_mmds_vsock_service h w = elim w.backend.vm [ none ↦ done w | some vm ↦ serve h vm w ]

-- The document is stored, then copied to the responder's, then served.
share : Host → Action Done
share h = do require (not h.lock_poisoned) internal; modify (λ b. record b { mmds_shared = b.mmds })

unfoldable pub put_mmds : Host → Value → Action Done
unfolding share refresh_mmds_vsock_service
put_mmds h value = do modify (λ b. record b { mmds = value }); share h; refresh_mmds_vsock_service h

unfoldable pub patch_mmds : Host → Value → Action Done
unfolding share refresh_mmds_vsock_service
patch_mmds h value = do
  modify (λ b. record b { mmds = merge_json b.mmds value })
  share h
  refresh_mmds_vsock_service h

check_address : Option Bytes → Action Done
check_address none = done
check_address (some addr) = require (is_link_local addr) invalid_config

unfoldable pub configure_mmds : MmdsConfig → Action Done
unfolding require_preboot check_address
configure_mmds cfg = do
  require_preboot
  check_address cfg.ipv4_address
  modify (λ b. record b { mmds_config = cfg })

is_nil : Bytes → Bool
is_nil [] = true
is_nil (c ∷ s) = false

unfoldable pub configure_vsock : VsockConfig → Action Done
unfolding require_preboot is_nil
configure_vsock cfg = do
  require_preboot
  require (leb 3 cfg.guest_cid) invalid_config
  require (not (is_nil cfg.uds_path)) invalid_config
  modify (λ b. record b { vsock = some cfg })

unfoldable pub is_vmnet : VzNetworkMode → Bool
is_vmnet vmnet = true
is_vmnet _ = false

unfoldable pub start_vmnet_mmds : Host → Action Done
unfolding is_vmnet
start_vmnet_mmds h w =
    if w.backend.host_mmds
    then (do
      require (is_vmnet (configured_network_mode w.backend)) invalid_config
      require h.responder_starts internal
      modify (λ b. record b { vmnet_mmds = true }))
        w
    else done w

bind_bridge : Host → VsockConfig → Action Done
bind_bridge h cfg = do
  refresh_mmds_vsock_service h
  w ← get
  vm ← from_some w.backend.vm internal
  require (h.binds cfg.uds_path) invalid_config
  modify (λ b. record b { vsock_bridge = some cfg.uds_path })

unfoldable pub start_vsock_bridge : Host → Action Done
unfolding bind_bridge refresh_mmds_vsock_service
start_vsock_bridge h w = elim w.backend.vsock [
  | none ↦ (attempt (refresh_mmds_vsock_service h) >>= λ _. done) w
  | some cfg ↦ bind_bridge h cfg w
]
