-- ===== src/Backend/Balloon.antt =====
-- The memory balloon: `configure_balloon`, `update_balloon`, `get_balloon`, and the target that is
-- pushed to a live VM.
use hephaestus.Base.{
  ℕ, ◌-◌, ◌*◌, ◌%◌, ◌^◌, Bool, true, false, not, Option, none, some, if◌then◌else◌, ◌==◌, leb,
}
use hephaestus.Config.{
  VmState, not_started, paused, running, BalloonDeviceConfig, BalloonUpdateConfig,
}
use hephaestus.Base.Checked.{Result, ok, err}
use hephaestus.Backend.{
  VmmBackendError, invalid_config, invalid_state, not_supported, internal, balloon_target, Host,
  World, Action, Done, ◌>>=◌, ◌>>◌, done, get, require, from_some, modify, emit, attempt,
  require_preboot,
}

unfoldable pub validate_balloon_amount : ℕ → Action Done
validate_balloon_amount amount w =
    require (not (leb w.backend.machine_config.mem_size_mib amount)) invalid_config w

-- The validation at boot, if a balloon is configured.
unfoldable pub validate_balloon : Option BalloonDeviceConfig → Action Done
unfolding validate_balloon_amount
validate_balloon none = done
validate_balloon (some cfg) = validate_balloon_amount cfg.amount_mib

-- The target in bytes is computed in u64.
unfoldable pub target_bytes : ℕ → ℕ → ℕ
target_bytes mem amount = (mem - amount) * 1024 * 1024 % 2 ^ 64

push_target : Host → ℕ → ℕ → Action Done
push_target h vm bytes = do require (h.sets_balloon bytes) internal; emit (balloon_target vm bytes)

unfoldable pub apply_balloon_target : Host → Action Done
unfolding push_target target_bytes
apply_balloon_target h w = elim w.backend.balloon [
  | none ↦ done w
  | some cfg ↦ elim w.backend.vm [
    | none ↦ done w
    | some vm ↦
        push_target h vm (target_bytes w.backend.machine_config.mem_size_mib cfg.amount_mib) w
  ]
]

-- A failure does not fail the boot.
unfoldable pub apply_initial_balloon : Host → Action Done
unfolding apply_balloon_target
apply_initial_balloon h w = elim w.backend.balloon [
  | none ↦ done w
  | some cfg ↦ (attempt (apply_balloon_target h) >>= λ _. done) w
]

unfoldable pub configure_balloon : BalloonDeviceConfig → Action Done
unfolding require_preboot
configure_balloon cfg = do
  require_preboot
  require (cfg.stats_polling_interval_s == 0) not_supported
  modify (λ b. record b { balloon = some cfg })

unfoldable pub is_live : VmState → Bool
is_live running = true
is_live paused = true
is_live not_started = false

when_live : VmState → Action Done → Action Done
unfolding is_live
when_live s m = if is_live s then m else done

unfoldable pub update_balloon : Host → BalloonUpdateConfig → Action Done
unfolding when_live validate_balloon_amount apply_balloon_target
update_balloon h cfg = do
  w ← get
  old ← from_some w.backend.balloon invalid_state
  when_live w.backend.state (validate_balloon_amount cfg.amount_mib)
  modify (λ b. record b { balloon = some (record old { amount_mib = cfg.amount_mib }) })
  when_live w.backend.state (apply_balloon_target h)

pub get_balloon : World → Result VmmBackendError BalloonDeviceConfig
get_balloon w = elim w.backend.balloon [ none ↦ err not_supported | some cfg ↦ ok cfg ]
