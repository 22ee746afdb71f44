-- ===== src/Backend/Machine.antt =====
-- `put_machine_config` and `patch_machine_config`.
use hephaestus.Base.{not, Option, none, some, ◌==◌, leb, is_none}
use hephaestus.Config.{MachineConfig, MachineConfigUpdate, max_supported_vcpus, is_empty}
use hephaestus.Backend.{
  invalid_config, not_supported, Action, Done, ◌>>=◌, ◌>>◌, get, require, modify, require_preboot,
}

unfoldable pub put_machine_config : MachineConfig → Action Done
unfolding require_preboot
put_machine_config cfg = do
  require_preboot
  require (not (cfg.vcpu_count == 0)) invalid_config
  require (leb cfg.vcpu_count max_supported_vcpus) invalid_config
  require (not (cfg.mem_size_mib == 0)) invalid_config
  require (is_none cfg.cpu_template) not_supported
  modify (λ b. record b { machine_config = cfg })

or_keep : {A : Type 0} → Option A → A → A
or_keep none old = old
or_keep (some new) old = new

unfoldable pub apply_update : MachineConfigUpdate → MachineConfig → MachineConfig
unfolding or_keep
apply_update u cfg = record cfg {
  vcpu_count = or_keep u.vcpu_count cfg.vcpu_count;
  mem_size_mib = or_keep u.mem_size_mib cfg.mem_size_mib;
  smt = or_keep u.smt cfg.smt;
  track_dirty_pages = or_keep u.track_dirty_pages cfg.track_dirty_pages;
  huge_pages = or_keep u.huge_pages cfg.huge_pages;
}

unfoldable pub patch_machine_config : MachineConfigUpdate → Action Done
unfolding require_preboot put_machine_config apply_update is_empty
patch_machine_config update = do
  require_preboot
  require (not (is_empty update)) invalid_config
  w ← get
  require (is_none update.cpu_template) not_supported
  put_machine_config (apply_update update w.backend.machine_config)
