-- ===== src/Backend/Counters.antt =====
-- `ApiCounters::record`: which counter a served request bumps.
use hephaestus.Base.{ℕ, Option, none, some, if◌then◌else◌, saturating_add, max_u64, List, [], ◌∷◌}
use hephaestus.Base.Text.{Bytes, codes, bytes_eq, starts_with}
use hephaestus.Backend.{ApiCounters}

-- The counters, by the names of their fields.
pub data Counter : Type 0 where
  instance_info machine_cfg_get mmds_get vmm_version : Counter
  actions boot_source drive_put logger machine_cfg_put metrics mmds_put net_put : Counter
  snapshot_create snapshot_load : Counter
  drive_patch machine_cfg_patch mmds_patch net_patch vm_patch : Counter

-- A `match` of a text: the first arm whose literal it is.
abbrev arms : {A : Type 0} → Bytes → List (Bytes × A) → Option A → Option A
arms s [] other = other
arms s ((literal, a) ∷ rest) other = if bytes_eq s literal then some a else arms s rest other

get_counter : Bytes → Option Counter
get_counter path =
    arms path
      ((codes "/", instance_info)
        ∷ (codes "/machine-config", machine_cfg_get)
        ∷ (codes "/version", vmm_version)
        ∷ (codes "/mmds", mmds_get)
        ∷ [])
      none

put_counter : Bytes → Option Counter
put_counter path =
    arms path
      ((codes "/actions", actions)
        ∷ (codes "/boot-source", boot_source)
        ∷ (codes "/logger", logger)
        ∷ (codes "/machine-config", machine_cfg_put)
        ∷ (codes "/metrics", metrics)
        ∷ (codes "/snapshot/create", snapshot_create)
        ∷ (codes "/snapshot/load", snapshot_load)
        ∷ (codes "/mmds", mmds_put)
        ∷ (codes "/mmds/config", mmds_put)
        ∷ [])
      (if starts_with (codes "/drives/") path
        then some drive_put
        else if starts_with (codes "/network-interfaces/") path
        then some net_put
        else none)

patch_counter : Bytes → Option Counter
patch_counter path =
    arms path
      ((codes "/machine-config", machine_cfg_patch)
        ∷ (codes "/vm", vm_patch)
        ∷ (codes "/mmds", mmds_patch)
        ∷ [])
      (if starts_with (codes "/drives/") path
        then some drive_patch
        else if starts_with (codes "/network-interfaces/") path
        then some net_patch
        else none)

unfoldable pub endpoint : Bytes → Bytes → Option Counter
unfolding get_counter put_counter patch_counter
endpoint method path =
    if bytes_eq method (codes "GET")
    then get_counter path
    else if bytes_eq method (codes "PUT")
    then put_counter path
    else if bytes_eq method (codes "PATCH")
    then patch_counter path
    else none

abbrev bump : ℕ → ℕ
bump c = saturating_add max_u64 c 1

unfoldable pub bump_counter : Counter → ApiCounters → ApiCounters
bump_counter instance_info c = record c { instance_info = bump c.instance_info }
bump_counter machine_cfg_get c = record c { machine_cfg_get = bump c.machine_cfg_get }
bump_counter mmds_get c = record c { mmds_get = bump c.mmds_get }
bump_counter vmm_version c = record c { vmm_version = bump c.vmm_version }
bump_counter actions c = record c { actions = bump c.actions }
bump_counter boot_source c = record c { boot_source = bump c.boot_source }
bump_counter drive_put c = record c { drive_put = bump c.drive_put }
bump_counter logger c = record c { logger = bump c.logger }
bump_counter machine_cfg_put c = record c { machine_cfg_put = bump c.machine_cfg_put }
bump_counter metrics c = record c { metrics = bump c.metrics }
bump_counter mmds_put c = record c { mmds_put = bump c.mmds_put }
bump_counter net_put c = record c { net_put = bump c.net_put }
bump_counter snapshot_create c = record c { snapshot_create = bump c.snapshot_create }
bump_counter snapshot_load c = record c { snapshot_load = bump c.snapshot_load }
bump_counter drive_patch c = record c { drive_patch = bump c.drive_patch }
bump_counter machine_cfg_patch c = record c { machine_cfg_patch = bump c.machine_cfg_patch }
bump_counter mmds_patch c = record c { mmds_patch = bump c.mmds_patch }
bump_counter net_patch c = record c { net_patch = bump c.net_patch }
bump_counter vm_patch c = record c { vm_patch = bump c.vm_patch }

unfoldable pub record_request : Bytes → Bytes → ApiCounters → ApiCounters
unfolding endpoint bump_counter
record_request method path c = elim (endpoint method path) [ none ↦ c | some k ↦ bump_counter k c ]

-- The counter of an endpoint.
pub count : Counter → ApiCounters → ℕ
count instance_info c = c.instance_info
count machine_cfg_get c = c.machine_cfg_get
count mmds_get c = c.mmds_get
count vmm_version c = c.vmm_version
count actions c = c.actions
count boot_source c = c.boot_source
count drive_put c = c.drive_put
count logger c = c.logger
count machine_cfg_put c = c.machine_cfg_put
count metrics c = c.metrics
count mmds_put c = c.mmds_put
count net_put c = c.net_put
count snapshot_create c = c.snapshot_create
count snapshot_load c = c.snapshot_load
count drive_patch c = c.drive_patch
count machine_cfg_patch c = c.machine_cfg_patch
count mmds_patch c = c.mmds_patch
count net_patch c = c.net_patch
count vm_patch c = c.vm_patch
