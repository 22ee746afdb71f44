-- ===== src/Backend/Config.antt =====
-- What the configuration requests store.
use hephaestus.Base.{
  ◌≤◌, ◌≡◌, ◌↔◌, ◌⊎◌, refl, true, false, Bool, Option, none, some, arith, List, [], ◌∷◌, ◌++◌,
  if◌then◌else◌, unwrap_or, Bool-cases, inl, inr,
}
use hephaestus.Base.Text.{Bytes, bytes_eq, bytes_eq_iff}
use hephaestus.Base.Checked.{ok, err, Result-cases}
use hephaestus.Config.{
  not_started, MachineConfig, MachineConfigUpdate, BlockDeviceConfig, max_supported_vcpus,
}
use hephaestus.Backend.{Host, World, VmmBackendError, ExtraDrive}
use hephaestus.Backend.Machine.{put_machine_config, patch_machine_config, apply_update}
use hephaestus.Backend.Devices.{has_drive, update_drive, put_drive, insert_block_device}

-- Before the boot a machine configuration is taken exactly when it has one to 32 vCPUs, some memory
-- and no CPU template; it is then stored as it is, and nothing else changes.
pub put_machine_config_iff :
    (c : MachineConfig) (w : World)
    → w.backend.state ≡ not_started
    → (put_machine_config c w
        ≡ (ok tt, record w { backend = record w.backend { machine_config = c } }))
      ↔ ((1 ≤ c.vcpu_count)
          × (c.vcpu_count ≤ max_supported_vcpus)
          × (1 ≤ c.mem_size_mib)
          × (c.cpu_template ≡ none))
unfolding put_machine_config
put_machine_config_iff c w s = (λ e. ground arith, λ f. ground arith)

-- A patch either fails and changes nothing, or succeeds and stores the patched configuration whole;
-- it succeeds only before the boot.
pub patch_machine_config-atomic :
    (u : MachineConfigUpdate) (w : World)
    → ((x : VmmBackendError) × (patch_machine_config u w ≡ (err x, w)))
      ⊎ ((w.backend.state ≡ not_started)
          × (patch_machine_config u w ≡ (
            ok tt,
            record w {
              backend = record w.backend {
                machine_config = apply_update u w.backend.machine_config;
              };
            },
          )))
unfolding patch_machine_config put_machine_config
patch_machine_config-atomic u w = elim (Result-cases (patch_machine_config u w).0) [
  | inl (t, e) ↦ inr (ground arith, ground arith)
  | inr (x, e) ↦ inl (x, ground arith)
]

-- The path and mode under which a drive's id is attached.
pub find_drive : Bytes → List ExtraDrive → Option (Bytes × Bool)
find_drive id [] = none
find_drive id (d ∷ ds) = if bytes_eq d.id id then some (d.path, d.read_only) else find_drive id ds

find_drive-update_drive :
    (id k p : Bytes) (ro : Bool) (ds : List ExtraDrive)
    → has_drive id ds ≡ true
    → find_drive k (update_drive id (λ d. record d { path = p; read_only = ro }) ds)
      ≡ (if bytes_eq id k then some (p, ro) else find_drive k ds)
unfolding find_drive update_drive has_drive
find_drive-update_drive id k p ro [] h = cc
find_drive-update_drive id k p ro (d ∷ ds) h = ground (
  arith,
  bytes_eq_iff d.id id,
  bytes_eq_iff d.id k,
  bytes_eq_iff id k,
  find_drive-update_drive id k p ro ds,
)

find_drive-append :
    (k : Bytes) (new : ExtraDrive) (ds : List ExtraDrive)
    → has_drive new.id ds ≡ false
    → find_drive k (ds ++ new ∷ [])
      ≡ (if bytes_eq new.id k then some (new.path, new.read_only) else find_drive k ds)
unfolding find_drive has_drive
find_drive-append k new [] h = refl
find_drive-append k new (d ∷ ds) h = ground (
  arith,
  bytes_eq_iff d.id new.id,
  bytes_eq_iff d.id k,
  bytes_eq_iff new.id k,
  find_drive-append k new ds,
)

find_drive-put_drive :
    (k : Bytes) (new : ExtraDrive) (ds : List ExtraDrive)
    → find_drive k (put_drive new ds)
      ≡ (if bytes_eq new.id k then some (new.path, new.read_only) else find_drive k ds)
unfolding put_drive
find_drive-put_drive k new ds = elim (Bool-cases (has_drive new.id ds)) [
  | inl e ↦ rw (e, put_drive) (find_drive-update_drive new.id k new.path new.read_only ds e)
  | inr e ↦ rw (e, put_drive) (find_drive-append k new ds e)
]

-- A secondary drive whose path exists and that is put before the boot succeeds: it stands under its
-- id, new or not, with its path and its mode, writable unless it says otherwise; every other id
-- stands for what it stood for, and the root drive stays.
pub insert_block_device-secondary :
    (h : Host) (c : BlockDeviceConfig) (path k : Bytes) (w : World)
    → w.backend.state ≡ not_started
    → c.is_root_device ≡ false
    → c.path_on_host ≡ some path
    → h.path_exists path ≡ true
    → let w' = (insert_block_device h c w).1 in
      ((insert_block_device h c w).0 ≡ ok tt)
      × (find_drive k w'.backend.extra_drives ≡ (
          if bytes_eq c.drive_id k
          then some (path, unwrap_or c.is_read_only false)
          else find_drive k w.backend.extra_drives))
      × (w'.backend.root_drive ≡ w.backend.root_drive)
unfolding insert_block_device
insert_block_device-secondary h c path k w s r p e = (
  ground arith,
  ground (
    arith,
    find_drive-put_drive k
        (record { id = c.drive_id; path = path; read_only = unwrap_or c.is_read_only false })
        w.backend.extra_drives,
  ),
  ground arith,
)
