-- ===== src/Backend/Devices.antt =====
-- Boot source, drives and the network interface: `configure_boot_source`, `insert_block_device`,
-- `update_block_device`, `insert_network_device`, and what a VM is built from.
use hephaestus.Base.{
  ℕ, Bool, true, false, Option, none, some, if◌then◌else◌, List, [], ◌∷◌, ◌++◌, map, unwrap_or,
}
use hephaestus.Base.Text.{Bytes, bytes_eq}
use hephaestus.Config.{
  BootSourceConfig, BlockDeviceConfig, BlockDeviceUpdateConfig, NetworkInterfaceConfig,
}
use hephaestus.Config.Mac.{to_string}
use hephaestus.Backend.{
  invalid_config, ExtraDrive, VzBackend, VzNetworkMode, no_network, VzSpec, Host, Action, Done,
  ◌>>=◌, ◌>>◌, done, require, from_some, modify, require_preboot,
}

unfoldable pub configure_boot_source : Host → BootSourceConfig → Action Done
unfolding require_preboot
configure_boot_source h cfg = do
  require_preboot
  require (h.path_exists cfg.kernel_image_path) invalid_config
  modify (λ b. record b { boot_source = some cfg })

-- `iter().any` and `iter_mut().find`: the first drive of that id.
unfoldable pub has_drive : Bytes → List ExtraDrive → Bool
has_drive id [] = false
has_drive id (d ∷ ds) = if bytes_eq d.id id then true else has_drive id ds

unfoldable pub update_drive : Bytes → (ExtraDrive → ExtraDrive) → List ExtraDrive → List ExtraDrive
update_drive id f [] = []
update_drive id f (d ∷ ds) = if bytes_eq d.id id then f d ∷ ds else d ∷ update_drive id f ds

unfoldable pub put_drive : ExtraDrive → List ExtraDrive → List ExtraDrive
unfolding has_drive update_drive
put_drive new ds =
    if has_drive new.id ds
    then update_drive new.id (λ d. record d { path = new.path; read_only = new.read_only }) ds
    else ds ++ new ∷ []

store_drive : BlockDeviceConfig → Bytes → VzBackend → VzBackend
store_drive cfg path b =
    let read_only = unwrap_or cfg.is_read_only false in
    if cfg.is_root_device
    then record b { root_drive = some path; root_drive_read_only = read_only }
    else record b {
      extra_drives =
          put_drive (record { id = cfg.drive_id; path = path; read_only = read_only })
            b.extra_drives;
    }

unfoldable pub insert_block_device : Host → BlockDeviceConfig → Action Done
unfolding require_preboot store_drive
insert_block_device h cfg = do
  require_preboot
  path ← from_some cfg.path_on_host invalid_config
  require (h.path_exists path) invalid_config
  modify (store_drive cfg path)

move_drive : Bytes → Bytes → VzBackend → VzBackend
move_drive id path b =
    if has_drive id b.extra_drives
    then record b { extra_drives = update_drive id (λ d. record d { path = path }) b.extra_drives }
    else record b { root_drive = some path }

patch_path : Host → Bytes → Option Bytes → Action Done
unfolding move_drive
patch_path h id none = done
patch_path h id (some path) = do
  require (h.path_exists path) invalid_config
  modify (move_drive id path)

unfoldable pub update_block_device : Host → BlockDeviceUpdateConfig → Action Done
unfolding require_preboot patch_path
update_block_device h cfg = do require_preboot; patch_path h cfg.drive_id cfg.path_on_host

unfoldable pub insert_network_device : NetworkInterfaceConfig → Action Done
unfolding require_preboot
insert_network_device cfg = do require_preboot; modify (λ b. record b { iface = some cfg })

unfoldable pub configured_network_mode : VzBackend → VzNetworkMode
configured_network_mode b = elim b.iface [ none ↦ no_network | some _ ↦ b.network_mode ]

unfoldable pub configured_mac : VzBackend → Option Bytes
configured_mac b = elim b.iface [
  | none ↦ none
  | some i ↦ elim i.guest_mac [ none ↦ none | some m ↦ some (to_string m) ]
]

unfoldable pub extra_drive_specs : VzBackend → List (Bytes × Bool)
extra_drive_specs b = map (λ d. (d.path, d.read_only)) b.extra_drives

unfoldable pub long_run_spec :
    VzBackend → (kernel rootfs log boot_args : Bytes) → (cpu memory : ℕ) → Option Bytes → VzSpec
unfolding configured_network_mode configured_mac extra_drive_specs
long_run_spec b kernel rootfs log boot_args cpu memory initrd = record {
  kernel_path = kernel;
  rootfs_path = rootfs;
  initrd_path = initrd;
  log_path = log;
  boot_args = boot_args;
  cpus = cpu;
  memory_mib = memory;
  read_only = b.root_drive_read_only;
  network_mode = configured_network_mode b;
  host_packet_interface = b.host_mmds;
  mac = configured_mac b;
  extra_drives = extra_drive_specs b;
}
