-- ===== src/Config.antt =====
-- The configuration types of src/hephaestus-fc-api/src/vmm_config, which the requests carry.
-- Rate limiters, cache types, the I/O engine and vhost-user sockets are accepted and never read by
-- the backend; their fields are left out.
pub mod Mac
mod Examples
use hephaestus.Base.{ℕ, Bool, true, false, Option, none, some, List, [], ◌&&◌, is_none}
use hephaestus.Base.Text.{Bytes, codes}
use hephaestus.Json.{Value}
use Mac.{MacAddr}

pub data VmState : Type 0 where
  not_started paused running : VmState

pub record BootSourceConfig : Type 0 where
  pub kernel_image_path : Bytes
  pub initrd_path : Option Bytes
  pub boot_args : Option Bytes

abbrev pub default_kernel_cmdline : Bytes
default_kernel_cmdline =
    codes
      "reboot=k panic=1 nomodule 8250.nr_uarts=0 i8042.noaux i8042.nomux i8042.dumbkbd swiotlb=noforce"

pub record BlockDeviceConfig : Type 0 where
  pub drive_id : Bytes
  pub is_root_device : Bool
  pub is_read_only : Option Bool
  pub path_on_host : Option Bytes

pub record BlockDeviceUpdateConfig : Type 0 where
  pub drive_id : Bytes
  pub path_on_host : Option Bytes

pub record NetworkInterfaceConfig : Type 0 where
  pub iface_id : Bytes
  pub host_dev_name : Bytes
  pub guest_mac : Option MacAddr

pub data HugePageConfig : Type 0 where
  no_huge_pages hugetlbfs_2m : HugePageConfig

pub record MachineConfig : Type 0 where
  pub vcpu_count : ℕ
  pub mem_size_mib : ℕ
  pub smt : Bool
  pub cpu_template : Option Value
  pub track_dirty_pages : Bool
  pub huge_pages : HugePageConfig

abbrev pub default_mem_size_mib : ℕ
default_mem_size_mib = 128

abbrev pub max_supported_vcpus : ℕ
max_supported_vcpus = 32

unfoldable pub default_machine_config : MachineConfig
default_machine_config = record {
  vcpu_count = 1;
  mem_size_mib = default_mem_size_mib;
  smt = false;
  cpu_template = none;
  track_dirty_pages = false;
  huge_pages = no_huge_pages;
}

pub record MachineConfigUpdate : Type 0 where
  pub vcpu_count : Option ℕ
  pub mem_size_mib : Option ℕ
  pub smt : Option Bool
  pub cpu_template : Option Value
  pub track_dirty_pages : Option Bool
  pub huge_pages : Option HugePageConfig

unfoldable pub is_empty : MachineConfigUpdate → Bool
is_empty u =
    is_none u.vcpu_count
    && (is_none u.mem_size_mib
        && (is_none u.smt
            && (is_none u.cpu_template && (is_none u.track_dirty_pages && is_none u.huge_pages))))

pub data MmdsVersion : Type 0 where
  v1 v2 : MmdsVersion

pub record MmdsConfig : Type 0 where
  pub ipv4_address : Option Bytes
  pub network_interfaces : List Bytes
  pub version : Option MmdsVersion

unfoldable pub default_mmds_config : MmdsConfig
default_mmds_config = record { ipv4_address = none; network_interfaces = []; version = some v1 }

pub record BalloonDeviceConfig : Type 0 where
  pub amount_mib : ℕ
  pub deflate_on_oom : Bool
  pub stats_polling_interval_s : ℕ

pub record BalloonUpdateConfig : Type 0 where
  pub amount_mib : ℕ

pub data SnapshotType : Type 0 where
  diff full : SnapshotType

pub data MemBackendType : Type 0 where
  file uffd : MemBackendType

pub record CreateSnapshotParams : Type 0 where
  pub snapshot_path : Bytes
  pub mem_file_path : Bytes
  pub snapshot_type : SnapshotType

pub record MemBackendConfig : Type 0 where
  pub backend_path : Bytes
  pub backend_type : MemBackendType

pub record LoadSnapshotConfig : Type 0 where
  pub snapshot_path : Bytes
  pub mem_file_path : Option Bytes
  pub mem_backend : Option MemBackendConfig
  pub enable_diff_snapshots : Bool
  pub track_dirty_pages : Bool
  pub resume_vm : Bool

pub record VsockConfig : Type 0 where
  pub guest_cid : ℕ
  pub uds_path : Bytes
  pub vsock_id : Option Bytes

pub record LoggerConfig : Type 0 where
  pub log_path : Option Bytes
  pub level : Option Bytes
  pub show_level : Option Bool
  pub show_log_origin : Option Bool
  pub module_name : Option Bytes

pub record MetricsConfig : Type 0 where
  pub metrics_path : Bytes
