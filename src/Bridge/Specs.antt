-- ===== src/Bridge/Specs.antt =====
-- `Spec`, `VzSpec` and their builders, and `allocate_ip_octet`.
use Prim.Native.Nat.{bit_xor}
use hephaestus.Base.{
  ℕ, ◌+◌, ◌*◌, ◌%◌, ◌^◌, Bool, false, Option, none, some, if◌then◌else◌, List, [], ◌∷◌,
}
use hephaestus.Base.Text.{Bytes}
use hephaestus.Bridge.{VzNetworkMode, no_network, nat}

pub record Spec : Type 0 where
  pub id : Bytes
  pub kernel_path : Bytes
  pub initfs_path : Bytes
  pub rootfs_path : Bytes
  pub cpus : ℕ
  pub memory_mib : ℕ
  pub argv : List Bytes
  pub cwd : Option Bytes
  pub networking : Bool
  pub ip_octet : Option ℕ
  pub tty : Bool

unfoldable pub new_spec : (id kernel initfs rootfs : Bytes) → Spec
new_spec id kernel initfs rootfs = record {
  id = id;
  kernel_path = kernel;
  initfs_path = initfs;
  rootfs_path = rootfs;
  cpus = 0;
  memory_mib = 0;
  argv = [];
  cwd = none;
  networking = false;
  ip_octet = none;
  tty = false;
}

unfoldable pub with_argv : List Bytes → Spec → Spec
with_argv words s = record s { argv = words }

unfoldable pub with_cwd : Bytes → Spec → Spec
with_cwd dir s = record s { cwd = some dir }

unfoldable pub with_cpus : ℕ → Spec → Spec
with_cpus n s = record s { cpus = n }

unfoldable pub with_memory_mib : ℕ → Spec → Spec
with_memory_mib n s = record s { memory_mib = n }

unfoldable pub with_networking : Bool → Spec → Spec
with_networking enabled s = record s { networking = enabled }

unfoldable pub with_ip_octet : ℕ → Spec → Spec
with_ip_octet octet s = record s { ip_octet = some octet }

unfoldable pub with_tty : Bool → Spec → Spec
with_tty enabled s = record s { tty = enabled }

pub record VzSpec : Type 0 where
  pub kernel_path : Bytes
  pub rootfs_path : Bytes
  pub initrd_path : Option Bytes
  pub log_path : Bytes
  pub boot_args : Bytes
  pub cpus : ℕ
  pub memory_mib : ℕ
  pub read_only : Bool
  pub network_mode : VzNetworkMode
  pub host_packet_interface : Bool
  pub mac : Option Bytes
  pub extra_drives : List (Bytes × Bool)

unfoldable pub new_vz_spec : (kernel rootfs log boot_args : Bytes) → VzSpec
new_vz_spec kernel rootfs log boot_args = record {
  kernel_path = kernel;
  rootfs_path = rootfs;
  initrd_path = none;
  log_path = log;
  boot_args = boot_args;
  cpus = 0;
  memory_mib = 0;
  read_only = false;
  network_mode = no_network;
  host_packet_interface = false;
  mac = none;
  extra_drives = [];
}

unfoldable pub with_initrd : Bytes → VzSpec → VzSpec
with_initrd path s = record s { initrd_path = some path }

unfoldable pub with_nat : Bool → VzSpec → VzSpec
with_nat enabled s = record s { network_mode = if enabled then nat else no_network }

unfoldable pub with_read_only : Bool → VzSpec → VzSpec
with_read_only read_only s = record s { read_only = read_only }

unfoldable pub with_network_mode : VzNetworkMode → VzSpec → VzSpec
with_network_mode mode s = record s { network_mode = mode }

unfoldable pub with_host_packet_interface : Bool → VzSpec → VzSpec
with_host_packet_interface on s = record s { host_packet_interface = on }

unfoldable pub with_mac : Option Bytes → VzSpec → VzSpec
with_mac mac s = record s { mac = mac }

unfoldable pub with_extra_drives : List (Bytes × Bool) → VzSpec → VzSpec
with_extra_drives drives s = record s { extra_drives = drives }

unfoldable pub with_vcpus : ℕ → VzSpec → VzSpec
with_vcpus n s = record s { cpus = n }

unfoldable pub with_memory : ℕ → VzSpec → VzSpec
with_memory n s = record s { memory_mib = n }

-- The FNV-1a hash, 32 bits wide.
unfoldable pub fnv : ℕ → Bytes → ℕ
fnv h [] = h
fnv h (b ∷ s) = fnv (bit_xor h b * 16777619 % 2 ^ 32) s

-- The cast to eight bits keeps the remainder, which is below 253; the sum is one of eight bits.
unfoldable pub allocate_ip_octet : Bytes → ℕ
unfolding fnv
allocate_ip_octet id = fnv 2166136261 id % 253 % 256 + 2
