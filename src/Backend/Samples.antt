-- ===== src/Backend/Samples.antt =====
-- Concrete hosts, configurations and backends, for the runs on small inputs.
use hephaestus.Base.{◌≡◌, inl, inr, refl, true, false, none, some, arith, []}
use hephaestus.Base.Text.{codes}
use hephaestus.Config.{
  VmState, paused, running, BootSourceConfig, BlockDeviceConfig, MachineConfig, BalloonDeviceConfig,
  default_machine_config,
}
use hephaestus.Pool.{copied, Disk}
use hephaestus.Backend.{RunOrigin, Host, World, new}
use hephaestus.Backend.Valid.{IsValid, IsConfigured}
use hephaestus.Backend.Balloon.{is_live}

abbrev pub host : Host
host = record {
  path_exists = λ _. true;
  opens = λ _. true;
  resolve = λ _. none;
  work_dir = codes "/tmp";
  lock_poisoned = false;
  to_vec = λ _. some (codes "{}");
  serves = λ _. true;
  saves = λ _. true;
  pauses = true;
  resumes = true;
  stops = true;
  sets_balloon = λ _. true;
  builds = λ _. some 7;
  starts = true;
  restores = λ _ _ _. some 7;
  responder_starts = true;
  binds = λ _. true;
  slots = record {
    lock_opens = λ _. true;
    lock_errno = λ _. none;
    copy = copied;
    exec_restore = some 0;
    long_restore = some 7;
  };
}

abbrev pub free : Disk
free = record { locked = λ _. false; has_rootfs = λ _. false }

abbrev pub boot : BootSourceConfig
boot = record { kernel_image_path = codes "/k"; initrd_path = none; boot_args = none }

abbrev pub data_drive : BlockDeviceConfig
data_drive = record {
  drive_id = codes "data";
  is_root_device = false;
  is_read_only = none;
  path_on_host = some (codes "/d");
}

abbrev pub root_drive : BlockDeviceConfig
root_drive = record {
  drive_id = codes "root";
  is_root_device = true;
  is_read_only = none;
  path_on_host = some (codes "/r");
}

abbrev pub fresh : World
fresh = record { backend = new (codes "i"); events = []; disk = free }

-- Ready to boot.
abbrev pub ready : World
ready = record fresh {
  backend = record fresh.backend { boot_source = some boot; root_drive = some (codes "/r") };
}

abbrev pub balloon_of_64 : BalloonDeviceConfig
balloon_of_64 = record { amount_mib = 64; deflate_on_oom = false; stats_polling_interval_s = 0 }

abbrev pub up : VmState → RunOrigin → World
up s o = record ready {
  backend = record ready.backend {
    state = s;
    vm = some 7;
    origin = some o;
    balloon = some balloon_of_64;
  };
}

abbrev pub small : MachineConfig
small = record default_machine_config { vcpu_count = 2; mem_size_mib = 256 }

pub ready-IsConfigured : IsConfigured ready.backend
unfolding new default_machine_config
ready-IsConfigured = ground arith

pub ready-IsValid : IsValid ready.backend
unfolding new
ready-IsValid = record {
  configured = ready-IsConfigured;
  phase = inl (record {
    not_up = refl;
    no_vm = refl;
    no_origin = refl;
    no_bridge = refl;
    no_slot = refl;
    no_responder = refl;
  });
}

pub up-IsConfigured : (s : VmState) (o : RunOrigin) → IsConfigured (up s o).backend
unfolding new default_machine_config
up-IsConfigured s o = ground arith

pub up-IsValid : (s : VmState) (o : RunOrigin) → is_live s ≡ true → IsValid (up s o).backend
unfolding new default_machine_config
up-IsValid s o l = record {
  configured = up-IsConfigured s o;
  phase = inr (record {
    up = l;
    has_vm = refl;
    has_origin = refl;
    balloon_fits = omega arith;
    slot_from_pool = inl refl;
  });
}

pub running_live : is_live running ≡ true
unfolding is_live
running_live = refl

pub paused_live : is_live paused ≡ true
unfolding is_live
paused_live = refl
