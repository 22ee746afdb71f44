-- ===== src/Bridge/Examples.antt =====
-- A machine with a second drive, and calls that may not cross.
use hephaestus.Base.{ℕ, ◌≡◌, refl, Bool, true, false, Option, none, some, List, [], ◌∷◌}
use hephaestus.Base.Text.{Bytes, codes}
use hephaestus.Base.Checked.{ok}
use hephaestus.Bridge.{
  Reply, fine, Swift, invalid_argument, vmnet, gzip, auto_detect, Crossing, hb_vz_long_new,
  hb_vz_long_restore,
}
use hephaestus.Bridge.Specs.{
  VzSpec, new_vz_spec, with_network_mode, with_extra_drives, allocate_ip_octet,
}
use hephaestus.Bridge.Calls.{vz_sh}
use hephaestus.Bridge.Vms.{build_long, vz_long_restore, long_of}
use hephaestus.Bridge.Sound.Exact.{Delivers, build_long-vz_long_restore}

abbrev answer : Reply
answer = record {
  status = fine;
  message = none;
  vm = 1;
  exit_code = 0;
  nanos = 0;
  timings = record { config_nanos = 0; construct_nanos = 0; restore_nanos = 0; resume_nanos = 0 };
  fd = none;
  len = 0;
}

abbrev swift : Swift
swift = record { answer = λ c. answer; is_utf8 = λ p. true }

abbrev spec : VzSpec
spec = with_extra_drives ((codes "/d", true) ∷ []) (
    with_network_mode vmnet
      (new_vz_spec (codes "/k") (codes "/r") (codes "/l") (codes "console=hvc0")))

build_long-vz_long_restore_example :
    Delivers swift.is_utf8 (hb_vz_long_new (long_of spec)) (build_long swift spec)
    × Delivers swift.is_utf8
        (hb_vz_long_restore (long_of spec) (codes "/s") true)
        (vz_long_restore swift spec (codes "/s") true)
build_long-vz_long_restore_example = build_long-vz_long_restore swift spec (codes "/s") true

builds : (build_long swift spec).1 ≡ ok 1
unfolding build_long with_extra_drives with_network_mode new_vz_spec hephaestus.Bridge.invoke
    hephaestus.Bridge.path_c hephaestus.Base.Text.lacks hephaestus.Bridge.opt_path_cstring
    hephaestus.Bridge.opt_c_string hephaestus.Bridge.drive_arrays
builds = refl

-- A zero byte in a path keeps the call from crossing.
zero_byte : (vz_sh swift (47 ∷ 0 ∷ []) (codes "/r") 0 0 0).0 ≡ []
unfolding vz_sh hephaestus.Bridge.invoke hephaestus.Bridge.path_c hephaestus.Base.Text.lacks
zero_byte = refl

gzip_header : auto_detect (some (31 ∷ 139 ∷ 8 ∷ 0 ∷ [])) ≡ some (some gzip)
unfolding auto_detect
gzip_header = refl

default_address : allocate_ip_octet (codes "hephaestus-vm") ≡ 182
unfolding allocate_ip_octet
default_address = refl
