-- ===== src/Cli/Sound/Safe.antt =====
-- What any command line can make the program hand to the bridge.
use hephaestus.Base.{
  ℕ, ◌≤◌, ◌≡◌, refl, Bool, true, false, Option, none, some, List, [], ◌∷◌, All, All-append, arith,
  unwrap_or, sym, subst,
}
use hephaestus.Base.Text.{Bytes}
use hephaestus.Base.Checked.{ok, err}
use hephaestus.Bridge.{
  Compression, Crossing, hb_vm_new, hb_vm_create, hb_vm_start, hb_vm_wait, hb_vm_stop, hb_vm_free,
  hb_vz_boot, hb_vz_exec, hb_vz_exec_snapshot_save, hb_vz_exec_snapshot_restore,
  hb_vz_snapshot_save, hb_vz_snapshot_restore, hb_vz_sh, hb_rootfs_from_tar, Swift, Called, invoke,
}
use hephaestus.Bridge.Specs.{Spec, allocate_ip_octet}
use hephaestus.Cli.Sound.Settings.{run_spec-paths, run_spec-octet}
use hephaestus.Bridge.Vms.{build, create, start, wait, stop, drop_vm, config_of}
use hephaestus.Bridge.Sound.{IsSendable, Sends, paths_of, texts_of}
use hephaestus.Bridge.Sound.Exact.{
  build-Sends, vz_boot-Sends, vz_exec-Sends, vz_exec_snapshot_save-Sends,
  vz_exec_snapshot_restore-Sends, vz_snapshot_save-Sends, vz_snapshot_restore-Sends, vz_sh-Sends,
  build_rootfs_from_tar-Sends,
}
use hephaestus.Cli.Run.{RunOptions}
use hephaestus.Cli.Direct.{RootfsOptions, VzBootOptions, VzExecOptions, VzShOptions}
use hephaestus.Cli.Saved.{VzWarmOptions, VzSnapOptions}
use hephaestus.Cli.Commands.{
  run_spec, and_then, drive, run, build_with, vz_boot_cmd, vz_exec_cmd, vz_warm_save_cmd,
  vz_warm_run_cmd, vz_sh_cmd, vz_snap_save_cmd, vz_snap_restore_cmd, Ended,
}
use hephaestus.Cli.Sound.{IsRunnable, OctetFits}
use hephaestus.Cli.Sound.Paths.{WarmFound}

-- The address that an id gives lies between the gateway and the broadcast address.
pub allocate_ip_octet-bounds :
    (id : Bytes) → (2 ≤ allocate_ip_octet id) × (allocate_ip_octet id ≤ 254)
unfolding allocate_ip_octet
allocate_ip_octet-bounds id = (omega arith, omega arith)

-- The files of the host that a call reads as images.
pub inputs_of : Crossing → List Bytes
inputs_of (hb_vm_new c) = c.kernel_path ∷ c.initfs_path ∷ c.rootfs_path ∷ []
inputs_of (hb_vz_boot k r l _ _ _) = k ∷ r ∷ []
inputs_of (hb_vz_exec k i r c l _ _ _ _) = k ∷ i ∷ r ∷ []
inputs_of (hb_vz_exec_snapshot_save k i r s l _ _) = k ∷ i ∷ r ∷ []
inputs_of (hb_vz_exec_snapshot_restore k i r s c l _ _) = k ∷ i ∷ r ∷ s ∷ []
inputs_of (hb_vz_snapshot_save k r l s _ _ _) = k ∷ r ∷ []
inputs_of (hb_vz_snapshot_restore k r l s _ _ _) = k ∷ r ∷ s ∷ []
inputs_of (hb_vz_sh k r _ _ _) = k ∷ r ∷ []
inputs_of (hb_rootfs_from_tar t o _ _) = t ∷ []
inputs_of _ = []

pub octet_of : Crossing → Option ℕ
octet_of (hb_vm_new c) = some c.network_ip_octet
octet_of _ = none

-- A call whose texts may cross, whose images exist, and whose address is one of the subnet's hosts.
pub record IsSafe (exists is_utf8 : Bytes → Bool) (c : Crossing) : Type 0 where
  pub sendable : IsSendable is_utf8 c
  pub found : All (λ p. exists p ≡ true) (inputs_of c)
  pub octet : OctetFits (octet_of c)

module _ (exists : Bytes → Bool) (s : Swift) where
  abbrev pub Safe : Crossing → Type 0
  Safe = IsSafe exists s.is_utf8

  Sends-IsSafe :
      (sent : Crossing) (cs : List Crossing)
      → All (λ p. exists p ≡ true) (inputs_of sent)
      → OctetFits (octet_of sent)
      → All (Sends s.is_utf8 sent) cs
      → All Safe cs
  Sends-IsSafe sent [] f o h = tt
  Sends-IsSafe sent (c ∷ cs) f o ((e, s), h) = (
    record {
      sendable = s;
      found = subst (λ x. All (λ p. exists p ≡ true) (inputs_of x)) (sym e) f;
      octet = subst (λ x. OctetFits (octet_of x)) (sym e) o;
    },
    Sends-IsSafe sent cs f o h,
  )

  and_then-All :
      {A : Type 0} (m : Called A) (next : A → Ended)
      → All Safe m.0
      → ((a : A) → All Safe (next a).0)
      → All Safe (and_then m next).0
  unfolding and_then
  and_then-All (calls, err e) next h k = h
  and_then-All (calls, ok a) next h k = All-append Safe calls _ h (k a)

  -- A call on a handle hands over no text.
  abbrev Handles : Crossing → Type 0
  Handles c = (paths_of c ≡ []) × (texts_of c ≡ []) × (inputs_of c ≡ []) × (octet_of c ≡ none)

  Handles-IsSafe : (c : Crossing) → Handles c → Safe c
  Handles-IsSafe c (p, t, i, o) = record {
    sendable = (rw p tt, rw t tt);
    found = rw i tt;
    octet = rw o tt;
  }

  drive-All : (vm : ℕ) → All Safe (drive s vm).0
  unfolding drive create start wait stop invoke paths_of texts_of inputs_of octet_of
  drive-All vm =
      and_then-All (create s vm) _ (Handles-IsSafe (hb_vm_create vm) (refl, refl, refl, refl), tt)
        λ _.
          and_then-All (start s vm) _ (Handles-IsSafe (hb_vm_start vm) (refl, refl, refl, refl), tt)
            λ _.
              and_then-All (wait s vm) _
                (Handles-IsSafe (hb_vm_wait vm) (refl, refl, refl, refl), tt)
                λ code. (Handles-IsSafe (hb_vm_stop vm) (refl, refl, refl, refl), tt)

  drop_vm-All : (vm : ℕ) → All Safe (drop_vm vm)
  unfolding drop_vm paths_of texts_of inputs_of octet_of
  drop_vm-All vm = (
    Handles-IsSafe (hb_vm_stop vm) (refl, refl, refl, refl),
    (Handles-IsSafe (hb_vm_free vm) (refl, refl, refl, refl), tt),
  )

  octet_fits :
      (o : Option ℕ) (id : Bytes)
      → OctetFits o
      → OctetFits (some (unwrap_or o (allocate_ip_octet id)))
  octet_fits none id h = allocate_ip_octet-bounds id
  octet_fits (some n) id h = h

  build-All :
      (spec : Spec)
      → All (λ p. exists p ≡ true) (spec.kernel_path ∷ spec.initfs_path ∷ spec.rootfs_path ∷ [])
      → OctetFits spec.ip_octet
      → All Safe (build s spec).0
  unfolding inputs_of octet_of config_of
  build-All spec h o =
      Sends-IsSafe (hb_vm_new (config_of spec)) (build s spec).0 h
        (octet_fits spec.ip_octet spec.id o) (build-Sends s spec)

  pub run-All : (o : RunOptions) → IsRunnable exists o → All Safe (run s o).0
  unfolding run
  run-All o h =
      let (k, i, r) = run_spec-paths o in
      and_then-All (build s (run_spec o)) _
        (build-All (run_spec o) (rw k h.kernel.1, (rw i h.initfs.1, (rw r h.rootfs.1, tt)))
          (rw (run_spec-octet o) h.octet))
        λ vm. All-append Safe (drive s vm).0 (drop_vm vm) (drive-All vm) (drop_vm-All vm)

  -- The commands that call the bridge once.
  pub build_with-All :
      (o : RootfsOptions) (c : Option Compression)
      → exists o.tar ≡ true
      → All Safe (build_with s o c).0
  unfolding build_with inputs_of octet_of
  build_with-All o none h = tt
  build_with-All o (some c) h = Sends-IsSafe _ _ (h, tt) tt (build_rootfs_from_tar-Sends s _ _ _ _)

  pub exec-All :
      (o : VzExecOptions)
      → exists o.kernel ≡ true
      → exists o.rootfs ≡ true
      → exists o.initramfs ≡ true
      → All Safe (vz_exec_cmd s o).0
  unfolding vz_exec_cmd inputs_of octet_of
  exec-All o k r i = Sends-IsSafe _ _ (k, (i, (r, tt))) tt (vz_exec-Sends s _ _ _ _ _ _ _ _ _)

  pub boot-All :
      (o : VzBootOptions)
      → exists o.kernel ≡ true
      → exists o.rootfs ≡ true
      → All Safe (vz_boot_cmd s o).0
  unfolding vz_boot_cmd inputs_of octet_of
  boot-All o k r = Sends-IsSafe _ _ (k, (r, tt)) tt (vz_boot-Sends s _ _ _ _ _ _)

  pub sh-All :
      (o : VzShOptions)
      → exists o.kernel ≡ true
      → exists o.rootfs ≡ true
      → All Safe (vz_sh_cmd s o).0
  unfolding vz_sh_cmd inputs_of octet_of
  sh-All o k r = Sends-IsSafe _ _ (k, (r, tt)) tt (vz_sh-Sends s _ _ _ _ _)

  pub warm_save-All :
      (o : VzWarmOptions) → WarmFound exists false o → All Safe (vz_warm_save_cmd s o).0
  unfolding vz_warm_save_cmd inputs_of octet_of
  warm_save-All o (k, r, i, w) =
      Sends-IsSafe _ _ (k, (i, (r, tt))) tt (vz_exec_snapshot_save-Sends s _ _ _ _ _ _ _)

  pub warm_run-All :
      (o : VzWarmOptions) → WarmFound exists true o → All Safe (vz_warm_run_cmd s o).0
  unfolding vz_warm_run_cmd inputs_of octet_of
  warm_run-All o (k, r, i, w) =
      Sends-IsSafe _ _ (k, (i, (r, ((w refl).0, tt)))) tt
        (vz_exec_snapshot_restore-Sends s _ _ _ _ _ _ _ _)

  pub snap_save-All :
      (o : VzSnapOptions)
      → exists o.kernel ≡ true
      → exists o.rootfs ≡ true
      → All Safe (vz_snap_save_cmd s o).0
  unfolding vz_snap_save_cmd inputs_of octet_of
  snap_save-All o k r = Sends-IsSafe _ _ (k, (r, tt)) tt (vz_snapshot_save-Sends s _ _ _ _ _ _ _)

  pub snap_restore-All :
      (o : VzSnapOptions)
      → exists o.kernel ≡ true
      → exists o.rootfs ≡ true
      → exists o.save ≡ true
      → All Safe (vz_snap_restore_cmd s o).0
  unfolding vz_snap_restore_cmd inputs_of octet_of
  snap_restore-All o k r f =
      Sends-IsSafe _ _ (k, (r, (f, tt))) tt (vz_snapshot_restore-Sends s _ _ _ _ _ _ _)
