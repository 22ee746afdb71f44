-- ===== src/Bridge/Sound/Exact.antt =====
-- Each call that crosses hands over what the caller gave, whole and in the order of the parameters.
use hephaestus.Base.{ℕ, ◌≡◌, refl, ap, [], ◌∷◌, arith, Bool, Option, if◌then◌else◌, All, All-append}
use hephaestus.Base.Text.{Bytes, codes}
use hephaestus.Base.Checked.{Result, ok, err, ok-Gives, via}
use hephaestus.Bridge.{
  Compression, compression_code, hb_vm_new, hb_vz_boot, hb_vz_exec, hb_vz_exec_snapshot_save,
  hb_vz_exec_snapshot_restore, hb_vz_pool_restore_long, hb_vz_stock_pool_restore_long,
  hb_vz_long_new, hb_vz_long_restore, hb_vz_snapshot_save, hb_vz_snapshot_restore, hb_vz_sh,
  hb_rootfs_from_tar, Swift, VmError, Crossing, Reply, Called, invoke,
}
use hephaestus.Bridge.Specs.{Spec, VzSpec}
use hephaestus.Bridge.Calls.{
  vz_boot, vz_exec, vz_exec_snapshot_save, vz_exec_snapshot_restore, vz_pool_restore_long,
  vz_stock_pool_restore_long, vz_snapshot_save, vz_snapshot_restore, vz_sh, build_rootfs_from_tar,
}
use hephaestus.Bridge.Vms.{config_of, long_of, build, build_long, vz_long_restore}
use hephaestus.Bridge.Sound.{
  Sends, IsPath, IsText, paths_of, texts_of, path_c-Gives, opt_path_cstring-Gives, c_string-Gives,
  opt_c_string-Gives, c_strings-Gives, drive_arrays-Gives, invoke-All,
}

module _ (s : Swift) where
  pub vz_boot-Sends :
      (kernel rootfs log : Bytes) (cpus memory_mib secs : ℕ)
      → All
          (Sends s.is_utf8 (hb_vz_boot kernel rootfs log cpus memory_mib secs))
          (vz_boot s kernel rootfs log cpus memory_mib secs).0
  unfolding vz_boot paths_of texts_of
  vz_boot-Sends kernel rootfs log cpus memory_mib secs = invoke-All _ s _ _ (
      via _ _ _ _ _ (path_c-Gives s.is_utf8 kernel (codes "kernel")) λ hk.
        via _ _ _ _ _ (path_c-Gives s.is_utf8 rootfs (codes "rootfs")) λ hr.
          via _ _ _ _ _ (path_c-Gives s.is_utf8 log (codes "log"))
            λ hl. ok-Gives _ _ _ (refl, ((hk, (hr, (hl, tt))), tt)))

  pub vz_exec-Sends :
      (kernel initramfs rootfs command : Bytes) (log : Option Bytes) (cpus memory_mib secs : ℕ)
      (stdin : Bool)
      → All
          (Sends s.is_utf8 (
            hb_vz_exec kernel initramfs rootfs command log cpus memory_mib secs
              (if stdin then 1 else 0)))
          (vz_exec s kernel initramfs rootfs command log cpus memory_mib secs stdin).0
  unfolding vz_exec paths_of texts_of
  vz_exec-Sends kernel initramfs rootfs command log cpus memory_mib secs stdin =
      invoke-All _ s _ _ (
        via _ _ _ _ _ (path_c-Gives s.is_utf8 kernel (codes "kernel")) λ hk.
          via _ _ _ _ _ (path_c-Gives s.is_utf8 initramfs (codes "initramfs")) λ hi.
            via _ _ _ _ _ (path_c-Gives s.is_utf8 rootfs (codes "rootfs")) λ hr.
              via _ _ _ _ _ (c_string-Gives command) λ hc.
                via _ _ _ _ _ (opt_path_cstring-Gives s.is_utf8 log (codes "log"))
                  λ hl. ok-Gives _ _ _ (refl, ((hk, (hi, (hr, hl))), (hc, tt))))

  pub vz_exec_snapshot_save-Sends :
      (kernel initramfs rootfs save : Bytes) (log : Option Bytes) (cpus memory_mib : ℕ)
      → All
          (Sends s.is_utf8
            (hb_vz_exec_snapshot_save kernel initramfs rootfs save log cpus memory_mib))
          (vz_exec_snapshot_save s kernel initramfs rootfs save log cpus memory_mib).0
  unfolding vz_exec_snapshot_save paths_of texts_of
  vz_exec_snapshot_save-Sends kernel initramfs rootfs save log cpus memory_mib =
      invoke-All _ s _ _ (
        via _ _ _ _ _ (path_c-Gives s.is_utf8 kernel (codes "kernel")) λ hk.
          via _ _ _ _ _ (path_c-Gives s.is_utf8 initramfs (codes "initramfs")) λ hi.
            via _ _ _ _ _ (path_c-Gives s.is_utf8 rootfs (codes "rootfs")) λ hr.
              via _ _ _ _ _ (path_c-Gives s.is_utf8 save (codes "save")) λ hs.
                via _ _ _ _ _ (opt_path_cstring-Gives s.is_utf8 log (codes "log"))
                  λ hl. ok-Gives _ _ _ (refl, ((hk, (hi, (hr, (hs, hl)))), tt)))

  pub vz_exec_snapshot_restore-Sends :
      (kernel initramfs rootfs save command : Bytes) (log : Option Bytes) (cpus memory_mib : ℕ)
      → All
          (Sends s.is_utf8
            (hb_vz_exec_snapshot_restore kernel initramfs rootfs save command log cpus memory_mib))
          (vz_exec_snapshot_restore s kernel initramfs rootfs save command log cpus memory_mib).0
  unfolding vz_exec_snapshot_restore paths_of texts_of
  vz_exec_snapshot_restore-Sends kernel initramfs rootfs save command log cpus memory_mib =
      invoke-All _ s _ _ (
        via _ _ _ _ _ (path_c-Gives s.is_utf8 kernel (codes "kernel")) λ hk.
          via _ _ _ _ _ (path_c-Gives s.is_utf8 initramfs (codes "initramfs")) λ hi.
            via _ _ _ _ _ (path_c-Gives s.is_utf8 rootfs (codes "rootfs")) λ hr.
              via _ _ _ _ _ (path_c-Gives s.is_utf8 save (codes "save")) λ hs.
                via _ _ _ _ _ (c_string-Gives command) λ hc.
                  via _ _ _ _ _ (opt_path_cstring-Gives s.is_utf8 log (codes "log"))
                    λ hl. ok-Gives _ _ _ (refl, ((hk, (hi, (hr, (hs, hl)))), (hc, tt))))

  pub vz_pool_restore_long-Sends :
      (kernel initramfs rootfs save : Bytes) (log : Option Bytes) (cpus memory_mib : ℕ)
      → All
          (Sends s.is_utf8
            (hb_vz_pool_restore_long kernel initramfs rootfs save log cpus memory_mib))
          (vz_pool_restore_long s kernel initramfs rootfs save log cpus memory_mib).0
  unfolding vz_pool_restore_long paths_of texts_of
  vz_pool_restore_long-Sends kernel initramfs rootfs save log cpus memory_mib = invoke-All _ s _ _ (
      via _ _ _ _ _ (path_c-Gives s.is_utf8 kernel (codes "kernel")) λ hk.
        via _ _ _ _ _ (path_c-Gives s.is_utf8 initramfs (codes "initramfs")) λ hi.
          via _ _ _ _ _ (path_c-Gives s.is_utf8 rootfs (codes "rootfs")) λ hr.
            via _ _ _ _ _ (path_c-Gives s.is_utf8 save (codes "save")) λ hs.
              via _ _ _ _ _ (opt_path_cstring-Gives s.is_utf8 log (codes "log"))
                λ hl. ok-Gives _ _ _ (refl, ((hk, (hi, (hr, (hs, hl)))), tt)))

  pub vz_stock_pool_restore_long-Sends :
      (kernel rootfs save : Bytes) (log : Option Bytes) (cpus memory_mib : ℕ)
      → All
          (Sends s.is_utf8 (hb_vz_stock_pool_restore_long kernel rootfs save log cpus memory_mib))
          (vz_stock_pool_restore_long s kernel rootfs save log cpus memory_mib).0
  unfolding vz_stock_pool_restore_long paths_of texts_of
  vz_stock_pool_restore_long-Sends kernel rootfs save log cpus memory_mib = invoke-All _ s _ _ (
      via _ _ _ _ _ (path_c-Gives s.is_utf8 kernel (codes "kernel")) λ hk.
        via _ _ _ _ _ (path_c-Gives s.is_utf8 rootfs (codes "rootfs")) λ hr.
          via _ _ _ _ _ (path_c-Gives s.is_utf8 save (codes "save")) λ hs.
            via _ _ _ _ _ (opt_path_cstring-Gives s.is_utf8 log (codes "log"))
              λ hl. ok-Gives _ _ _ (refl, ((hk, (hr, (hs, hl))), tt)))

  pub vz_snapshot_save-Sends :
      (kernel rootfs log save : Bytes) (cpus memory_mib secs : ℕ)
      → All
          (Sends s.is_utf8 (hb_vz_snapshot_save kernel rootfs log save cpus memory_mib secs))
          (vz_snapshot_save s kernel rootfs log save cpus memory_mib secs).0
  unfolding vz_snapshot_save paths_of texts_of
  vz_snapshot_save-Sends kernel rootfs log save cpus memory_mib secs = invoke-All _ s _ _ (
      via _ _ _ _ _ (path_c-Gives s.is_utf8 kernel (codes "kernel")) λ hk.
        via _ _ _ _ _ (path_c-Gives s.is_utf8 rootfs (codes "rootfs")) λ hr.
          via _ _ _ _ _ (path_c-Gives s.is_utf8 log (codes "log")) λ hl.
            via _ _ _ _ _ (path_c-Gives s.is_utf8 save (codes "save"))
              λ hs. ok-Gives _ _ _ (refl, ((hk, (hr, (hl, (hs, tt)))), tt)))

  pub vz_snapshot_restore-Sends :
      (kernel rootfs log save : Bytes) (cpus memory_mib secs : ℕ)
      → All
          (Sends s.is_utf8 (hb_vz_snapshot_restore kernel rootfs log save cpus memory_mib secs))
          (vz_snapshot_restore s kernel rootfs log save cpus memory_mib secs).0
  unfolding vz_snapshot_restore paths_of texts_of
  vz_snapshot_restore-Sends kernel rootfs log save cpus memory_mib secs = invoke-All _ s _ _ (
      via _ _ _ _ _ (path_c-Gives s.is_utf8 kernel (codes "kernel")) λ hk.
        via _ _ _ _ _ (path_c-Gives s.is_utf8 rootfs (codes "rootfs")) λ hr.
          via _ _ _ _ _ (path_c-Gives s.is_utf8 log (codes "log")) λ hl.
            via _ _ _ _ _ (path_c-Gives s.is_utf8 save (codes "save"))
              λ hs. ok-Gives _ _ _ (refl, ((hk, (hr, (hl, (hs, tt)))), tt)))

  pub vz_sh-Sends :
      (kernel rootfs : Bytes) (cpus memory_mib secs : ℕ)
      → All
          (Sends s.is_utf8 (hb_vz_sh kernel rootfs cpus memory_mib secs))
          (vz_sh s kernel rootfs cpus memory_mib secs).0
  unfolding vz_sh paths_of texts_of
  vz_sh-Sends kernel rootfs cpus memory_mib secs = invoke-All _ s _ _ (
      via _ _ _ _ _ (path_c-Gives s.is_utf8 kernel (codes "kernel")) λ hk.
        via _ _ _ _ _ (path_c-Gives s.is_utf8 rootfs (codes "rootfs"))
          λ hr. ok-Gives _ _ _ (refl, ((hk, (hr, tt)), tt)))

  pub build_rootfs_from_tar-Sends :
      (tar out : Bytes) (size_mib : ℕ) (compression : Compression)
      → All
          (Sends s.is_utf8 (hb_rootfs_from_tar tar out size_mib (compression_code compression)))
          (build_rootfs_from_tar s tar out size_mib compression).0
  unfolding build_rootfs_from_tar paths_of texts_of
  build_rootfs_from_tar-Sends tar out size_mib compression = invoke-All _ s _ _ (
      via _ _ _ _ _ (path_c-Gives s.is_utf8 tar (codes "tar")) λ ht.
        via _ _ _ _ _ (path_c-Gives s.is_utf8 out (codes "output"))
          λ ho. ok-Gives _ _ _ (refl, ((ht, (ho, tt)), tt)))

  pub build-Sends :
      (spec : Spec) → All (Sends s.is_utf8 (hb_vm_new (config_of spec))) (build s spec).0
  unfolding build paths_of texts_of
  build-Sends spec = invoke-All _ s _ _ (
      via _ _ _ _ _ (c_string-Gives spec.id) λ ht.
        via _ _ _ _ _ (path_c-Gives s.is_utf8 spec.kernel_path (codes "kernel")) λ hk.
          via _ _ _ _ _ (path_c-Gives s.is_utf8 spec.initfs_path (codes "initfs")) λ hi.
            via _ _ _ _ _ (path_c-Gives s.is_utf8 spec.rootfs_path (codes "rootfs")) λ hr.
              via _ _ _ _ _ (opt_c_string-Gives spec.cwd) λ hd.
                via _ _ _ _ _ (c_strings-Gives spec.argv) λ ha.
                  ok-Gives _ _ _
                    (refl, ((hk, (hi, (hr, tt))), (ht, All-append IsText _ spec.argv hd ha))))

  pub build_long-Sends :
      (spec : VzSpec) → All (Sends s.is_utf8 (hb_vz_long_new (long_of spec))) (build_long s spec).0
  unfolding build_long paths_of texts_of
  build_long-Sends spec = invoke-All _ s _ _ (
      via _ _ _ _ _ (path_c-Gives s.is_utf8 spec.kernel_path (codes "kernel")) λ hk.
        via _ _ _ _ _ (path_c-Gives s.is_utf8 spec.rootfs_path (codes "rootfs")) λ hr.
          via _ _ _ _ _ (path_c-Gives s.is_utf8 spec.log_path (codes "log")) λ hl.
            via _ _ _ _ _ (c_string-Gives spec.boot_args) λ hb.
              via _ _ _ _ _ (opt_path_cstring-Gives s.is_utf8 spec.initrd_path (codes "initrd"))
                λ hi. via _ _ _ _ _ (opt_c_string-Gives spec.mac) λ hm.
                  via _ _ _ _ _ (drive_arrays-Gives s.is_utf8 spec.extra_drives) λ hd.
                    ok-Gives _ _ _
                      (refl, ((hk, (hr, (hl, All-append (IsPath s.is_utf8) _ _ hi hd))), (hb, hm))))

  pub vz_long_restore-Sends :
      (spec : VzSpec) (save : Bytes) (resume : Bool)
      → All
          (Sends s.is_utf8 (hb_vz_long_restore (long_of spec) save resume))
          (vz_long_restore s spec save resume).0
  unfolding vz_long_restore paths_of texts_of
  vz_long_restore-Sends spec save resume = invoke-All _ s _ _ (
      via _ _ _ _ _ (path_c-Gives s.is_utf8 spec.kernel_path (codes "kernel")) λ hk.
        via _ _ _ _ _ (path_c-Gives s.is_utf8 spec.rootfs_path (codes "rootfs")) λ hr.
          via _ _ _ _ _ (path_c-Gives s.is_utf8 spec.log_path (codes "log")) λ hl.
            via _ _ _ _ _ (c_string-Gives spec.boot_args) λ hb.
              via _ _ _ _ _ (path_c-Gives s.is_utf8 save (codes "save")) λ hs.
                via _ _ _ _ _ (opt_path_cstring-Gives s.is_utf8 spec.initrd_path (codes "initrd"))
                  λ hi. via _ _ _ _ _ (opt_c_string-Gives spec.mac) λ hm.
                    via _ _ _ _ _ (drive_arrays-Gives s.is_utf8 spec.extra_drives) λ hd.
                      ok-Gives _ _ _ (
                        refl,
                        ((hs, (hk, (hr, (hl, All-append (IsPath s.is_utf8) _ _ hi hd)))), (hb, hm)),
                      ))

-- A call that was sent as it should be and that brought a result has crossed, once.
invoke-once :
    {A : Type 0} (is_utf8 : Bytes → Bool) (sent : Crossing) (s : Swift) (out : Reply → A)
    (m : Result VmError Crossing) (a : A)
    → All (Sends is_utf8 sent) (invoke s out m).0
    → (invoke s out m).1 ≡ ok a
    → (invoke s out m).0 ≡ sent ∷ []
unfolding invoke
invoke-once is_utf8 sent s out (err e) a h q = absurd (ground arith)
invoke-once is_utf8 sent s out (ok c) a ((e, x), t) q = ap (λ y. y ∷ []) e

-- What a call hands over, if it crosses; and that it has crossed, once, if it brings a result.
abbrev pub Delivers : {A : Type 0} → (Bytes → Bool) → Crossing → Called A → Type 0
Delivers {A = A} is_utf8 sent called =
    All (Sends is_utf8 sent) called.0 × ((a : A) → called.1 ≡ ok a → called.0 ≡ sent ∷ [])

-- The call that builds a machine and the one that restores it hand over the same machine, which is
-- the specification's: every path and text of the caller, and its drives with their flags in order.
-- Nothing crosses that has a zero byte in a text or a path, or a path that is no UTF-8. A machine
-- that is returned was asked for with one call.
pub build_long-vz_long_restore :
    (s : Swift) (spec : VzSpec) (save : Bytes) (resume : Bool)
    → Delivers s.is_utf8 (hb_vz_long_new (long_of spec)) (build_long s spec)
      × Delivers s.is_utf8
          (hb_vz_long_restore (long_of spec) save resume)
          (vz_long_restore s spec save resume)
unfolding build_long vz_long_restore
build_long-vz_long_restore s spec save resume = (
  (build_long-Sends s spec, λ vm e. invoke-once _ _ s _ _ vm (build_long-Sends s spec) e),
  (
    vz_long_restore-Sends s spec save resume,
    λ r e. invoke-once _ _ s _ _ r (vz_long_restore-Sends s spec save resume) e,
  ),
)
