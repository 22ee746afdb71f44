-- ===== src/Cli/Sound/Paths.antt =====
-- The paths that the parsers of the other subcommands have found to exist.
use hephaestus.Base.{◌≡◌, ◌≢◌, Bool, true, false, List, [], arith}
use hephaestus.Base.Text.{Bytes}
use hephaestus.Base.Checked.{Gives, ok-Gives, after-Gives}
use hephaestus.Cli.{kernel, rootfs, from_tar, output, log, initramfs, cmd, save}
use hephaestus.Cli.Direct.{
  check_rootfs, check_boot, check_exec, check_sh, parse_rootfs_args, parse_vz_boot_args,
  parse_vz_exec_args, parse_vz_sh_args,
}
use hephaestus.Cli.Saved.{
  VzWarmOptions, check_warm, check_snap, parse_vz_warm_args, parse_vz_snap_args,
}
use hephaestus.Cli.Sound.{required-Gives, existing-Gives}

module _ (exists : Bytes → Bool) where
  abbrev pub There : Bytes → Type 0
  There p = exists p ≡ true

  pub parse_rootfs_args-Gives :
      (ws : List Bytes) → Gives (λ o. There o.tar) (parse_rootfs_args exists ws)
  unfolding parse_rootfs_args
  parse_rootfs_args-Gives ws = after-Gives _ _ (check_rootfs exists) λ o.
      required-Gives _ from_tar o.tar _ λ _.
        required-Gives _ output o.output _
          λ _. existing-Gives _ exists from_tar o.tar _ λ e. ok-Gives _ _ o e

  pub parse_vz_boot_args-Gives :
      (ws : List Bytes)
      → Gives (λ o. There o.kernel × There o.rootfs) (parse_vz_boot_args exists ws)
  unfolding parse_vz_boot_args
  parse_vz_boot_args-Gives ws = after-Gives _ _ (check_boot exists) λ o.
      required-Gives _ kernel o.kernel _ λ _. required-Gives _ rootfs o.rootfs _ λ _.
        required-Gives _ log o.log _ λ _.
          existing-Gives _ exists kernel o.kernel _
            λ k. existing-Gives _ exists rootfs o.rootfs _ λ r. ok-Gives _ _ o (k, r)

  pub parse_vz_exec_args-Gives :
      (ws : List Bytes)
      → Gives
          (λ o. There o.kernel × There o.rootfs × There o.initramfs × (o.command ≢ []))
          (parse_vz_exec_args exists ws)
  unfolding parse_vz_exec_args
  parse_vz_exec_args-Gives ws = after-Gives _ _ (check_exec exists) λ o.
      required-Gives _ kernel o.kernel _ λ _. required-Gives _ rootfs o.rootfs _ λ _.
        required-Gives _ cmd o.command _ λ c. existing-Gives _ exists kernel o.kernel _ λ k.
          existing-Gives _ exists rootfs o.rootfs _
            λ r. existing-Gives _ exists initramfs o.initramfs _ λ i. ok-Gives _ _ o (k, r, i, c)

  pub parse_vz_sh_args-Gives :
      (ws : List Bytes) → Gives (λ o. There o.kernel × There o.rootfs) (parse_vz_sh_args exists ws)
  unfolding parse_vz_sh_args
  parse_vz_sh_args-Gives ws = after-Gives _ _ (check_sh exists) λ o.
      required-Gives _ kernel o.kernel _ λ _. required-Gives _ rootfs o.rootfs _ λ _.
        existing-Gives _ exists kernel o.kernel _
          λ k. existing-Gives _ exists rootfs o.rootfs _ λ r. ok-Gives _ _ o (k, r)

  abbrev pub WarmFound : Bool → VzWarmOptions → Type 0
  WarmFound restoring o =
      There o.kernel
      × There o.rootfs
      × There o.initramfs
      × (restoring ≡ true → There o.save × (o.command ≢ []))

  pub parse_vz_warm_args-Gives :
      (restoring : Bool) (ws : List Bytes)
      → Gives (WarmFound restoring) (parse_vz_warm_args restoring exists ws)
  unfolding parse_vz_warm_args
  parse_vz_warm_args-Gives true ws = after-Gives _ _ (check_warm true exists) λ o.
      required-Gives _ kernel o.kernel _ λ _. required-Gives _ rootfs o.rootfs _ λ _.
        required-Gives _ save o.save _ λ _. required-Gives _ cmd o.command _ λ c.
          existing-Gives _ exists kernel o.kernel _ λ k.
            existing-Gives _ exists rootfs o.rootfs _ λ r.
              existing-Gives _ exists initramfs o.initramfs _ λ i.
                existing-Gives _ exists save o.save _ λ s. ok-Gives _ _ o (k, r, i, λ _. (s, c))
  parse_vz_warm_args-Gives false ws = after-Gives _ _ (check_warm false exists) λ o.
      required-Gives _ kernel o.kernel _ λ _. required-Gives _ rootfs o.rootfs _ λ _.
        required-Gives _ save o.save _ λ _. existing-Gives _ exists kernel o.kernel _ λ k.
          existing-Gives _ exists rootfs o.rootfs _ λ r.
            existing-Gives _ exists initramfs o.initramfs _
              λ i. ok-Gives _ _ o (k, r, i, λ e. absurd (ground arith))

  pub parse_vz_snap_args-Gives :
      (saving : Bool) (ws : List Bytes)
      → Gives
          (λ o. There o.kernel × There o.rootfs × (saving ≡ false → There o.save))
          (parse_vz_snap_args saving exists ws)
  unfolding parse_vz_snap_args
  parse_vz_snap_args-Gives true ws = after-Gives _ _ (check_snap true exists) λ o.
      required-Gives _ kernel o.kernel _ λ _. existing-Gives _ exists kernel o.kernel _ λ k.
        required-Gives _ rootfs o.rootfs _ λ _. existing-Gives _ exists rootfs o.rootfs _ λ r.
          required-Gives _ log o.log _ λ _.
            required-Gives _ save o.save _ λ _. ok-Gives _ _ o (k, r, λ e. absurd (ground arith))
  parse_vz_snap_args-Gives false ws = after-Gives _ _ (check_snap false exists) λ o.
      required-Gives _ kernel o.kernel _ λ _. existing-Gives _ exists kernel o.kernel _ λ k.
        required-Gives _ rootfs o.rootfs _ λ _. existing-Gives _ exists rootfs o.rootfs _ λ r.
          required-Gives _ log o.log _ λ _.
            required-Gives _ save o.save _
              λ _. existing-Gives _ exists save o.save _ λ s. ok-Gives _ _ o (k, r, λ e. s)
