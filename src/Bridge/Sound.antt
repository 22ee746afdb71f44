-- ===== src/Bridge/Sound.antt =====
-- What crosses to the Swift library: texts without a zero byte and paths that are UTF-8, each as
-- the caller gave it.
pub mod Exact
use hephaestus.Base.{
  ℕ, ◌≡◌, refl, ap, Bool, true, false, Option, none, some, List, [], ◌∷◌, ◌++◌, map, All, arith,
}
use hephaestus.Base.Text.{Bytes, codes, lacks}
use hephaestus.Base.Checked.{
  Result, ok, err, ◌>>=◌, ◌>>◌, guard, Gives, ok-Gives, bind-Gives, guard-Gives,
}
use hephaestus.Bridge.{
  VmError, HbVmConfig, LongVm, Crossing, hb_vm_new, hb_vz_boot, hb_vz_exec,
  hb_vz_exec_snapshot_save, hb_vz_exec_snapshot_restore, hb_vz_pool_restore_long,
  hb_vz_stock_pool_restore_long, hb_vz_long_new, hb_vz_long_restore, hb_vz_long_save,
  hb_vz_snapshot_save, hb_vz_snapshot_restore, hb_vz_sh, hb_rootfs_from_tar, Reply, Swift, c_string,
  path_to_str, path_c, opt_path_cstring, opt_c_string, c_strings, drive_arrays, Called, invoke,
}

abbrev optional : Option Bytes → List Bytes
optional none = []
optional (some p) = p ∷ []

abbrev drive_paths : List (Bytes × Bool) → List Bytes
drive_paths ds = map (λ (path, ro). path) ds

abbrev long_paths : LongVm → List Bytes
long_paths v = v.kernel ∷ v.rootfs ∷ v.log ∷ (optional v.initrd ++ drive_paths v.drives)

-- The paths of a call, and its other texts.
unfoldable pub paths_of : Crossing → List Bytes
paths_of (hb_vm_new c) = c.kernel_path ∷ c.initfs_path ∷ c.rootfs_path ∷ []
paths_of (hb_vz_boot k r l _ _ _) = k ∷ r ∷ l ∷ []
paths_of (hb_vz_exec k i r c l _ _ _ _) = k ∷ i ∷ r ∷ optional l
paths_of (hb_vz_exec_snapshot_save k i r s l _ _) = k ∷ i ∷ r ∷ s ∷ optional l
paths_of (hb_vz_exec_snapshot_restore k i r s c l _ _) = k ∷ i ∷ r ∷ s ∷ optional l
paths_of (hb_vz_pool_restore_long k i r s l _ _) = k ∷ i ∷ r ∷ s ∷ optional l
paths_of (hb_vz_stock_pool_restore_long k r s l _ _) = k ∷ r ∷ s ∷ optional l
paths_of (hb_vz_long_new v) = long_paths v
paths_of (hb_vz_long_restore v s _) = s ∷ long_paths v
paths_of (hb_vz_long_save _ s) = s ∷ []
paths_of (hb_vz_snapshot_save k r l s _ _ _) = k ∷ r ∷ l ∷ s ∷ []
paths_of (hb_vz_snapshot_restore k r l s _ _ _) = k ∷ r ∷ l ∷ s ∷ []
paths_of (hb_vz_sh k r _ _ _) = k ∷ r ∷ []
paths_of (hb_rootfs_from_tar t o _ _) = t ∷ o ∷ []
paths_of _ = []

unfoldable pub texts_of : Crossing → List Bytes
texts_of (hb_vm_new c) = c.id ∷ (optional c.cwd ++ c.argv)
texts_of (hb_vz_exec k i r c l _ _ _ _) = c ∷ []
texts_of (hb_vz_exec_snapshot_restore k i r s c l _ _) = c ∷ []
texts_of (hb_vz_long_new v) = v.boot_args ∷ optional v.mac
texts_of (hb_vz_long_restore v s _) = v.boot_args ∷ optional v.mac
texts_of _ = []

abbrev pub IsText : Bytes → Type 0
IsText t = lacks 0 t ≡ true

abbrev pub IsPath : (Bytes → Bool) → Bytes → Type 0
IsPath is_utf8 p = (is_utf8 p ≡ true) × (lacks 0 p ≡ true)

-- A call that may cross.
abbrev pub IsSendable : (Bytes → Bool) → Crossing → Type 0
IsSendable is_utf8 c = All (IsPath is_utf8) (paths_of c) × All IsText (texts_of c)

pub c_string-Gives : (t : Bytes) → Gives (λ q. (q ≡ t) × IsText q) (c_string t)
unfolding c_string
c_string-Gives t = guard-Gives _ (lacks 0 t) _ _ (λ e. ok-Gives _ _ _ (refl, e))

pub path_c-Gives :
    (is_utf8 : Bytes → Bool) (p label : Bytes)
    → Gives (λ q. (q ≡ p) × IsPath is_utf8 q) (path_c is_utf8 p label)
unfolding path_c path_to_str Gives c_string
path_c-Gives is_utf8 p label = ground arith

pub opt_path_cstring-Gives :
    (is_utf8 : Bytes → Bool) (o : Option Bytes) (label : Bytes)
    → Gives (λ q. (q ≡ o) × All (IsPath is_utf8) (optional q)) (opt_path_cstring is_utf8 o label)
unfolding opt_path_cstring
opt_path_cstring-Gives is_utf8 none label = ok-Gives _ _ _ (refl, tt)
opt_path_cstring-Gives is_utf8 (some p) label =
    bind-Gives _ _ (path_c is_utf8 p label) _ (path_c-Gives is_utf8 p label)
      (λ q (e, h). ok-Gives _ _ _ (ap some e, (h, tt)))

pub opt_c_string-Gives :
    (o : Option Bytes) → Gives (λ q. (q ≡ o) × All IsText (optional q)) (opt_c_string o)
unfolding opt_c_string
opt_c_string-Gives none = ok-Gives _ _ _ (refl, tt)
opt_c_string-Gives (some t) =
    bind-Gives _ _ (c_string t) _ (c_string-Gives t)
      (λ q (e, h). ok-Gives _ _ _ (ap some e, (h, tt)))

pub c_strings-Gives : (ts : List Bytes) → Gives (λ qs. (qs ≡ ts) × All IsText qs) (c_strings ts)
unfolding c_strings
c_strings-Gives [] = ok-Gives _ _ _ (refl, tt)
c_strings-Gives (t ∷ ts) = bind-Gives _ _ (c_string t) _ (c_string-Gives t) λ q (e, h).
    bind-Gives _ _ (c_strings ts) _ (c_strings-Gives ts) λ qs (f, k). ok-Gives _ _ _ ((cc), (h, k))

-- The two arrays of the drives are the drives, in order.
pub drive_arrays-Gives :
    (is_utf8 : Bytes → Bool) (ds : List (Bytes × Bool))
    → Gives (λ qs. (qs ≡ ds) × All (IsPath is_utf8) (drive_paths qs)) (drive_arrays is_utf8 ds)
unfolding drive_arrays
drive_arrays-Gives is_utf8 [] = ok-Gives _ _ _ (refl, tt)
drive_arrays-Gives is_utf8 ((p, ro) ∷ ds) =
    bind-Gives _ _ (path_c is_utf8 p (codes "drive")) _ (path_c-Gives is_utf8 p (codes "drive"))
      λ q (e, h).
        bind-Gives _ _ (drive_arrays is_utf8 ds) _ (drive_arrays-Gives is_utf8 ds)
          λ qs (f, k). ok-Gives _ _ _ ((cc), (h, k))

-- Only a call that was prepared crosses, once.
pub invoke-All :
    {A : Type 0} (P : Crossing → Type 0) (s : Swift) (out : Reply → A) (m : Result VmError Crossing)
    → Gives P m
    → All P (invoke s out m).0
unfolding invoke Gives
invoke-All P s out (ok c) h = (h, tt)
invoke-All P s out (err e) h = tt

-- What may cross is one given call, and it may cross.
abbrev pub Sends : (Bytes → Bool) → Crossing → Crossing → Type 0
Sends is_utf8 sent c = (c ≡ sent) × IsSendable is_utf8 c
