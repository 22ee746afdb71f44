-- ===== src/Pool.antt =====
-- The warm pool of src/hephaestus-pool/src/lib.rs: slots that processes claim by an exclusive
-- flock, restore a snapshot into and release. The disk and the locks are the record `Disk`; what
-- the host answers to one call is the record `Host`.
pub mod Meta
pub mod Claims
pub mod Exclusion
pub mod Init
mod Examples
use Prim.Native.String.{String}
use native.Mathlib.Decide.{ℕ_discrete}
use hephaestus.Base.{
  ℕ, zero, suc, ◌+◌, Bool, true, false, not, ◌&&◌, Option, none, some, if◌then◌else◌, ◌==◌, List,
  [], ◌∷◌, ◌++◌, leb, ltb, max_u64,
}
use hephaestus.Base.Text.{Bytes, codes, bytes_eq}
use hephaestus.Base.Decimal.{format}
use hephaestus.Base.Checked.{Result, ok, err, ◌>>=◌, ◌>>◌, guard, ok_or}

pub data PoolFlavor : Type 0 where
  agent stock_init : PoolFlavor

pub data PoolError : Type 0 where
  already_exists not_a_pool : Bytes → PoolError
  invalid_size : PoolError
  io : String → PoolError
  flock_errno : ℕ → ℕ → PoolError
  bad_meta : PoolError
  cp_failed : PoolError
  vm_save vm_restore : PoolError
  wrong_flavor : PoolFlavor → PoolFlavor → PoolError

pub record PoolMeta : Type 0 where
  pub kernel : Bytes
  pub initramfs : Option Bytes
  pub pristine : Bytes
  pub save : Bytes
  pub slots : ℕ
  pub cpus : ℕ
  pub memory_mib : ℕ
  pub flavor : PoolFlavor

pub record Pool : Type 0 where
  pub dir : Bytes
  pub meta : PoolMeta

-- The open and locked file is the entry of `Disk.locked` at the slot's index.
pub record ClaimedSlot : Type 0 where
  pub index : ℕ
  pub path : Bytes
  pub rootfs : Bytes

pub record PoolMatchSpec : Type 0 where
  pub kernel : Bytes
  pub rootfs : Bytes
  pub vcpu_count : ℕ
  pub memory_mib : ℕ

pub record SlotState : Type 0 where
  pub index : ℕ
  pub busy : Bool
  pub has_rootfs : Bool

-- For each slot: whether some process holds its lock, and whether a clone of the rootfs lies there.
pub record Disk : Type 0 where
  pub locked : ℕ → Bool
  pub has_rootfs : ℕ → Bool

-- `Command::new("cp")`: not started, ended with a failure, or ended well.
pub data CopyAnswer : Type 0 where
  not_spawned copy_failed copied : CopyAnswer

-- What the host answers during one call: opening a lock file, an errno of flock other than
-- EWOULDBLOCK, the copy, the exit code of a restored run, and whether a restore succeeds.
pub record Host : Type 0 where
  pub lock_opens : ℕ → Bool
  pub lock_errno : ℕ → Option ℕ
  pub copy : CopyAnswer
  pub exec_restore : Option ℕ
  pub long_restore : Option ℕ

unfoldable pub update : (ℕ → Bool) → ℕ → Bool → ℕ → Bool
update f i b j = if i == j then b else f j

-- `Path::join`, for a relative second part.
unfoldable pub join : Bytes → Bytes → Bytes
join dir name = dir ++ codes "/" ++ name

unfoldable pub slot_path : Pool → ℕ → Bytes
unfolding join
slot_path p i = join p.dir (codes "slot-" ++ format i)

pub slot : Pool → ℕ → ClaimedSlot
unfolding slot_path join
slot p i = record {
  index = i;
  path = slot_path p i;
  rootfs = join (slot_path p i) (codes "rootfs.ext4");
}

unfoldable pub matches : Pool → PoolMatchSpec → Bool
matches p s =
    bytes_eq p.meta.kernel s.kernel
    && (bytes_eq p.meta.pristine s.rootfs
        && (p.meta.cpus == s.vcpu_count && p.meta.memory_mib == s.memory_mib))

unfoldable pub canonicalize : (Bytes → Option Bytes) → PoolMatchSpec → PoolMatchSpec
canonicalize resolve s = record s { kernel = or_else s.kernel; rootfs = or_else s.rootfs }
  where
    or_else : Bytes → Bytes
    or_else p = elim (resolve p) [ none ↦ p | some q ↦ q ]

-- The loop of `try_claim_slot` over the slots `i`, …, with `n` slots left.
unfoldable pub claim_from :
    Host → Pool → (n i : ℕ) → Disk → Result PoolError (Option ClaimedSlot) × Disk
unfolding slot update
claim_from h p zero i d = (ok none, d)
claim_from h p (suc n) i d =
    let rest = claim_from h p n (i + 1) d in
    if h.lock_opens i
    then elim (h.lock_errno i) [
      | some e ↦ (err (flock_errno i e), d)
      | none ↦
          if d.locked i
          then rest
          else (ok (some (slot p i)), record d { locked = update d.locked i true })
    ]
    else (err (io "open slot lock"), d)

unfoldable pub try_claim_slot : Host → Pool → Disk → Result PoolError (Option ClaimedSlot) × Disk
unfolding claim_from
try_claim_slot h p d = claim_from h p p.meta.slots 0 d

unfoldable pub try_claim_matching_slot :
    Host → Pool → PoolMatchSpec → Disk → Result PoolError (Option ClaimedSlot) × Disk
unfolding matches try_claim_slot
try_claim_matching_slot h p s d = if matches p s then try_claim_slot h p d else (ok none, d)

-- The probe of each slot takes its lock and lets it go again, so the disk stays as it was.
stats_from : Host → Disk → (n i : ℕ) → Result PoolError (List SlotState)
stats_from h d zero i = ok []
stats_from h d (suc n) i =
    let rest = stats_from h d n (i + 1) in
    if h.lock_opens i
    then elim (h.lock_errno i) [
      | some e ↦ err (flock_errno i e)
      | none ↦ rest >>= λ out.
          ok (record { index = i; busy = d.locked i; has_rootfs = d.has_rootfs i } ∷ out)
    ]
    else err (io "open slot lock for stats")

pub stats : Host → Pool → Disk → Result PoolError (List SlotState)
unfolding stats_from
stats h p d = stats_from h d p.meta.slots 0

unfoldable pub clone_file : CopyAnswer → Result PoolError (Unit {0})
clone_file not_spawned = err (io "spawn cp")
clone_file copy_failed = err cp_failed
clone_file copied = ok tt

-- `Drop for ClaimedSlot`: the clone goes, and the lock with the closed file.
unfoldable pub drop_slot : ClaimedSlot → Disk → Disk
unfolding update
drop_slot s d = record {
  locked = update d.locked s.index false;
  has_rootfs = update d.has_rootfs s.index false;
}

put_rootfs : ClaimedSlot → Bool → Disk → Disk
unfolding update
put_rootfs s b d = record d { has_rootfs = update d.has_rootfs s.index b }

unfoldable pub flavor_eq : PoolFlavor → PoolFlavor → Bool
flavor_eq agent agent = true
flavor_eq stock_init stock_init = true
flavor_eq _ _ = false

run_cloned : Host → ClaimedSlot → Disk → Result PoolError ℕ × Disk
unfolding put_rootfs
run_cloned h s d = elim (clone_file h.copy) [
  | err e ↦ (err e, d)
  | ok _ ↦ (ok_or h.exec_restore vm_restore, put_rootfs s false (put_rootfs s true d))
]

pub run : Host → Pool → ClaimedSlot → Disk → Result PoolError ℕ × Disk
unfolding run_cloned clone_file flavor_eq
run h p s d =
    if flavor_eq p.meta.flavor agent
    then elim p.meta.initramfs [ none ↦ (err bad_meta, d) | some _ ↦ run_cloned h s d ]
    else (err (wrong_flavor p.meta.flavor agent), d)

-- An agent pool without an initramfs returns with the clone still in place.
restore_cloned : Host → Pool → ClaimedSlot → Disk → Result PoolError ℕ × Disk
unfolding put_rootfs
restore_cloned h p s d =
    if flavor_eq p.meta.flavor agent && missing p.meta.initramfs
    then (err bad_meta, d)
    else elim h.long_restore [
      | some vm ↦ (ok vm, d)
      | none ↦ (err vm_restore, put_rootfs s false d)
    ]
  where
    missing : Option Bytes → Bool
    missing none = true
    missing (some _) = false

unfoldable pub restore_into_vm : Host → Pool → ClaimedSlot → Disk → Result PoolError ℕ × Disk
unfolding restore_cloned clone_file flavor_eq put_rootfs
restore_into_vm h p s d = elim (clone_file h.copy) [
  | err e ↦ (err e, d)
  | ok _ ↦ restore_cloned h p s (put_rootfs s true d)
]
