-- ===== src/Pool/Init.antt =====
-- `Pool::init` and `Pool::destroy`: what they do to the file system and through the bridge, in
-- order, with what each step answers.
pub mod Opened
use hephaestus.Base.{
  ℕ, zero, suc, ◌+◌, Bool, true, false, ◌&&◌, ◌||◌, Option, none, some, if◌then◌else◌, ◌==◌, List,
  [], ◌∷◌, ◌++◌, is_none, unwrap_or, map, take,
}
use hephaestus.Base.Text.{Bytes, codes}
use hephaestus.Base.Decimal.{format}
use hephaestus.Base.Checked.{Result, ok, err}
use hephaestus.Bridge.{VmError, Swift, Called, Crossing}
use hephaestus.Bridge.Calls.{vz_exec_snapshot_save, vz_snapshot_save}
use hephaestus.Pool.{
  PoolFlavor, agent, stock_init, PoolError, already_exists, invalid_size, io, bad_meta, vm_save,
  PoolMeta, Pool, CopyAnswer, clone_file, flavor_eq, join,
}
use hephaestus.Pool.Meta.{write}

pub record PoolInit : Type 0 where
  pub dir : Bytes
  pub kernel : Bytes
  pub rootfs_source : Bytes
  pub slots : ℕ
  pub cpus : ℕ
  pub memory_mib : ℕ
  pub flavor : PoolFlavor
  pub initramfs : Option Bytes
  pub settle_seconds : ℕ

-- What was done: a directory or file made, a copy, a call of the bridge, the metadata written.
pub data Act : Type 0 where
  made_dir made_file : Bytes → Act
  copied_file : (source target : Bytes) → Act
  crossed : Crossing → Act
  wrote : (path text : Bytes) → Act

-- Writing a file: it cannot be created, the writing fails after some bytes, or all is written.
pub data WriteAnswer : Type 0 where
  not_created : WriteAnswer
  cut_short : ℕ → WriteAnswer
  whole : WriteAnswer

-- The host: which paths exist and what they resolve to, and whether each step that may fail does.
pub record InitHost : Type 0 where
  pub exists : Bytes → Bool
  pub canonicalize : Bytes → Option Bytes
  pub can_make : Bytes → Bool
  pub copy : CopyAnswer
  pub swift : Swift
  pub writing : WriteAnswer

abbrev pub Acted : Type 0 → Type 0
Acted A = List Act × Result PoolError A

infixl 5 ◌>>=◌ ◌>>◌
unfoldable pub ◌>>=◌ : {A B : Type 0} → Acted A → (A → Acted B) → Acted B
(acts, ok a) >>= f = (acts ++ (f a).0, (f a).1)
(acts, err e) >>= f = (acts, err e)

abbrev pub ◌>>◌ : {B : Type 0} → Acted (Unit {0}) → Acted B → Acted B
m >> k = m >>= λ _. k

-- A step that leaves its act where it succeeds.
abbrev pub attempt : Bool → Act → PoolError → Acted (Unit {0})
attempt true act e = (act ∷ [], ok tt)
attempt false act e = ([], err e)

abbrev refuse_if : Bool → PoolError → Acted (Unit {0})
refuse_if true e = ([], err e)
refuse_if false e = ([], ok tt)

abbrev return : {A : Type 0} → A → Acted A
return a = ([], ok a)

abbrev resolved : Option Bytes → Acted Bytes
resolved none = ([], err (io "canonicalize pool dir"))
resolved (some d) = ([], ok d)

-- `clone_file`, with the act of a copy that was made.
clone : CopyAnswer → Bytes → Bytes → Acted (Unit {0})
unfolding clone_file
clone answer source target = go (clone_file answer)
  where
    go : Result PoolError (Unit {0}) → Acted (Unit {0})
    go (ok _) = (copied_file source target ∷ [], ok tt)
    go (err e) = ([], err e)

-- `map_err(PoolError::VmSave)`.
saved : Called (Unit {0}) → Acted (Unit {0})
saved (calls, ok _) = (map crossed calls, ok tt)
saved (calls, err e) = (map crossed calls, err vm_save)

warm :
    InitHost
    → PoolInit
    → (d : Bytes) → (cpus memory_mib : ℕ) → PoolFlavor
    → Option Bytes
    → Acted (Unit {0})
unfolding saved
warm h a d cpus memory_mib agent (some initramfs) = saved (
    vz_exec_snapshot_save h.swift a.kernel initramfs (join d (codes "pristine.ext4"))
      (join d (codes "save.bin")) none cpus memory_mib)
warm h a d cpus memory_mib agent none = ([], err bad_meta)
warm h a d cpus memory_mib stock_init initramfs = saved (
    vz_snapshot_save h.swift a.kernel (join d (codes "pristine.ext4")) (join d (codes "save.log"))
      (join d (codes "save.bin")) cpus memory_mib a.settle_seconds)

-- `PoolMeta::write`.
write_meta : WriteAnswer → Bytes → PoolMeta → Acted (Unit {0})
write_meta not_created path meta = ([], err (io "write meta"))
write_meta (cut_short n) path meta =
    (wrote path (take n (write meta)) ∷ [], err (io "write meta body"))
write_meta whole path meta = (wrote path (write meta) ∷ [], ok tt)

unfoldable pub slot_dir : Bytes → ℕ → Bytes
slot_dir d i = join d (codes "slot-" ++ format i)

-- The directories of `n` slots from `i` on, each with its lock file.
unfoldable pub make_slots : InitHost → Bytes → (n i : ℕ) → Acted (Unit {0})
unfolding ◌>>=◌ slot_dir
make_slots h d zero i = return tt
make_slots h d (suc n) i = do
  attempt (h.can_make (slot_dir d i)) (made_dir (slot_dir d i)) (io "create slot dir")
  let lock : Bytes = join (slot_dir d i) (codes "lock")
  attempt (h.can_make lock) (made_file lock) (io "create slot lock")
  make_slots h d n (i + 1)

abbrev or_default : ℕ → ℕ → ℕ
or_default default n = if n == 0 then default else n

unfoldable pub init_meta : InitHost → PoolInit → Bytes → PoolMeta
init_meta h a d = record {
  kernel = resolve a.kernel;
  initramfs = resolve_some a.initramfs;
  pristine = join d (codes "pristine.ext4");
  save = join d (codes "save.bin");
  slots = a.slots;
  cpus = or_default 2 a.cpus;
  memory_mib = or_default 512 a.memory_mib;
  flavor = a.flavor;
}
  where
    resolve : Bytes → Bytes
    resolve p = unwrap_or (h.canonicalize p) p

    resolve_some : Option Bytes → Option Bytes
    resolve_some none = none
    resolve_some (some p) = some (resolve p)

-- From the clone on, in the resolved directory.
pub fill : InitHost → PoolInit → Bytes → Acted Pool
fill h a d = do
  clone h.copy a.rootfs_source (join d (codes "pristine.ext4"))
  warm h a d (or_default 2 a.cpus) (or_default 512 a.memory_mib) a.flavor a.initramfs
  make_slots h d a.slots 0
  let meta : PoolMeta = init_meta h a d
  write_meta h.writing (join d (codes "meta")) meta
  return (record { dir = d; meta = meta })

pub init : InitHost → PoolInit → Acted Pool
init h a = do
  refuse_if (h.exists a.dir) (already_exists a.dir)
  refuse_if (a.slots == 0) invalid_size
  refuse_if (flavor_eq a.flavor agent && is_none a.initramfs) bad_meta
  attempt (h.can_make a.dir) (made_dir a.dir) (io "create pool dir")
  d ← resolved (h.canonicalize a.dir)
  fill h a d

-- Whether the directory exists, and whether it can be removed: the error, and whether it is gone.
unfoldable pub destroy : (exists removed : Bool) → Result PoolError (Unit {0}) × Bool
destroy false removed = (ok tt, false)
destroy true true = (ok tt, true)
destroy true false = (err (io "remove pool dir"), false)
