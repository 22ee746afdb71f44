-- ===== src/Pool/Meta.antt =====
-- The metadata file of a pool: `PoolMeta::write` and `PoolMeta::read`, the names of the
-- flavors, and `Pool::open`.
pub mod RoundTrip
use hephaestus.Base.{
  ℕ, Bool, true, Option, none, some, if◌then◌else◌, ◌==◌, List, [], ◌∷◌, ◌++◌, max_u32, max_u64,
}
use hephaestus.Base.Text.{Bytes, codes, bytes_eq, split_once, trim, lines, newline}
use hephaestus.Base.Decimal.{format, parse}
use hephaestus.Base.Checked.{Result, ok, err, ◌>>=◌, ok_or}
use hephaestus.Pool.{
  PoolFlavor, agent, stock_init, PoolError, bad_meta, io, not_a_pool, PoolMeta, Pool, join,
}

unfoldable pub flavor_name : PoolFlavor → Bytes
flavor_name agent = codes "Agent"
flavor_name stock_init = codes "StockInit"

unfoldable pub parse_flavor : Bytes → Result PoolError PoolFlavor
parse_flavor s =
    if bytes_eq s (codes "Agent")
    then ok agent
    else if bytes_eq s (codes "StockInit")
    then ok stock_init
    else err bad_meta

abbrev pub Pairs : Type 0
Pairs = List (Bytes × Bytes)

-- The keys and values of the file, in the order in which they are written.
unfoldable pub numbers_of : PoolMeta → Pairs
numbers_of m =
    (codes "pristine", m.pristine)
    ∷ (codes "save", m.save)
    ∷ (codes "slots", format m.slots)
    ∷ (codes "cpus", format m.cpus)
    ∷ (codes "memory_mib", format m.memory_mib)
    ∷ (codes "flavor", flavor_name m.flavor)
    ∷ []

unfoldable pub pairs_of : PoolMeta → Pairs
unfolding numbers_of
pairs_of m = elim m.initramfs [
  | none ↦ (codes "kernel", m.kernel) ∷ numbers_of m
  | some p ↦ (codes "kernel", m.kernel) ∷ (codes "initramfs", p) ∷ numbers_of m
]

unfoldable pub print_pairs : Pairs → Bytes
print_pairs [] = []
print_pairs ((k, v) ∷ ps) = k ++ b'=' ∷ (v ++ newline ∷ print_pairs ps)

unfoldable pub write : PoolMeta → Bytes
write m = print_pairs (pairs_of m)

-- Empty lines and comments.
unfoldable pub is_skipped : Bytes → Bool
is_skipped [] = true
is_skipped (c ∷ s) = c == b'#'

unfoldable pub add_pair : Bytes → Result PoolError Pairs → Result PoolError Pairs
unfolding is_skipped
add_pair line rest = if is_skipped line then rest else elim (split_once b'=' line) [
  | none ↦ err bad_meta
  | some (k, v) ↦ elim rest [ ok ps ↦ ok ((trim k, trim v) ∷ ps) | err e ↦ err e ]
]

unfoldable pub parse_pairs : List Bytes → Result PoolError Pairs
parse_pairs [] = ok []
parse_pairs (l ∷ ls) = add_pair (trim l) (parse_pairs ls)

-- The map that the lines are inserted into: the last value of a key counts.
unfoldable pub find : Bytes → Pairs → Option Bytes
find k [] = none
find k ((j, v) ∷ ps) = elim (find k ps) [
  | some w ↦ some w
  | none ↦ if bytes_eq j k then some v else none
]

unfoldable pub get : Bytes → Pairs → Result PoolError Bytes
unfolding find
get k ps = ok_or (find k ps) bad_meta

unfoldable pub get_number : ℕ → Bytes → Pairs → Result PoolError ℕ
unfolding get
get_number bound k ps = get k ps >>= λ s. ok_or (parse bound s) bad_meta

unfoldable pub get_flavor : Pairs → Result PoolError PoolFlavor
unfolding find parse_flavor
get_flavor ps = elim (find (codes "flavor") ps) [ none ↦ ok agent | some s ↦ parse_flavor s ]

unfoldable pub from_pairs : Pairs → Result PoolError PoolMeta
unfolding get get_number get_flavor
from_pairs ps = get_flavor ps >>= λ flavor. get (codes "kernel") ps >>= λ kernel.
    get (codes "pristine") ps >>= λ pristine. get (codes "save") ps >>= λ save.
    get_number max_u32 (codes "slots") ps >>= λ slots.
    get_number max_u32 (codes "cpus") ps >>= λ cpus.
    get_number max_u64 (codes "memory_mib") ps >>= λ memory_mib. ok (record {
      kernel = kernel;
      initramfs = find (codes "initramfs") ps;
      pristine = pristine;
      save = save;
      slots = slots;
      cpus = cpus;
      memory_mib = memory_mib;
      flavor = flavor;
    })

unfoldable pub read : Bytes → Result PoolError PoolMeta
read raw = parse_pairs (lines raw) >>= from_pairs

-- The host resolves a path, says whether a file exists, and gives its text if it can be read.
unfoldable pub open_pool :
    (Bytes → Option Bytes) → (Bytes → Bool) → (Bytes → Option Bytes) → Bytes → Result PoolError Pool
open_pool resolve exists contents dir = elim (resolve dir) [
  | none ↦ err (io "canonicalize pool dir")
  | some d ↦
      if exists (join d (codes "meta"))
      then elim (contents (join d (codes "meta"))) [
        | none ↦ err (io "open meta")
        | some raw ↦ read raw >>= λ m. ok (record { dir = d; meta = m })
      ]
      else err (not_a_pool d)
]
