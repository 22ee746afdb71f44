-- ===== src/Pool/Meta/RoundTrip.antt =====
-- What is written of a pool is read back.
use hephaestus.Base.{
  ℕ, ◌≤◌, ◌≡◌, Bool, refl, true, false, Option, none, some, [], ◌∷◌, ◌++◌, All, arith, max_u32,
  max_u64, append_assoc,
}
use hephaestus.Base.Text.{
  Bytes, bytes_eq, codes, lacks, lacks-append, lacks-cons, split, split-append, split_once-append,
  trim, trim_start, trim_end, trim_end-cons, trim_end-append, lines, newline,
}
use hephaestus.Base.Decimal.{
  format, parse-format, format-IsDigit, lacks-digits, trim-digits, trim_end-digits,
}
use hephaestus.Base.Checked.{ok}
use hephaestus.Pool.{PoolMeta, PoolFlavor, agent, stock_init, join}
use hephaestus.Pool.Meta.{
  Pairs, flavor_name, numbers_of, pairs_of, print_pairs, write, is_skipped, add_pair, parse_pairs,
  from_pairs, read, open_pool,
}

-- A key as the file has them: no white space around it, no comment sign, no separator.
pub record IsKey (k : Bytes) : Type 0 where
  pub starts : (s : Bytes) → trim_start (k ++ s) ≡ k ++ s
  pub trimmed : trim k ≡ k
  pub visible : (s : Bytes) → is_skipped (k ++ s) ≡ false
  pub no_equals : lacks b'=' k ≡ true
  pub one_line : lacks newline k ≡ true

-- A value on one line with no white space around it.
pub record IsValue (v : Bytes) : Type 0 where
  pub trimmed : trim v ≡ v
  pub ends : trim_end v ≡ v
  pub one_line : lacks newline v ≡ true

abbrev line_of : Bytes → Bytes → Bytes
line_of k v = k ++ b'=' ∷ v

trim_end-value : (v : Bytes) → trim_end v ≡ v → trim_end (b'=' ∷ v) ≡ b'=' ∷ v
trim_end-value [] e = refl
trim_end-value (c ∷ v) e = trim_end-cons b'=' (c ∷ v) (λ q. cc) e

trim-line_of : (k v : Bytes) → IsKey k → IsValue v → trim (line_of k v) ≡ line_of k v
trim-line_of k v a b =
    rw (a.starts (b'=' ∷ v)) (trim_end-append k (b'=' ∷ v) (λ q. cc) (trim_end-value v b.ends))

add_pair-line_of :
    (k v : Bytes) (ps : Pairs)
    → IsKey k
    → IsValue v
    → add_pair (line_of k v) (ok ps) ≡ ok ((k, v) ∷ ps)
unfolding add_pair
add_pair-line_of k v ps a b =
    ground
      (arith, a.visible (b'=' ∷ v), split_once-append b'=' k v a.no_equals, a.trimmed, b.trimmed)

lacks-line_of : (k v : Bytes) → IsKey k → IsValue v → lacks newline (line_of k v) ≡ true
lacks-line_of k v a b =
    lacks-append newline k (b'=' ∷ v) a.one_line
      (lacks-cons newline b'=' v (λ q. omega arith) b.one_line)

abbrev AllWritable : Pairs → Type 0
AllWritable = All (λ e. IsKey e.0 × IsValue e.1)

parse_pairs-print_pairs :
    (ps : Pairs) → AllWritable ps → parse_pairs (split newline (print_pairs ps)) ≡ ok ps
unfolding parse_pairs print_pairs
parse_pairs-print_pairs [] r = unfold split add_pair is_skipped in refl
parse_pairs-print_pairs ((k, v) ∷ ps) r =
    rw (← append_assoc k (b'=' ∷ v) (newline ∷ print_pairs ps)) (
      rw (split-append newline (line_of k v) (print_pairs ps) (lacks-line_of k v r.0.0 r.0.1)) (
        rw (trim-line_of k v r.0.0 r.0.1, parse_pairs-print_pairs ps r.1)
          (add_pair-line_of k v ps r.0.0 r.0.1)))

-- What of a pool can be written and read: its paths are texts on one line with no white space around
-- them, and its numbers fit their types.
pub record IsWritable (m : PoolMeta) : Type 0 where
  pub kernel : IsValue m.kernel
  pub initramfs : (p : Bytes) → m.initramfs ≡ some p → IsValue p
  pub pristine : IsValue m.pristine
  pub save : IsValue m.save
  pub slots : m.slots ≤ max_u32
  pub cpus : m.cpus ≤ max_u32
  pub memory_mib : m.memory_mib ≤ max_u64

read_pairs :
    (kernel pristine save : Bytes) (slots cpus memory_mib : ℕ) (i : Option Bytes) (f : PoolFlavor)
    → slots ≤ max_u32
    → cpus ≤ max_u32
    → memory_mib ≤ max_u64
    → let m : PoolMeta = record {
      kernel = kernel;
      initramfs = i;
      pristine = pristine;
      save = save;
      slots = slots;
      cpus = cpus;
      memory_mib = memory_mib;
      flavor = f;
    } in
      from_pairs (pairs_of m) ≡ ok m
unfolding from_pairs pairs_of numbers_of flavor_name bytes_eq
read_pairs kernel pristine save slots cpus memory_mib none agent a b c =
    rw
      (parse-format max_u32 slots a, parse-format max_u32 cpus b, parse-format max_u64 memory_mib c)
      refl
read_pairs kernel pristine save slots cpus memory_mib none stock_init a b c =
    rw
      (parse-format max_u32 slots a, parse-format max_u32 cpus b, parse-format max_u64 memory_mib c)
      refl
read_pairs kernel pristine save slots cpus memory_mib (some p) agent a b c =
    rw
      (parse-format max_u32 slots a, parse-format max_u32 cpus b, parse-format max_u64 memory_mib c)
      refl
read_pairs kernel pristine save slots cpus memory_mib (some p) stock_init a b c =
    rw
      (parse-format max_u32 slots a, parse-format max_u32 cpus b, parse-format max_u64 memory_mib c)
      refl

format-IsValue : (n : ℕ) → IsValue (format n)
format-IsValue n = record {
  trimmed = trim-digits (format n) (format-IsDigit n);
  ends = trim_end-digits (format n) (format-IsDigit n);
  one_line = lacks-digits newline (format n) (format-IsDigit n) (omega arith);
}

flavor_name-IsValue : (f : PoolFlavor) → IsValue (flavor_name f)
unfolding flavor_name lacks
flavor_name-IsValue agent = record { trimmed = refl; ends = refl; one_line = refl }
flavor_name-IsValue stock_init = record { trimmed = refl; ends = refl; one_line = refl }

-- What has to be computed of each key.
abbrev Computes : Bytes → Type 0
Computes k =
    ((s : Bytes) → trim_start (k ++ s) ≡ k ++ s)
    × (trim k ≡ k)
    × ((s : Bytes) → is_skipped (k ++ s) ≡ false)
    × (lacks b'=' k ≡ true)
    × (lacks newline k ≡ true)

Computes-IsKey : (k : Bytes) → Computes k → IsKey k
Computes-IsKey k (a, b, c, d, e) = record {
  starts = a;
  trimmed = b;
  visible = c;
  no_equals = d;
  one_line = e;
}

kernel-IsKey : IsKey (codes "kernel")
unfolding is_skipped lacks
kernel-IsKey = Computes-IsKey _ (λ s. refl, refl, λ s. refl, refl, refl)

initramfs-IsKey : IsKey (codes "initramfs")
unfolding is_skipped lacks
initramfs-IsKey = Computes-IsKey _ (λ s. refl, refl, λ s. refl, refl, refl)

numbers_of-AllWritable : (m : PoolMeta) → IsWritable m → AllWritable (numbers_of m)
unfolding numbers_of is_skipped lacks
numbers_of-AllWritable m w = (
  (Computes-IsKey _ (λ s. refl, refl, λ s. refl, refl, refl), w.pristine),
  (
    (Computes-IsKey _ (λ s. refl, refl, λ s. refl, refl, refl), w.save),
    (
      (Computes-IsKey _ (λ s. refl, refl, λ s. refl, refl, refl), format-IsValue m.slots),
      (
        (Computes-IsKey _ (λ s. refl, refl, λ s. refl, refl, refl), format-IsValue m.cpus),
        (
          (Computes-IsKey _ (λ s. refl, refl, λ s. refl, refl, refl), format-IsValue m.memory_mib),
          (
            (
              Computes-IsKey _ (λ s. refl, refl, λ s. refl, refl, refl),
              flavor_name-IsValue m.flavor,
            ),
            tt,
          ),
        ),
      ),
    ),
  ),
)

pairs_of-AllWritable : (m : PoolMeta) → IsWritable m → AllWritable (pairs_of m)
unfolding pairs_of
pairs_of-AllWritable m w = go m.initramfs refl
  where
    go : (i : Option Bytes) → m.initramfs ≡ i → AllWritable (pairs_of m)
    go none e = rw (e) ((kernel-IsKey, w.kernel), numbers_of-AllWritable m w)
    go (some p) e =
        rw (e) (
          (kernel-IsKey, w.kernel),
          ((initramfs-IsKey, w.initramfs p e), numbers_of-AllWritable m w),
        )

-- The metadata of a pool, written and read again, is what it was: for both flavors, with an initramfs
-- and without, for paths on one line with no white space around them and numbers that fit their types.
pub read-write : (m : PoolMeta) → IsWritable m → read (write m) ≡ ok m
unfolding read write lines
read-write m w = rw (parse_pairs-print_pairs (pairs_of m) (pairs_of-AllWritable m w)) (
    read_pairs m.kernel m.pristine m.save m.slots m.cpus m.memory_mib m.initramfs m.flavor w.slots
      w.cpus w.memory_mib)

-- A pool whose directory resolves, and whose metadata file is there and holds what was written of a
-- pool, is opened with its resolved directory and the metadata as they were.
pub open_pool-write :
    (resolve : Bytes → Option Bytes) (exists : Bytes → Bool) (contents : Bytes → Option Bytes)
    (dir d : Bytes) (m : PoolMeta)
    → IsWritable m
    → resolve dir ≡ some d
    → exists (join d (codes "meta")) ≡ true
    → contents (join d (codes "meta")) ≡ some (write m)
    → open_pool resolve exists contents dir ≡ ok (record { dir = d; meta = m })
unfolding open_pool
open_pool-write resolve exists contents dir d m w r e c =
    rw (r, open_pool) (rw (e, c, read-write m w) refl)
