-- ===== src/Pool/Init/Opened.antt =====
-- What the next `Pool::open` finds after an initialisation.
use mathlib.Core.Path.{fun_ext}
use hephaestus.Base.{
  ap, ℕ, zero, suc, ◌+◌, ◌≡◌, ◌≢◌, ◌⊎◌, inl, inr, refl, Bool, true, false, Option, none, some,
  if◌then◌else◌, List, [], ◌∷◌, ◌++◌, is_some, arith, map,
}
use hephaestus.Base.Text.{Bytes, codes, bytes_eq, bytes_eq_refl}
use hephaestus.Base.Checked.{Result, ok, err}
use hephaestus.Bridge.{Called, Crossing}
use hephaestus.Bridge.Calls.{vz_exec_snapshot_save, vz_snapshot_save}
use hephaestus.Pool.{
  CopyAnswer, not_spawned, copy_failed, copied, PoolError, io, Pool, join, agent, stock_init,
  PoolFlavor, clone_file,
}
use hephaestus.Pool.Meta.{write, open_pool}
use hephaestus.Pool.Meta.RoundTrip.{IsWritable, open_pool-write}
use hephaestus.Pool.Init.{
  PoolInit, Act, made_dir, made_file, copied_file, crossed, wrote, InitHost, Acted, ◌>>=◌, ◌>>◌,
  attempt, refuse_if, resolved, WriteAnswer, not_created, cut_short, whole, init_meta, fill, init,
  write_meta, clone, warm, saved, make_slots,
}

-- What a file holds after some acts: the last text written to it.
pub text_at : Bytes → List Act → Option Bytes
text_at f [] = none
text_at f (wrote g text ∷ acts) = elim (text_at f acts) [
  | some later ↦ some later
  | none ↦ if bytes_eq g f then some text else none
]
text_at f (made_dir g ∷ acts) = text_at f acts
text_at f (made_file g ∷ acts) = text_at f acts
text_at f (copied_file g k ∷ acts) = text_at f acts
text_at f (crossed c ∷ acts) = text_at f acts

text_at-append :
    (f t : Bytes) (xs ys : List Act) → text_at f ys ≡ some t → text_at f (xs ++ ys) ≡ some t
unfolding text_at
text_at-append f t [] ys e = e
text_at-append f t (wrote g text ∷ xs) ys e = ground (arith, text_at-append f t xs ys e)
text_at-append f t (made_dir g ∷ xs) ys e = text_at-append f t xs ys e
text_at-append f t (made_file g ∷ xs) ys e = text_at-append f t xs ys e
text_at-append f t (copied_file g k ∷ xs) ys e = text_at-append f t xs ys e
text_at-append f t (crossed c ∷ xs) ys e = text_at-append f t xs ys e

-- A step that writes no file, whatever it answers.
abbrev Silent : List Act → Type 0
Silent [] = Unit
Silent (wrote g text ∷ acts) = ⊥
Silent (made_dir g ∷ acts) = Silent acts
Silent (made_file g ∷ acts) = Silent acts
Silent (copied_file g k ∷ acts) = Silent acts
Silent (crossed c ∷ acts) = Silent acts

text_at-Silent : (f : Bytes) (acts : List Act) → Silent acts → text_at f acts ≡ none
unfolding text_at
text_at-Silent f [] s = refl
text_at-Silent f (made_dir g ∷ acts) s = text_at-Silent f acts s
text_at-Silent f (made_file g ∷ acts) s = text_at-Silent f acts s
text_at-Silent f (copied_file g k ∷ acts) s = text_at-Silent f acts s
text_at-Silent f (crossed c ∷ acts) s = text_at-Silent f acts s
text_at-Silent f (wrote g text ∷ acts) s = absurd s

Silent-append : (xs ys : List Act) → Silent xs → Silent ys → Silent (xs ++ ys)
Silent-append [] ys s t = t
Silent-append (made_dir g ∷ xs) ys s t = Silent-append xs ys s t
Silent-append (made_file g ∷ xs) ys s t = Silent-append xs ys s t
Silent-append (copied_file g k ∷ xs) ys s t = Silent-append xs ys s t
Silent-append (crossed c ∷ xs) ys s t = Silent-append xs ys s t
Silent-append (wrote g text ∷ xs) ys s t = absurd s

Silent-crossed : (cs : List Crossing) → Silent (map crossed cs)
Silent-crossed [] = tt
Silent-crossed (c ∷ cs) = Silent-crossed cs

-- The error of a metadata file that was begun and not ended.
abbrev pub body_error : PoolError
body_error = io "write meta body"

module _ (h : InitHost) (a : PoolInit) where
  -- How an initialisation may end: with the pool and its metadata written, or with no file written,
  -- or in the middle of the metadata.
  GoodEnd : Acted Pool → Type 0
  GoodEnd (acts, ok p) =
      (h.canonicalize a.dir ≡ some p.dir)
      × (p.meta ≡ init_meta h a p.dir)
      × (text_at (join p.dir (codes "meta")) acts ≡ some (write p.meta))
  GoodEnd (acts, err e) = (e ≡ body_error) ⊎ Silent acts

  GoodEnd-append :
      (xs : List Act) (m : Acted Pool) → Silent xs → GoodEnd m → GoodEnd (xs ++ m.0, m.1)
  unfolding GoodEnd
  GoodEnd-append xs (acts, ok p) s (c, q, w) =
      (c, q, text_at-append (join p.dir (codes "meta")) (write p.meta) xs acts w)
  GoodEnd-append xs (acts, err e) s (inl q) = inl q
  GoodEnd-append xs (acts, err e) s (inr t) = inr (Silent-append xs acts s t)

  bind-GoodEnd :
      {A : Type 0} (m : Acted A) (f : A → Acted Pool)
      → Silent m.0
      → ((x : A) → m.1 ≡ ok x → GoodEnd (f x))
      → GoodEnd (m >>= f)
  unfolding ◌>>=◌ GoodEnd
  bind-GoodEnd (acts, ok x) f s k = GoodEnd-append acts (f x) s (k x refl)
  bind-GoodEnd (acts, err e) f s k = inr s

  clone-Silent : (answer : CopyAnswer) (f g : Bytes) → Silent (clone answer f g).0
  unfolding clone clone_file
  clone-Silent not_spawned f g = tt
  clone-Silent copy_failed f g = tt
  clone-Silent copied f g = tt

  saved-Silent : (c : Called (Unit {0})) → Silent (saved c).0
  unfolding saved
  saved-Silent (cs, ok _) = Silent-crossed cs
  saved-Silent (cs, err e) = Silent-crossed cs

  warm-Silent :
      (d : Bytes) (cpus memory_mib : ℕ) (flavor : PoolFlavor) (initramfs : Option Bytes)
      → Silent (warm h a d cpus memory_mib flavor initramfs).0
  unfolding warm
  warm-Silent d cpus memory_mib agent (some i) = saved-Silent (
      vz_exec_snapshot_save h.swift a.kernel i (join d (codes "pristine.ext4"))
        (join d (codes "save.bin")) none cpus memory_mib)
  warm-Silent d cpus memory_mib agent none = tt
  warm-Silent d cpus memory_mib stock_init i = saved-Silent (
      vz_snapshot_save h.swift a.kernel (join d (codes "pristine.ext4")) (join d (codes "save.log"))
        (join d (codes "save.bin")) cpus memory_mib a.settle_seconds)

  attempt-Silent-dir : (b : Bool) (p : Bytes) (e : PoolError) → Silent (attempt b (made_dir p) e).0
  attempt-Silent-dir true p e = tt
  attempt-Silent-dir false p e = tt

  make_slots-Silent : (d : Bytes) (n i : ℕ) → Silent (make_slots h d n i).0
  unfolding ◌>>=◌ make_slots
  make_slots-Silent d zero i = tt
  make_slots-Silent d (suc n) i = ground (arith, make_slots-Silent d n (i + 1))

  write_meta-GoodEnd :
      (w : WriteAnswer) (d : Bytes)
      → h.canonicalize a.dir ≡ some d
      → GoodEnd (
          write_meta w (join d (codes "meta")) (init_meta h a d)
          >> ([], ok (record { dir = d; meta = init_meta h a d })))
  unfolding ◌>>=◌ GoodEnd write_meta text_at
  write_meta-GoodEnd not_created d c = inr tt
  write_meta-GoodEnd (cut_short n) d c = inl refl
  write_meta-GoodEnd whole d c = (c, refl, rw (bytes_eq_refl (join d (codes "meta"))) refl)

  fill-GoodEnd : (d : Bytes) → h.canonicalize a.dir ≡ some d → GoodEnd (fill h a d)
  unfolding fill
  fill-GoodEnd d c = bind-GoodEnd _ _ (clone-Silent h.copy _ _) λ _ _.
      bind-GoodEnd _ _ (warm-Silent _ _ _ _ _)
        λ _ _. bind-GoodEnd _ _ (make_slots-Silent _ _ _) λ _ _. write_meta-GoodEnd h.writing d c

  refuse_if-Silent : (b : Bool) (e : PoolError) → Silent (refuse_if b e).0
  refuse_if-Silent true e = tt
  refuse_if-Silent false e = tt

  resolved-Silent : (o : Option Bytes) → Silent (resolved o).0
  resolved-Silent none = tt
  resolved-Silent (some d) = tt

  resolved-ok : (o : Option Bytes) (d : Bytes) → (resolved o).1 ≡ ok d → o ≡ some d
  resolved-ok none d e = cc
  resolved-ok (some b) d e = cc

  init-GoodEnd : GoodEnd (init h a)
  unfolding init
  init-GoodEnd = bind-GoodEnd _ _ (refuse_if-Silent _ _) λ _ _.
      bind-GoodEnd _ _ (refuse_if-Silent _ _) λ _ _. bind-GoodEnd _ _ (refuse_if-Silent _ _) λ _ _.
        bind-GoodEnd _ _ (attempt-Silent-dir _ _ _) λ _ _.
          bind-GoodEnd _ _ (resolved-Silent (h.canonicalize a.dir))
            λ d e. fill-GoodEnd d (resolved-ok (h.canonicalize a.dir) d e)

-- What `Pool::open` makes of the directory, by what the files there hold.
abbrev pub opens_as : InitHost → PoolInit → (Bytes → Option Bytes) → Result PoolError Pool
opens_as h a texts = open_pool h.canonicalize (λ f. is_some (texts f)) texts a.dir

-- What the files hold after some acts, on a disk where they held `old`.
abbrev pub texts_after : (Bytes → Option Bytes) → List Act → Bytes → Option Bytes
texts_after old acts f = elim (text_at f acts) [ none ↦ old f | some text ↦ some text ]

-- What `Pool::open` makes of the directory after an initialisation, if nothing else writes there.
abbrev pub reopened : InitHost → PoolInit → (Bytes → Option Bytes) → Result PoolError Pool
reopened h a old = opens_as h a (texts_after old (init h a).0)

opens_as-Silent :
    (h : InitHost) (a : PoolInit) (old : Bytes → Option Bytes) (acts : List Act)
    → Silent acts
    → opens_as h a (texts_after old acts) ≡ opens_as h a old
opens_as-Silent h a old acts s =
    ap (opens_as h a) (fun_ext (λ f. rw (text_at-Silent f acts s, texts_after) refl))

init-exists :
    (h : InitHost) (a : PoolInit) (p : Pool) → (init h a).1 ≡ ok p → h.exists a.dir ≡ false
unfolding init ◌>>=◌
init-exists h a p e = go (h.exists a.dir) refl
  where
    go : (b : Bool) → h.exists a.dir ≡ b → h.exists a.dir ≡ false
    go false q = q
    go true q = absurd (ground arith)

-- On a disk that holds any files. An initialisation that succeeds found no directory there, and leaves
-- a pool that opens as the pool it returned, where the paths can be written on a line of the metadata
-- and the numbers fit their types. One that fails leaves a directory that opens as it did before, an
-- older pool whole and nothing where there was none, unless it failed in the middle of writing the
-- metadata.
pub reopened-init :
    (h : InitHost) (a : PoolInit) (old : Bytes → Option Bytes)
    → ((p : Pool)
        → (init h a).1 ≡ ok p
        → (h.exists a.dir ≡ false) × (IsWritable p.meta → reopened h a old ≡ ok p))
      × ((e : PoolError)
          → (init h a).1 ≡ err e
          → e ≢ body_error
          → reopened h a old ≡ opens_as h a old)
unfolding GoodEnd
reopened-init h a old =
    let (succeeds, fails) = go (init h a) (init-GoodEnd h a) in
    (λ p e. (init-exists h a p e, succeeds p e), fails)
  where
    go :
        (m : Acted Pool)
        → GoodEnd h a m
        → ((p : Pool) → m.1 ≡ ok p → IsWritable p.meta → opens_as h a (texts_after old m.0) ≡ ok p)
          × ((e : PoolError)
              → m.1 ≡ err e
              → e ≢ body_error
              → opens_as h a (texts_after old m.0) ≡ opens_as h a old)
    go (acts, ok q) (c, r, w) = (
      λ p e v. ground (
        arith,
        open_pool-write h.canonicalize (λ f. is_some (texts_after old acts f))
            (texts_after old acts) a.dir q.dir q.meta,
      ),
      λ e f. absurd (ground arith),
    )
    go (acts, err e) (inl b) = (λ p f. absurd (ground arith), λ f r n. absurd (n (cc)))
    go (acts, err e) (inr s) =
        (λ p f. absurd (ground arith), λ f r n. opens_as-Silent h a old acts s)
