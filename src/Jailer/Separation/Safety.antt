-- ===== src/Jailer/Separation/Safety.antt =====
-- No two daemons that run have one uid.
use hephaestus.Base.{ℕ, ◌≡◌, ap, subst, some, arith}
use hephaestus.Base.Text.{Bytes}
use hephaestus.Base.Checked.{ok, err}
use hephaestus.UidRegistry.{Entries}
use hephaestus.Jailer.Registration.{Reads, Resolves}
use hephaestus.Jailer.Resolution.{resolve-Resolves}
use hephaestus.Jailer.Separation.{
  idle, live, is_idle, Site, Step, begins, refused, launches, fails, exits, Steps, stop, more,
  IsSeparated,
}
use hephaestus.Jailer.Separation.Kept.{
  begins-IsSeparated, refused-IsSeparated, exits-IsSeparated, launches-IsSeparated,
  fails-IsSeparated,
}

idle-IsSeparated :
    (v : Site) (es : Entries)
    → ((k : Bytes) → v.phase k ≡ idle)
    → Reads v.root.registry es
    → IsSeparated v es
idle-IsSeparated v es i r = record {
  reads = r;
  valid = λ k a. ground (arith, i k);
  locked = λ k a. ground (arith, i k);
  there = λ k a. ground (arith, i k);
  recorded = λ k n p. ground (arith, i k);
  apart = λ k l n p o. ground (arith, i k);
}

abbrev pub Separated : Site → Type 0
Separated v = (es : Entries) × IsSeparated v es

Step-Separated : {v w : Site} → Step v w → Separated v → Separated w
Step-Separated (begins h id v r i e) (es, q) = (es, begins-IsSeparated h id v r es i e q)
Step-Separated (refused h id v r x e) (es, q) = (es, refused-IsSeparated h id v r x es e q)
Step-Separated (launches h args explicit uid gid v r w a b c e) (es, q) =
    let x : Resolves args.id es v.root (ok (uid, gid), r) =
      subst (Resolves args.id es v.root) e (
        resolve-Resolves h args explicit es v.root w a (q.valid args.id (ap is_idle c)) b
          q.reads) in
    (x.entries, launches-IsSeparated args.id uid v r es x.entries c x.keeps x.settles q)
Step-Separated (fails h args explicit y v r w a b c e) (es, q) =
    let x : Resolves args.id es v.root (err y, r) =
      subst (Resolves args.id es v.root) e (
        resolve-Resolves h args explicit es v.root w a (q.valid args.id (ap is_idle c)) b
          q.reads) in
    (x.entries, fails-IsSeparated args.id v r es x.entries c x.keeps q)
Step-Separated (exits id v a) (es, q) = (es, exits-IsSeparated id v es q)

Steps-Separated : {v w : Site} → Steps v w → Separated v → Separated w
Steps-Separated stop q = q
Steps-Separated (more s t) q = Step-Separated t (Steps-Separated s q)

-- From a work root where nothing runs and whose registry can be read, and whatever launches then
-- begin, fail, run and exit side by side, in any order and with any ranges or explicit uids, as long
-- as none allows a shared uid and the registry can be written: no two daemons that were given a uid
-- and run at one time have the same one.
pub Steps-apart :
    (v w : Site) (es : Entries) (a b : Bytes) (n : ℕ)
    → ((k : Bytes) → v.phase k ≡ idle)
    → Reads v.root.registry es
    → Steps v w
    → w.phase a ≡ live (some n)
    → w.phase b ≡ live (some n)
    → a ≡ b
Steps-apart v w es a b n i r s p o =
    let (fs, q) = Steps-Separated s (es, idle-IsSeparated v es i r) in q.apart a b n p o
