-- ===== src/Jailer/Separation/Kept.antt =====
-- Each step of a launch keeps running daemons apart.
use hephaestus.Base.{
  ℕ, ◌≡◌, ◌≢◌, inl, inr, sym, ◌∙◌, ap, subst, true, false, Option, some, arith, Bool-cases,
}
use hephaestus.Base.Text.{Bytes, bytes_eq, bytes_eq_iff}
use hephaestus.Base.Checked.{ok, err}
use hephaestus.UidRegistry.{Entries, find_uid}
use hephaestus.Jailer.{JailerError, Root, Host, lock_file, set_held, is_absent}
use hephaestus.Jailer.Locks.{acquire_instance_lock, release_lock}
use hephaestus.Jailer.Claims.{Attempts, acquire_instance_lock-Attempts}
use hephaestus.Jailer.Identity.{validate_id}
use hephaestus.Jailer.Registration.{Reads, IsFree, Keeps, Settled}
use hephaestus.Jailer.Separation.{idle, claimed, live, is_idle, Site, enter, IsSeparated}

pub begins-IsSeparated :
    (h : Host) (id : Bytes) (v : Site) (r : Root) (es : Entries)
    → validate_id id ≡ ok tt
    → acquire_instance_lock h id v.root ≡ (ok tt, r)
    → IsSeparated v es
    → IsSeparated (enter id claimed r v) es
unfolding enter validate_id
begins-IsSeparated h id v r es ok_id e q =
    let a : Attempts id v.root (ok tt, r) =
      subst (Attempts id v.root) e (acquire_instance_lock-Attempts h id v.root) in
    record {
      reads = subst (λ x. Reads x es) (sym a.registry) q.reads;
      valid = λ k i. ground (arith, bytes_eq_iff k id, q.valid k);
      locked = λ k i. ground (arith, q.locked k, a.outcome.held k);
      there = λ k i. ground (arith, bytes_eq_iff k id, q.there k, a.outcome.there, a.kept k);
      recorded = λ k n p. ground (arith, q.recorded k n);
      apart = λ k l n p o. ground (arith, q.apart k l n);
    }

pub refused-IsSeparated :
    (h : Host) (id : Bytes) (v : Site) (r : Root) (x : JailerError) (es : Entries)
    → acquire_instance_lock h id v.root ≡ (err x, r)
    → IsSeparated v es
    → IsSeparated (record v { root = r }) es
refused-IsSeparated h id v r x es e q =
    let a : Attempts id v.root (err x, r) =
      subst (Attempts id v.root) e (acquire_instance_lock-Attempts h id v.root) in
    record {
      reads = subst (λ x. Reads x es) (sym a.registry) q.reads;
      valid = q.valid;
      locked = λ k i. ap (λ f. f k) a.outcome ∙ q.locked k i;
      there = λ k i. a.kept k (q.there k i);
      recorded = q.recorded;
      apart = q.apart;
    }

pub exits-IsSeparated :
    (id : Bytes) (v : Site) (es : Entries)
    → IsSeparated v es
    → IsSeparated (enter id idle (release_lock id v.root) v) es
unfolding enter release_lock set_held
exits-IsSeparated id v es q = record {
  reads = q.reads;
  valid = λ k i. ground (arith, q.valid k);
  locked = λ k i. ground (arith, q.locked k);
  there = λ k i. ground (arith, q.there k);
  recorded = λ k n p. ground (arith, q.recorded k n);
  apart = λ k l n p o. ground (arith, q.apart k l n);
}

-- A daemon that runs holds its lock, so an instance cannot have been given its uid.
live-distinct :
    (id l : Bytes) (n : ℕ) (v : Site) (r : Root) (es fs : Entries)
    → IsSeparated v es
    → Keeps id es v.root r fs
    → Settled id r fs (some n)
    → v.phase l ≡ live (some n)
    → id ≢ l
    → ⊥
live-distinct id l n v r es fs q keeps settled p d =
    let active : is_idle (v.phase l) ≡ false = ap is_idle p in
    let found : find_uid l fs ≡ some n = keeps.others l d ∙ q.recorded l n p in
    let free : IsFree r l = settled.1 l found d (q.valid l active) in
    let held : r.held l ≡ true = ap (λ f. f l) keeps.held ∙ q.locked l active in
    let there : is_absent (r.entry l lock_file) ≡ false =
      ap (λ f. is_absent (f l lock_file)) keeps.entry ∙ q.there l active in
    elim free [ inl a ↦ ground (arith, a, there) | inr a ↦ ground (arith, a, held) ]

enter-own :
    (id k : Bytes) (n : ℕ) (uid : Option ℕ) (v : Site) (r : Root)
    → bytes_eq k id ≡ true
    → (enter id (live uid) r v).phase k ≡ live (some n)
    → uid ≡ some n
unfolding enter
enter-own id k n uid v r e p = ground arith

enter-other :
    (id k : Bytes) (n : ℕ) (uid : Option ℕ) (v : Site) (r : Root)
    → bytes_eq k id ≡ false
    → (enter id (live uid) r v).phase k ≡ live (some n)
    → v.phase k ≡ live (some n)
unfolding enter
enter-other id k n uid v r e p = ground arith

launched-recorded :
    (id k : Bytes) (n : ℕ) (uid : Option ℕ) (v : Site) (r : Root) (es fs : Entries)
    → IsSeparated v es
    → Keeps id es v.root r fs
    → Settled id r fs uid
    → (enter id (live uid) r v).phase k ≡ live (some n)
    → find_uid k fs ≡ some n
launched-recorded id k n uid v r es fs q keeps settled p = elim (Bool-cases (bytes_eq k id)) [
  | inl i ↦
      let own : Settled id r fs (some n) =
        subst (Settled id r fs) (enter-own id k n uid v r i p) settled in
      let same : k ≡ id = (bytes_eq_iff k id).0 i in
      subst (λ x. find_uid x fs ≡ some n) (sym same) own.0
  | inr i ↦
      keeps.others k (λ e. ground (arith, bytes_eq_iff k id, e, i))
      ∙ q.recorded k n (enter-other id k n uid v r i p)
]

launched-apart :
    (id k l : Bytes) (n : ℕ) (uid : Option ℕ) (v : Site) (r : Root) (es fs : Entries)
    → IsSeparated v es
    → Keeps id es v.root r fs
    → Settled id r fs uid
    → (enter id (live uid) r v).phase k ≡ live (some n)
    → (enter id (live uid) r v).phase l ≡ live (some n)
    → k ≡ l
launched-apart id k l n uid v r es fs q keeps settled p o = elim (Bool-cases (bytes_eq k id)) [
  | inl i ↦ elim (Bool-cases (bytes_eq l id)) [
    | inl j ↦ ground (arith, bytes_eq_iff k id, bytes_eq_iff l id, i, j)
    | inr j ↦ absurd (
        live-distinct id l n v r es fs q keeps
          (subst (Settled id r fs) (enter-own id k n uid v r i p) settled)
          (enter-other id l n uid v r j o) (λ e. ground (arith, bytes_eq_iff l id, e, j)))
  ]
  | inr i ↦ elim (Bool-cases (bytes_eq l id)) [
    | inl j ↦ absurd (
        live-distinct id k n v r es fs q keeps
          (subst (Settled id r fs) (enter-own id l n uid v r j o) settled)
          (enter-other id k n uid v r i p) (λ e. ground (arith, bytes_eq_iff k id, e, i)))
    | inr j ↦ q.apart k l n (enter-other id k n uid v r i p) (enter-other id l n uid v r j o)
  ]
]

pub launches-IsSeparated :
    (id : Bytes) (uid : Option ℕ) (v : Site) (r : Root) (es fs : Entries)
    → v.phase id ≡ claimed
    → Keeps id es v.root r fs
    → Settled id r fs uid
    → IsSeparated v es
    → IsSeparated (enter id (live uid) r v) fs
unfolding enter
launches-IsSeparated id uid v r es fs c keeps settled q =
    let active : is_idle (v.phase id) ≡ false = ap is_idle c in
    record {
      reads = keeps.reads;
      valid = λ k i. ground (arith, bytes_eq_iff k id, q.valid k, active);
      locked =
          λ k i. ap (λ f. f k) keeps.held ∙ ground (arith, bytes_eq_iff k id, q.locked k, active);
      there = λ k i.
          ap (λ f. is_absent (f k lock_file)) keeps.entry
          ∙ ground (arith, bytes_eq_iff k id, q.there k, active);
      recorded = λ k n p. launched-recorded id k n uid v r es fs q keeps settled p;
      apart = λ k l n p o. launched-apart id k l n uid v r es fs q keeps settled p o;
    }

pub fails-IsSeparated :
    (id : Bytes) (v : Site) (r : Root) (es fs : Entries)
    → v.phase id ≡ claimed
    → Keeps id es v.root r fs
    → IsSeparated v es
    → IsSeparated (enter id idle (release_lock id r) v) fs
unfolding enter release_lock set_held
fails-IsSeparated id v r es fs c keeps q = record {
  reads = keeps.reads;
  valid = λ k i. ground (arith, q.valid k);
  locked = λ k i. ground (arith, q.locked k, ap (λ f. f k) keeps.held);
  there = λ k i. ap (λ f. is_absent (f k lock_file)) keeps.entry ∙ ground (arith, q.there k);
  recorded = λ k n p. ground (arith, q.recorded k n, keeps.others k, bytes_eq_iff k id);
  apart = λ k l n p o. ground (arith, q.apart k l n);
}
