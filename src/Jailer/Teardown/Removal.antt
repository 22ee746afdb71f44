-- ===== src/Jailer/Teardown/Removal.antt =====
-- What the removal of paths changes.
use hephaestus.Base.{◌≡◌, refl, sym, inl, inr, ap, subst, ◌∙◌, true, false, Bool, arith, Bool-cases}
use hephaestus.Base.Text.{Bytes, bytes_eq_iff}
use hephaestus.Base.Checked.{Result, ok, err}
use hephaestus.Jailer.{
  JailerError, Entry, work_dir, api_sock, profile, stdout_log, stderr_log, lock_file, Root, Host,
  Action, ◌>>=◌, ◌>>◌, require, set_entry, entry_eq, is_absent,
}
use hephaestus.Jailer.Prepare.{unlink, remove_entry, remove_if_there}

-- A success of two steps is one of each.
pub bind-ok :
    {A B : Type 0} (m : Action A) (f : A → Action B) (s t : Root) (b : B)
    → (m >>= f) s ≡ (ok b, t)
    → (a : A) × (s' : Root) × (m s ≡ (ok a, s')) × (f a s' ≡ (ok b, t))
bind-ok {A} {B} m f s t b e = go (m s) refl e
  where
    go :
        (x : Result JailerError A × Root)
        → m s ≡ x
        → (elim x.0 as (λ _. Result JailerError B × Root) [ ok a ↦ f a x.1 | err y ↦ (err y, x.1) ])
          ≡ (ok b, t)
        → (a : A) × (s' : Root) × (m s ≡ (ok a, s')) × (f a s' ≡ (ok b, t))
    go (ok a, s') p q = (a, s', p, q)
    go (err y, s') p q = cc

-- What the removal of paths changes.
pub record Removes (s s' : Root) : Type 0 where
  pub registry : s'.registry ≡ s.registry
  pub held : s'.held ≡ s.held
  pub gone :
      (k : Bytes) (f : Entry) → is_absent (s.entry k f) ≡ true → is_absent (s'.entry k f) ≡ true

unlink-Removes : (id : Bytes) (e : Entry) (s : Root) → Removes s (unlink id e s)
unfolding unlink set_entry
unlink-Removes id e s = record {
  registry = ground arith;
  held = ground arith;
  gone = λ k f a. ground arith;
}

entry_eq_refl : (e : Entry) → entry_eq e e ≡ true
entry_eq_refl work_dir = refl
entry_eq_refl api_sock = refl
entry_eq_refl profile = refl
entry_eq_refl stdout_log = refl
entry_eq_refl stderr_log = refl
entry_eq_refl lock_file = refl

unlink-absent : (id : Bytes) (e : Entry) (s : Root) → is_absent ((unlink id e s).entry id e) ≡ true
unfolding unlink set_entry
unlink-absent id e s = ground (arith, bytes_eq_iff id id, entry_eq_refl e)

remove_if_there-none :
    (h : Host) (id : Bytes) (e : Entry) (s : Root)
    → is_absent (s.entry id e) ≡ true
    → remove_if_there h id e s ≡ (ok tt, s)
unfolding remove_if_there remove_entry
remove_if_there-none h id e s a = ground arith

remove_if_there-some :
    (h : Host) (id : Bytes) (e : Entry) (s s' : Root)
    → is_absent (s.entry id e) ≡ false
    → remove_if_there h id e s ≡ (ok tt, s')
    → unlink id e s ≡ s'
unfolding remove_if_there remove_entry
remove_if_there-some h id e s s' a p = ground arith

-- After a removal the path is not there.
abbrev pub Removed : Bytes → Entry → Root → Root → Type 0
Removed id e s s' = Removes s s' × (is_absent (s'.entry id e) ≡ true)

pub remove_if_there-Removed :
    (h : Host) (id : Bytes) (e : Entry) (s s' : Root)
    → remove_if_there h id e s ≡ (ok tt, s')
    → Removed id e s s'
remove_if_there-Removed h id e s s' p = elim (Bool-cases (is_absent (s.entry id e))) [
  | inl a ↦
      let same : s ≡ s' = ap (λ x. x.1) (sym (remove_if_there-none h id e s a) ∙ p) in
      subst (Removed id e s) same (record { registry = refl; held = refl; gone = λ k f b. b }, a)
  | inr a ↦
      subst (Removed id e s) (remove_if_there-some h id e s s' a p)
        (unlink-Removes id e s, unlink-absent id e s)
]

pub Removes-trans : (s t u : Root) → Removes s t → Removes t u → Removes s u
Removes-trans s t u p q = record {
  registry = q.registry ∙ p.registry;
  held = q.held ∙ p.held;
  gone = λ k f a. q.gone k f (p.gone k f a);
}

pub require-ok :
    {B : Type 0} (b : Bool) (e : JailerError) (m : Action B) (x : B) (s t : Root)
    → (require b e >> m) s ≡ (ok x, t)
    → m s ≡ (ok x, t)
require-ok true e m x s t p = p
require-ok false e m x s t p = cc
