-- ===== src/Jailer/Claims.antt =====
-- What an attempt to claim an instance changes.
use hephaestus.Base.{
  ℕ, zero, suc, ◌≡◌, refl, ◌∙◌, true, false, Bool, not, arith, if◌then◌else◌, is_none,
}
use hephaestus.Base.Text.{Bytes, bytes_eq, bytes_eq_iff}
use hephaestus.Base.Checked.{Result, ok, err}
use hephaestus.Jailer.{
  JailerError, lock_error, instance_busy, Action, Root, Host, Done, ◌>>=◌, ◌>>◌, require, modify,
  get, lock_file, set_entry, set_held, is_absent,
}
use hephaestus.Jailer.Locks.{create_lock_file, attempt_lock, acquire_instance_lock}

create_lock_file-kept :
    (id k : Bytes) (s : Root)
    → is_absent (s.entry k lock_file) ≡ false
    → is_absent ((create_lock_file id s).entry k lock_file) ≡ false
unfolding create_lock_file set_entry
create_lock_file-kept id k s e = ground (arith, bytes_eq_iff k id)

create_lock_file-there :
    (id : Bytes) (s : Root) → is_absent ((create_lock_file id s).entry id lock_file) ≡ false
unfolding create_lock_file set_entry
create_lock_file-there id s = ground (arith, bytes_eq_iff id id)

create_lock_file-rest :
    (id : Bytes) (s : Root)
    → let s' = create_lock_file id s in (s'.held ≡ s.held) × (s'.registry ≡ s.registry)
unfolding create_lock_file set_entry
create_lock_file-rest id s = (ground arith, ground arith)

-- What holds after a claim, and after an attempt that failed.
pub record Claims (id : Bytes) (s s' : Root) : Type 0 where
  pub free : s.held id ≡ false
  pub there : is_absent (s'.entry id lock_file) ≡ false
  pub held : (k : Bytes) → s'.held k ≡ (if bytes_eq k id then true else s.held k)

abbrev pub Outcome : Bytes → Root → Root → Result JailerError Done → Type 0
Outcome id s s' (ok _) = Claims id s s'
Outcome id s s' (err _) = s'.held ≡ s.held

pub record Attempts (id : Bytes) (s : Root) (x : Result JailerError Done × Root) : Type 0 where
  pub registry : x.1.registry ≡ s.registry
  pub kept :
      (k : Bytes)
      → is_absent (s.entry k lock_file) ≡ false
      → is_absent (x.1.entry k lock_file) ≡ false
  pub outcome : Outcome id s x.1 x.0

failed-Attempts : (id : Bytes) (s : Root) (e : JailerError) → Attempts id s (err e, s)
failed-Attempts id s e = record { registry = refl; kept = λ k a. a; outcome = refl }

busy-Attempts :
    (id : Bytes) (s : Root) (e : JailerError) → Attempts id s (err e, create_lock_file id s)
busy-Attempts id s e = record {
  registry = (create_lock_file-rest id s).1;
  kept = λ k. create_lock_file-kept id k s;
  outcome = (create_lock_file-rest id s).0;
}

claimed-Attempts :
    (id : Bytes) (s : Root)
    → s.held id ≡ false
    → Attempts id s (ok tt, set_held id true (create_lock_file id s))
unfolding set_held
claimed-Attempts id s f = record {
  registry = (create_lock_file-rest id s).1;
  kept = λ k. create_lock_file-kept id k s;
  outcome = record {
    free = f;
    there = create_lock_file-there id s;
    held = λ k. ground (arith, create_lock_file-rest id s);
  };
}

-- A round that begins again began with the lock file there.
again-Attempts :
    (id : Bytes) (s : Root) (x : Result JailerError Done × Root)
    → Attempts id (create_lock_file id s) x
    → Attempts id s x
again-Attempts id s (ok t, s') a = record {
  registry = a.registry ∙ (create_lock_file-rest id s).1;
  kept = λ k e. a.kept k (create_lock_file-kept id k s e);
  outcome = record {
    free = ground (arith, create_lock_file-rest id s, a.outcome.free);
    there = a.outcome.there;
    held = λ k. ground (arith, create_lock_file-rest id s, a.outcome.held k);
  };
}
again-Attempts id s (err e, s') a = record {
  registry = a.registry ∙ (create_lock_file-rest id s).1;
  kept = λ k e. a.kept k (create_lock_file-kept id k s e);
  outcome = a.outcome ∙ (create_lock_file-rest id s).0;
}

require-Attempts :
    (id : Bytes) (s s' : Root) (e : JailerError) (m : Action Done) (b : Bool)
    → Attempts id s (err e, s')
    → (b ≡ true → Attempts id s (m s'))
    → Attempts id s ((require b e >> m) s')
require-Attempts id s s' e m true p next = next refl
require-Attempts id s s' e m false p next = p

last-Attempts :
    (id : Bytes) (s : Root) (again : Action Done) (same : Bool)
    → Attempts id s (again (create_lock_file id s))
    → s.held id ≡ false
    → Attempts id s ((if same then modify (set_held id true) else again) (create_lock_file id s))
last-Attempts id s again true a f = claimed-Attempts id s f
last-Attempts id s again false a f = a

not-true : (b : Bool) → not b ≡ true → b ≡ false
not-true b e = ground arith

attempt_lock-Attempts :
    (h : Host) (id : Bytes) (n : ℕ) (s : Root) → Attempts id s (attempt_lock h id n s)
unfolding attempt_lock
attempt_lock-Attempts h id zero s = failed-Attempts id s lock_error
attempt_lock-Attempts h id (suc n) s =
    let s' = create_lock_file id s in
    let again = attempt_lock h id n in
    let last = if h.same_inode n then modify (set_held id true) else again in
    let stats = require h.stats_lock lock_error >> last in
    let chmods = require h.chmods_lock lock_error >> stats in
    require-Attempts id s s lock_error
      (modify (create_lock_file id)
        >> (require (is_none h.lock_errno) lock_error
            >> (get >>= λ r. require (not (r.held id)) (instance_busy id) >> chmods)))
      h.opens_lock (failed-Attempts id s lock_error)
      (λ o.
        require-Attempts id s s' lock_error
          (get >>= λ r. require (not (r.held id)) (instance_busy id) >> chmods)
          (is_none h.lock_errno) (busy-Attempts id s lock_error)
          (λ l.
            require-Attempts id s s' (instance_busy id) chmods (not (s'.held id))
              (busy-Attempts id s (instance_busy id))
              (λ f.
                require-Attempts id s s' lock_error stats h.chmods_lock
                  (busy-Attempts id s lock_error)
                  (λ c.
                    require-Attempts id s s' lock_error last h.stats_lock
                      (busy-Attempts id s lock_error)
                      (λ t.
                        last-Attempts id s again (h.same_inode n)
                          (again-Attempts id s (again s') (attempt_lock-Attempts h id n s'))
                          (ground (arith, not-true (s'.held id) f, create_lock_file-rest id s)))))))

-- Whatever the host answers, a claim of an instance leaves the registry as it was, and unlinks no lock file.
pub acquire_instance_lock-Attempts :
    (h : Host) (id : Bytes) (s : Root) → Attempts id s (acquire_instance_lock h id s)
unfolding acquire_instance_lock
acquire_instance_lock-Attempts h id s = attempt_lock-Attempts h id 3 s
