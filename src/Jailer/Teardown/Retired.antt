-- ===== src/Jailer/Teardown/Retired.antt =====
-- What a teardown leaves behind, and when it is refused.
use hephaestus.Base.{
  ℕ, zero, suc, ◌≡◌, ◌≢◌, refl, sym, ap, subst, ◌∙◌, true, false, Bool, not, none, arith,
  if◌then◌else◌,
}
use hephaestus.Base.Text.{Bytes, bytes_eq, bytes_eq_iff}
use hephaestus.Base.Checked.{ok, is_ok}
use hephaestus.UidRegistry.{Entries, find_uid, drop_entries}
use hephaestus.UidRegistry.Allocate.{find_uid-drop_entries}
use hephaestus.Jailer.{
  Args, unsafe_work_dir, Entry, work_dir, profile, stdout_log, stderr_log, lock_file, root_absent,
  Root, Host, Action, Done, ◌>>=◌, ◌>>◌, modify, set_held, is_absent, is_symlink,
}
use hephaestus.Jailer.Locks.{
  acquire_instance_lock, attempt_lock, create_lock_file, release_lock, under_lock,
}
use hephaestus.Jailer.Claims.{Attempts, acquire_instance_lock-Attempts}
use hephaestus.Jailer.Registration.{Reads}
use hephaestus.Jailer.Prepare.{check_id, assert_trusted_work_root, when, remove_if_there}
use hephaestus.Jailer.Teardown.{forget_uid, retire, retire_claimed, teardown}
use hephaestus.Jailer.Teardown.Removal.{
  Removes, bind-ok, require-ok, remove_if_there-Removed, Removes-trans,
}
use hephaestus.Jailer.Teardown.Forgetting.{forget_uid-Forgets}

-- What a retirement that did not fail leaves: nothing of the instance, and what there was of the
-- others.
pub record Retires (id : Bytes) (es : Entries) (claimed : Bool) (s s' : Root) : Type 0 where
  pub reads : Reads s'.registry (drop_entries id es)
  pub held : s'.held ≡ s.held
  pub gone :
      (k : Bytes) (f : Entry) → is_absent (s.entry k f) ≡ true → is_absent (s'.entry k f) ≡ true
  pub no_dir : is_absent (s'.entry id work_dir) ≡ true
  pub no_profile : is_absent (s'.entry id profile) ≡ true
  pub no_stdout : is_absent (s'.entry id stdout_log) ≡ true
  pub no_stderr : is_absent (s'.entry id stderr_log) ≡ true
  pub no_lock : claimed ≡ true → is_absent (s'.entry id lock_file) ≡ true

when-Removed :
    (h : Host) (id : Bytes) (claimed : Bool) (s s' : Root)
    → when claimed (remove_if_there h id lock_file) s ≡ (ok tt, s')
    → Removes s s' × (claimed ≡ true → is_absent (s'.entry id lock_file) ≡ true)
when-Removed h id true s s' e =
    let (r, a) = remove_if_there-Removed h id lock_file s s' e in (r, λ _. a)
when-Removed h id false s s' e = (
  subst (Removes s) (ap (λ x. x.1) e) (record { registry = refl; held = refl; gone = λ k f b. b }),
  λ x. cc,
)

-- Forgetting the uid, and then the lock file.
abbrev closing : Host → Bytes → Bool → Action Done
closing h id claimed = forget_uid h id >> when claimed (remove_if_there h id lock_file)

abbrev Closes : Bytes → Entries → Bool → Root → Root → Type 0
Closes id es claimed s s' =
    Reads s'.registry (drop_entries id es)
    × (s'.held ≡ s.held)
    × ((k : Bytes) (f : Entry) → is_absent (s.entry k f) ≡ true → is_absent (s'.entry k f) ≡ true)
    × (claimed ≡ true → is_absent (s'.entry id lock_file) ≡ true)

closing-Closes :
    (h : Host) (id : Bytes) (es : Entries) (claimed : Bool) (s s' : Root)
    → Reads s.registry es
    → closing h id claimed s ≡ (ok tt, s')
    → Closes id es claimed s s'
closing-Closes h id es claimed s s' r e =
    let (_, u, eu, e') =
      bind-ok (forget_uid h id) (λ _. when claimed (remove_if_there h id lock_file)) s s' tt e in
    let forgets = forget_uid-Forgets h id es s u r eu in
    let (removes, no_lock) = when-Removed h id claimed u s' e' in
    (
      subst (λ x. Reads x (drop_entries id es)) (sym removes.registry) forgets.reads,
      removes.held ∙ forgets.held,
      λ k f a. removes.gone k f (ap (λ x. is_absent (x k f)) forgets.entry ∙ a),
      no_lock,
    )

abbrev removing_logs : Host → Bytes → Bool → Action Done
removing_logs h id claimed = remove_if_there h id stdout_log >>= λ _.
    remove_if_there h id stderr_log >>= λ _. closing h id claimed

abbrev removing : Host → Bytes → Bool → Action Done
removing h id claimed = remove_if_there h id work_dir >>= λ _.
    remove_if_there h id profile >>= λ _. removing_logs h id claimed

removing-Retires :
    (h : Host) (id : Bytes) (es : Entries) (claimed : Bool) (s s' : Root)
    → Reads s.registry es
    → removing h id claimed s ≡ (ok tt, s')
    → Retires id es claimed s s'
removing-Retires h id es claimed s s' r e =
    let (_, a, ea, e1) =
      bind-ok (remove_if_there h id work_dir)
        (λ _. remove_if_there h id profile >>= λ _. removing_logs h id claimed) s s' tt e in
    let (_, b, eb, e2) =
      bind-ok (remove_if_there h id profile) (λ _. removing_logs h id claimed) a s' tt e1 in
    let (_, c, ec, e3) =
      bind-ok (remove_if_there h id stdout_log)
        (λ _. remove_if_there h id stderr_log >>= λ _. closing h id claimed) b s' tt e2 in
    let (_, d, ed, e4) =
      bind-ok (remove_if_there h id stderr_log) (λ _. closing h id claimed) c s' tt e3 in
    let (ra, ga) = remove_if_there-Removed h id work_dir s a ea in
    let (rb, gb) = remove_if_there-Removed h id profile a b eb in
    let (rc, gc) = remove_if_there-Removed h id stdout_log b c ec in
    let (rd, gd) = remove_if_there-Removed h id stderr_log c d ed in
    let rcd = Removes-trans b c d rc rd in
    let rbd = Removes-trans a b d rb rcd in
    let rad = Removes-trans s a d ra rbd in
    let (reads, held, gone, no_lock) =
      closing-Closes h id es claimed d s' (subst (λ x. Reads x es) (sym rad.registry) r) e4 in
    record {
      reads = reads;
      held = held ∙ rad.held;
      gone = λ k f x. gone k f (rad.gone k f x);
      no_dir = gone id work_dir (rbd.gone id work_dir ga);
      no_profile = gone id profile (rcd.gone id profile gb);
      no_stdout = gone id stdout_log (rd.gone id stdout_log gc);
      no_stderr = gone id stderr_log gd;
      no_lock = no_lock;
    }

retire-Retires :
    (h : Host) (id : Bytes) (es : Entries) (claimed : Bool) (s s' : Root)
    → Reads s.registry es
    → retire h id claimed s ≡ (ok tt, s')
    → Retires id es claimed s s'
unfolding retire
retire-Retires h id es claimed s s' r e = removing-Retires h id es claimed s s' r (
    require-ok (not (is_symlink (s.entry id work_dir))) unsafe_work_dir (removing h id claimed) tt s
      s' e)

attempt_lock-held :
    (h : Host) (id : Bytes) (n : ℕ) (s : Root)
    → s.held id ≡ true
    → is_absent (s.entry id lock_file) ≡ false
    → let x = attempt_lock h id n s in (is_ok x.0 ≡ false) × (x.1 ≡ s)
unfolding attempt_lock create_lock_file
attempt_lock-held h id zero s e t = (refl, refl)
attempt_lock-held h id (suc n) s e t = (ground arith, ground arith)

-- While the lock of an instance is held, with its lock file in place, a teardown changes nothing,
-- whatever the host answers, and it fails unless there is no work root.
pub teardown-held :
    (h : Host) (args : Args) (s : Root)
    → s.held args.id ≡ true
    → is_absent (s.entry args.id lock_file) ≡ false
    → ((teardown h args s).1 ≡ s) × (s.node ≢ root_absent → is_ok (teardown h args s).0 ≡ false)
unfolding teardown check_id assert_trusted_work_root retire_claimed acquire_instance_lock
teardown-held h args s e t =
    let (fails, same) = attempt_lock-held h args.id 3 s e t in
    (ground (arith, fails, same), λ n. ground (arith, fails, same, n))

under_lock-ok :
    (id : Bytes) (m : Action Done) (s t : Root) → under_lock id m s ≡ (ok tt, t) → m s ≡ (ok tt, t)
unfolding under_lock
under_lock-ok id m s t e = ground arith

-- What is left after a success.
abbrev pub Retired : Bytes → Entries → Root → Root → Type 0
Retired id es s s' =
    Reads s'.registry (drop_entries id es)
    × ((k : Bytes) → s'.held k ≡ s.held k)
    × (is_absent (s'.entry id work_dir) ≡ true)
    × (is_absent (s'.entry id profile) ≡ true)
    × (is_absent (s'.entry id stdout_log) ≡ true)
    × (is_absent (s'.entry id stderr_log) ≡ true)
    × (is_absent (s'.entry id lock_file) ≡ true)

retire_claimed-Retired :
    (h : Host) (id : Bytes) (es : Entries) (s s' : Root)
    → Reads s.registry es
    → retire_claimed h id s ≡ (ok tt, s')
    → Retired id es s s'
unfolding retire_claimed release_lock set_held
retire_claimed-Retired h id es s s' r e =
    let (_, a, ea, e1) =
      bind-ok (acquire_instance_lock h id)
        (λ _. under_lock id (retire h id true) >>= λ _. modify (release_lock id)) s s' tt e in
    let (_, b, eb, e2) =
      bind-ok (under_lock id (retire h id true)) (λ _. modify (release_lock id)) a s' tt e1 in
    let claims : Attempts id s (ok tt, a) =
      subst (Attempts id s) ea (acquire_instance_lock-Attempts h id s) in
    let x =
      retire-Retires h id es true a b (subst (λ x. Reads x es) (sym claims.registry) r)
        (under_lock-ok id (retire h id true) a b eb) in
    let last : release_lock id b ≡ s' = ap (λ x. x.1) e2 in
    subst (Retired id es s) last (
      x.reads,
      λ k. ground (
        arith,
        bytes_eq_iff k id,
        claims.outcome.free,
        claims.outcome.held k,
        ap (λ f. f k) x.held,
      ),
      x.no_dir,
      x.no_profile,
      x.no_stdout,
      x.no_stderr,
      x.no_lock refl,
    )

abbrev retiring : Host → Bytes → Bool → Action Done
retiring h id no_lock = if no_lock then retire h id false else retire_claimed h id

retiring-Retired :
    (h : Host) (id : Bytes) (es : Entries) (s s' : Root) (no_lock : Bool)
    → is_absent (s.entry id lock_file) ≡ no_lock
    → Reads s.registry es
    → retiring h id no_lock s ≡ (ok tt, s')
    → Retired id es s s'
retiring-Retired h id es s s' true a r e =
    let x = retire-Retires h id es false s s' r e in
    (
      x.reads,
      λ k. ap (λ f. f k) x.held,
      x.no_dir,
      x.no_profile,
      x.no_stdout,
      x.no_stderr,
      x.gone id lock_file a,
    )
retiring-Retired h id es s s' false a r e = retire_claimed-Retired h id es s s' r e

teardown-runs :
    (h : Host) (args : Args) (s s' : Root)
    → s.node ≢ root_absent
    → teardown h args s ≡ (ok tt, s')
    → retiring h args.id (is_absent (s.entry args.id lock_file)) s ≡ (ok tt, s')
unfolding teardown check_id assert_trusted_work_root
teardown-runs h args s s' n e = ground arith

-- A teardown under a work root that succeeds leaves nothing of the instance: its work directory, its
-- profile, its logs and its lock file are gone, and so is its entry of the registry. The entries of the
-- other instances are as they were, and whoever held a lock holds it still.
pub teardown-Retired :
    (h : Host) (args : Args) (es : Entries) (s s' : Root)
    → s.node ≢ root_absent
    → Reads s.registry es
    → teardown h args s ≡ (ok tt, s')
    → Retired args.id es s s'
      × ((k : Bytes)
          → find_uid k (drop_entries args.id es)
            ≡ (if bytes_eq args.id k then none else find_uid k es))
teardown-Retired h args es s s' n r e = (
  retiring-Retired h args.id es s s' (is_absent (s.entry args.id lock_file)) refl r
      (teardown-runs h args s s' n e),
  λ k. find_uid-drop_entries args.id k es,
)
