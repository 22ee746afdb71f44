-- ===== src/Jailer/Claimed.antt =====
-- Who holds the lock of an instance after a preparation and after a whole run.
use hephaestus.Base.{
  ℕ, ◌≡◌, refl, sym, ap, ◌∙◌, true, false, Option, arith, if◌then◌else◌, unwrap_or,
}
use hephaestus.Base.Text.{Bytes, bytes_eq, bytes_eq_iff}
use hephaestus.Base.Checked.{Result, ok, err}
use hephaestus.Jailer.{
  Args, JailerError, kernel_not_found, rootfs_not_found, binary_not_found, panicked, Root, Host,
  Action, Done, ◌>>=◌, ◌>>◌, require, from_some, set_held,
}
use hephaestus.Jailer.Locks.{acquire_instance_lock, release_lock, under_lock}
use hephaestus.Jailer.Claims.{Attempts, acquire_instance_lock-Attempts}
use hephaestus.Jailer.Prepare.{
  Plan, check_id, secure_work_root, prepare_locked, prepare, or_else, default_work_root,
  drop_requested,
}
use hephaestus.Jailer.Quiet.{Quiet, require-Quiet, check_id-Quiet, secure_work_root-Quiet}
use hephaestus.Jailer.Held.{prepare_locked-Quiet}

-- A success took the lock of an instance, which nobody had; a failure left the locks as they were.
abbrev pub Takes : {A : Type 0} → Bytes → Root → Result JailerError A × Root → Type 0
Takes id s (ok _, s') =
    (s.held id ≡ false) × ((k : Bytes) → s'.held k ≡ (if bytes_eq k id then true else s.held k))
Takes id s (err _, s') = (k : Bytes) → s'.held k ≡ s.held k

Takes-quiet :
    {A : Type 0} (id : Bytes) (s t : Root) (x : Result JailerError A × Root)
    → t.held ≡ s.held
    → Takes id t x
    → Takes id s x
Takes-quiet id s t (ok a, s') e (f, r) =
    (ap (λ h. h id) (sym e) ∙ f, λ k. ground (arith, r k, ap (λ h. h k) e))
Takes-quiet id s t (err y, s') e r = λ k. r k ∙ ap (λ h. h k) e

bind-Takes :
    {A B : Type 0} (id : Bytes) (m : Action A) (f : A → Action B)
    → Quiet m
    → ((a : A) (s : Root) → Takes id s (f a s))
    → (s : Root) → Takes id s ((m >>= f) s)
bind-Takes {A} {B} id m f q r s = go (m s) (q s)
  where
    go :
        (x : Result JailerError A × Root)
        → x.1.held ≡ s.held
        → Takes id s (elim x.0 as (λ _. Result JailerError B × Root) [
          | ok a ↦ f a x.1
          | err y ↦ (err y, x.1)
        ])
    go (ok a, s') e = Takes-quiet id s s' (f a s') e (r a s')
    go (err y, s') e = λ k. ap (λ h. h k) e

from_some-Quiet : {A : Type 0} (o : Option A) (e : JailerError) → Quiet (from_some o e)
from_some-Quiet o e s = refl

-- A claim, and then something under it that takes and drops no lock.
claimed-Takes :
    {A : Type 0} (h : Host) (id : Bytes) (m : Action A)
    → Quiet m
    → (s : Root) → Takes id s ((acquire_instance_lock h id >> under_lock id m) s)
unfolding release_lock set_held under_lock
claimed-Takes {A} h id m q s =
    first (acquire_instance_lock h id s) (acquire_instance_lock-Attempts h id s)
  where
    second :
        (t : Root) (x : Result JailerError A × Root)
        → Attempts id s (ok tt, t)
        → x.1.held ≡ t.held
        → Takes id s (elim x.0 as (λ _. Result JailerError A × Root) [
          | ok a ↦ (ok a, x.1)
          | err e ↦ (err e, release_lock id x.1)
        ])
    second t (ok a, u) c e = (c.outcome.free, λ k. ap (λ h. h k) e ∙ c.outcome.held k)
    second t (err y, u) c e =
        λ k. ground (arith, bytes_eq_iff k id, ap (λ h. h k) e, c.outcome.held k, c.outcome.free)

    first :
        (x : Result JailerError Done × Root)
        → Attempts id s x
        → Takes id s (elim x.0 as (λ _. Result JailerError A × Root) [
          | ok a ↦ under_lock id m x.1
          | err y ↦ (err y, x.1)
        ])
    first (ok t, u) c = second u (m u) c (q u)
    first (err y, u) c = λ k. ap (λ h. h k) c.outcome

abbrev claiming : Host → Args → (Option ℕ × Option ℕ) → (binary kernel rootfs : Bytes) → Action Plan
claiming h args explicit binary kernel rootfs =
    acquire_instance_lock h args.id
    >> under_lock args.id (
        prepare_locked h args explicit (unwrap_or args.work_dir (default_work_root h)) binary kernel
          rootfs)

-- A preparation that succeeds holds the lock of its instance, which nobody held before, and no other
-- that was free; one that fails, for whatever reason, leaves every lock as it was.
pub prepare-Takes :
    (h : Host) (args : Args) (explicit : Option ℕ × Option ℕ) (s : Root)
    → Takes args.id s (prepare h args explicit s)
unfolding prepare
prepare-Takes h args explicit =
    let id = args.id in
    let secured = λ (binary kernel rootfs : Bytes).
      secure_work_root h (drop_requested args explicit)
      >> claiming h args explicit binary kernel rootfs in
    let checked = λ (binary kernel rootfs : Bytes).
      require (h.exists binary) binary_not_found >> secured binary kernel rootfs in
    let located = λ (kernel rootfs : Bytes).
      from_some (or_else args.firecracker_binary h.which) binary_not_found >>= λ binary.
      checked binary kernel rootfs in
    let rootfs_checked = λ (kernel rootfs : Bytes).
      require (h.exists rootfs) rootfs_not_found >> located kernel rootfs in
    let kernel_checked = λ (kernel rootfs : Bytes).
      require (h.exists kernel) kernel_not_found >> rootfs_checked kernel rootfs in
    let rootfs_known = λ (kernel : Bytes).
      from_some args.rootfs panicked >>= λ rootfs. kernel_checked kernel rootfs in
    let kernel_known = from_some args.kernel panicked >>= λ kernel. rootfs_known kernel in
    bind-Takes id (check_id id) (λ _. kernel_known) (check_id-Quiet id)
      (λ _.
        bind-Takes id (from_some args.kernel panicked) rootfs_known
          (from_some-Quiet args.kernel panicked)
          (λ k.
            bind-Takes id (from_some args.rootfs panicked) (kernel_checked k)
              (from_some-Quiet args.rootfs panicked)
              (λ r.
                bind-Takes id (require (h.exists k) kernel_not_found) (λ _. rootfs_checked k r)
                  (require-Quiet (h.exists k) kernel_not_found)
                  (λ _.
                    bind-Takes id (require (h.exists r) rootfs_not_found) (λ _. located k r)
                      (require-Quiet (h.exists r) rootfs_not_found)
                      (λ _.
                        bind-Takes id
                          (from_some (or_else args.firecracker_binary h.which) binary_not_found)
                          (λ b. checked b k r)
                          (from_some-Quiet (or_else args.firecracker_binary h.which)
                            binary_not_found)
                          (λ b.
                            bind-Takes id (require (h.exists b) binary_not_found)
                              (λ _. secured b k r) (require-Quiet (h.exists b) binary_not_found)
                              (λ _.
                                bind-Takes id (secure_work_root h (drop_requested args explicit))
                                  (λ _. claiming h args explicit b k r)
                                  (secure_work_root-Quiet h (drop_requested args explicit))
                                  (λ _.
                                    claimed-Takes h id
                                      (prepare_locked h args explicit
                                        (unwrap_or args.work_dir (default_work_root h)) b k r)
                                      (prepare_locked-Quiet h args explicit
                                        (unwrap_or args.work_dir (default_work_root h)) b k
                                        r)))))))))
