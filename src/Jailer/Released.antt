-- ===== src/Jailer/Released.antt =====
-- No run of the jailer leaves a lock behind.
use hephaestus.Base.{
  ℕ, ◌≡◌, refl, ap, ◌∙◌, true, false, Bool, not, ◌&&◌, Option, arith, if◌then◌else◌,
}
use hephaestus.Base.Text.{Bytes, bytes_eq, bytes_eq_iff}
use hephaestus.Base.Checked.{Result, ok, err}
use hephaestus.Jailer.{
  Args, JailerError, host_mmds_requires_vmnet, lock_file, Root, Host, Action, Done, ◌>>=◌, ◌>>◌,
  pure, get, require, modify, set_held, is_absent,
}
use hephaestus.Jailer.Locks.{acquire_instance_lock, release_lock, under_lock}
use hephaestus.Jailer.Claims.{Attempts, acquire_instance_lock-Attempts}
use hephaestus.Jailer.Prepare.{Plan, check_id, assert_trusted_work_root, when, prepare}
use hephaestus.Jailer.Quiet.{Quiet, check_id-Quiet, assert_trusted-Quiet}
use hephaestus.Jailer.Held.{retire-Quiet}
use hephaestus.Jailer.Teardown.{retire, retire_claimed, teardown}
use hephaestus.Jailer.Run.{
  retired, is_vmnet, resolve_explicit, give_plist, start_daemon, run_prepared, run_launch, run,
}
use hephaestus.Jailer.Claimed.{Takes, prepare-Takes}

-- Every lock is as it was.
abbrev pub Restores : {A : Type 0} → Root → Result JailerError A × Root → Type 0
Restores s x = (k : Bytes) → x.1.held k ≡ s.held k

bind-Restores :
    {A B : Type 0} (m : Action A) (f : A → Action B)
    → ((s : Root) → Restores s (m s))
    → ((a : A) (s : Root) → Restores s (f a s))
    → (s : Root) → Restores s ((m >>= f) s)
bind-Restores {A} {B} m f q r s = go (m s) (q s)
  where
    go :
        (x : Result JailerError A × Root)
        → Restores s x
        → Restores s (elim x.0 as (λ _. Result JailerError B × Root) [
          | ok a ↦ f a x.1
          | err y ↦ (err y, x.1)
        ])
    go (ok a, s') e = λ k. r a s' k ∙ e k
    go (err y, s') e = e

Quiet-Restores : {A : Type 0} (m : Action A) → Quiet m → (s : Root) → Restores s (m s)
Quiet-Restores m q s k = ap (λ h. h k) (q s)

released-Restores :
    {A B : Type 0} (id : Bytes) (m : Action A) (f : A → Action B)
    → ((s : Root) → Takes id s (m s))
    → ((a : A) → Quiet (f a))
    → (s : Root)
    → Restores s ((m >>= λ a. under_lock id (f a) >>= λ b. modify (release_lock id) >> pure b) s)
unfolding release_lock set_held under_lock
released-Restores {A} {B} id m f t q s = first (m s) (t s)
  where
    second :
        (u : Root) (x : Result JailerError B × Root)
        → s.held id ≡ false
        → ((k : Bytes) → u.held k ≡ (if bytes_eq k id then true else s.held k))
        → x.1.held ≡ u.held
        → Restores s
            (elim (elim x.0 as (λ _. Result JailerError B × Root) [
              | ok a ↦ (ok a, x.1)
              | err e ↦ (err e, release_lock id x.1)
            ]).0
              as (λ _. Result JailerError B × Root) [
                | ok b ↦ (
                  ok b,
                  release_lock id
                      (elim x.0 as (λ _. Result JailerError B × Root) [
                        | ok a ↦ (ok a, x.1)
                        | err e ↦ (err e, release_lock id x.1)
                      ]).1,
                )
                | err y ↦ (
                  err y,
                  (elim x.0 as (λ _. Result JailerError B × Root) [
                    | ok a ↦ (ok a, x.1)
                    | err e ↦ (err e, release_lock id x.1)
                  ]).1,
                )
              ])
    second u (ok b, v) f c e = λ k. ground (arith, bytes_eq_iff k id, ap (λ h. h k) e, c k, f)
    second u (err y, v) f c e = λ k. ground (arith, bytes_eq_iff k id, ap (λ h. h k) e, c k, f)

    first :
        (x : Result JailerError A × Root)
        → Takes id s x
        → Restores s (elim x.0 as (λ _. Result JailerError B × Root) [
          | ok a ↦ (under_lock id (f a) >>= λ b. modify (release_lock id) >> pure b) x.1
          | err y ↦ (err y, x.1)
        ])
    first (ok a, u) c = second u (f a u) c.0 c.1 (q a u)
    first (err y, u) c = c

acquire-Takes : (h : Host) (id : Bytes) (s : Root) → Takes id s (acquire_instance_lock h id s)
acquire-Takes h id s = go (acquire_instance_lock h id s) (acquire_instance_lock-Attempts h id s)
  where
    go : (x : Result JailerError Done × Root) → Attempts id s x → Takes id s x
    go (ok t, u) a = (a.outcome.free, a.outcome.held)
    go (err y, u) a = λ k. ap (λ h. h k) a.outcome

retire_claimed-Restores : (h : Host) (id : Bytes) (s : Root) → Restores s (retire_claimed h id s)
unfolding retire_claimed
retire_claimed-Restores h id =
    released-Restores id (acquire_instance_lock h id) (λ _. retire h id true) (acquire-Takes h id)
      (λ _. retire-Quiet h id true)

retiring-Restores :
    (h : Host) (id : Bytes) (no_lock : Bool) (s : Root)
    → Restores s ((if no_lock then retire h id false else retire_claimed h id) s)
retiring-Restores h id true = Quiet-Restores (retire h id false) (retire-Quiet h id false)
retiring-Restores h id false = retire_claimed-Restores h id

when-Restores :
    (b : Bool) (m : Action Done)
    → ((s : Root) → Restores s (m s))
    → (s : Root) → Restores s (when b m s)
when-Restores true m r = r
when-Restores false m r = λ s k. refl

teardown-Restores : (h : Host) (args : Args) (s : Root) → Restores s (teardown h args s)
unfolding teardown
teardown-Restores h args =
    let id = args.id in
    let body = get >>= λ s.
    if is_absent (s.entry id lock_file) then retire h id false else retire_claimed h id in
    let rest = assert_trusted_work_root h >>= λ exists. when exists body in
    bind-Restores (check_id id) (λ _. rest) (Quiet-Restores (check_id id) (check_id-Quiet id))
      (λ _.
        bind-Restores (assert_trusted_work_root h) (λ exists. when exists body)
          (Quiet-Restores (assert_trusted_work_root h) (assert_trusted-Quiet h))
          (λ exists.
            when-Restores exists body
              (λ s. retiring-Restores h id (is_absent (s.entry id lock_file)) s)))

run_prepared-Quiet : (h : Host) (args : Args) (plan : Plan) → Quiet (run_prepared h args plan)
unfolding run_prepared give_plist start_daemon
run_prepared-Quiet h args plan s = ground arith

launch-Restores : (h : Host) (args : Args) (s : Root) → Restores s (run_launch h args s)
unfolding run_launch
launch-Restores h args =
    let id = args.id in
    let compatible = not (args.host_mmds && not (is_vmnet args.network_backend)) in
    let prepared = λ (e : Option ℕ × Option ℕ). prepare h args e >>= λ plan.
    under_lock id (run_prepared h args plan) >>= λ o. modify (release_lock id) >> pure o in
    bind-Restores (require compatible host_mmds_requires_vmnet)
      (λ _. resolve_explicit h args >>= prepared)
      (Quiet-Restores (require compatible host_mmds_requires_vmnet) (λ s. refl))
      (λ _.
        bind-Restores (resolve_explicit h args) prepared
          (Quiet-Restores (resolve_explicit h args) (λ s. refl))
          (λ e.
            released-Restores id (prepare h args e) (run_prepared h args) (prepare-Takes h args e)
              (run_prepared-Quiet h args)))

-- Whatever the arguments, the host's answers and the outcome, a run of the jailer that has ended has
-- left every lock as it was.
pub run-Restores : (h : Host) (args : Args) (s : Root) → Restores s (run h args s)
unfolding run
run-Restores h args s = go args.teardown
  where
    go :
        (b : Bool)
        → Restores s ((if b then (teardown h args >> pure retired) else run_launch h args) s)
    go true =
        bind-Restores (teardown h args) (λ _. pure retired) (teardown-Restores h args)
          (λ _ t k. refl) s
    go false = launch-Restores h args s
