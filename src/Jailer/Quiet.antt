-- ===== src/Jailer/Quiet.antt =====
-- The actions that take and drop no lock.
use hephaestus.Base.{
  ℕ, ◌≡◌, refl, ◌∙◌, true, false, Bool, not, ◌||◌, Option, none, some, arith, if◌then◌else◌,
}
use hephaestus.Base.Text.{Bytes}
use hephaestus.Base.Checked.{Result, ok, err}
use hephaestus.UidRegistry.{RegistryError, Registry, allocate}
use hephaestus.Jailer.{
  Args, JailerError, create_work_dir, unsafe_work_dir, root_directory, Entry, Root, Host, Action,
  Done, ◌>>=◌, ◌>>◌, pure, get, require, modify, set_entry, is_absent,
}
use hephaestus.Jailer.Identity.{
  refuse_live_shared_uid, lift, open_uids, register, identify, identify_in_range, identify_explicit,
  resolve_instance_identity, uid_alloc_range,
}
use hephaestus.Jailer.Prepare.{
  check_id, assert_trusted_work_root, secure_work_root, when, unlink, remove_entry, remove_if_there,
  create_dir, generate_profile, store_profile,
}
use hephaestus.Jailer.Profile.{ProfileInputs}

abbrev pub Quiet : {A : Type 0} → Action A → Type 0
Quiet m = (s : Root) → (m s).1.held ≡ s.held

pub bind-Quiet :
    {A B : Type 0} (m : Action A) (f : A → Action B)
    → Quiet m
    → ((a : A) → Quiet (f a))
    → Quiet (m >>= f)
bind-Quiet {A} {B} m f q r s = go (m s) (q s)
  where
    go :
        (x : Result JailerError A × Root)
        → x.1.held ≡ s.held
        → (elim x.0 as (λ _. Result JailerError B × Root) [
          | ok a ↦ f a x.1
          | err y ↦ (err y, x.1)
        ]).1.held
          ≡ s.held
    go (ok a, s') e = r a s' ∙ e
    go (err y, s') e = e

pub then-Quiet : {B : Type 0} (m : Action Done) (k : Action B) → Quiet m → Quiet k → Quiet (m >> k)
then-Quiet m k q r = bind-Quiet m (λ _. k) q (λ _. r)

pub require-Quiet : (b : Bool) (e : JailerError) → Quiet (require b e)
require-Quiet b e s = refl

pub when-Quiet : (b : Bool) (m : Action Done) → Quiet m → Quiet (when b m)
when-Quiet true m q = q
when-Quiet false m q = λ s. refl

pub lift-Quiet : {A : Type 0} (r : Result RegistryError A) → Quiet (lift r)
unfolding lift
lift-Quiet (ok a) s = refl
lift-Quiet (err e) s = refl

pub open_uids-Quiet : (h : Host) → Quiet (open_uids h)
unfolding open_uids lift hephaestus.UidRegistry.open_registry
open_uids-Quiet h s = ground arith

register-Quiet : (h : Host) (id : Bytes) (uid : ℕ) (reg : Registry) → Quiet (register h id uid reg)
unfolding register
register-Quiet h id uid reg s = ground arith

identify-Quiet :
    (h : Host) (id : Bytes) (uid : ℕ) (allow : Bool) (reg : Registry)
    → Quiet (identify h id uid allow reg)
unfolding identify refuse_live_shared_uid
identify-Quiet h id uid allow reg =
    bind-Quiet (register h id uid reg) (λ r. refuse_live_shared_uid h id uid allow r)
      (register-Quiet h id uid reg) (λ r s. refl)

identified-Quiet :
    {A : Type 0} (h : Host) (id : Bytes) (uid : ℕ) (allow : Bool) (reg : Registry) (a : A)
    → Quiet (identify h id uid allow reg >> pure a)
identified-Quiet h id uid allow reg a =
    then-Quiet (identify h id uid allow reg) (pure a) (identify-Quiet h id uid allow reg)
      (λ s. refl)

explicit-Quiet :
    (h : Host) (args : Args) (explicit : Option ℕ × Option ℕ) (u : Option ℕ)
    → Quiet (elim u as (λ _. Action (Option ℕ × Option ℕ)) [
      | some uid ↦ identify_explicit h args uid explicit
      | none ↦ pure explicit
    ])
unfolding identify_explicit
explicit-Quiet h args explicit none = λ s. refl
explicit-Quiet h args explicit (some uid) =
    bind-Quiet (open_uids h)
      (λ reg. identify h args.id uid args.allow_shared_uid reg >> pure explicit) (open_uids-Quiet h)
      (λ reg. identified-Quiet h args.id uid args.allow_shared_uid reg explicit)

pub resolve-Quiet :
    (h : Host) (args : Args) (explicit : Option ℕ × Option ℕ)
    → Quiet (resolve_instance_identity h args explicit)
unfolding resolve_instance_identity identify_in_range identify_explicit
resolve-Quiet h args explicit =
    elim args.uid_base
      as (λ b. Quiet (elim b as (λ _. Action (Option ℕ × Option ℕ)) [
        | some base ↦ identify_in_range h args base
        | none ↦ elim explicit.0 as (λ _. Action (Option ℕ × Option ℕ)) [
          | some uid ↦ identify_explicit h args uid explicit
          | none ↦ pure explicit
        ]
      ])) [
        | some base ↦
            bind-Quiet (open_uids h)
              (λ reg.
                lift (allocate h.passwd_entry_exists reg.entries args.id base uid_alloc_range)
                >>= λ uid.
                    identify h args.id uid args.allow_shared_uid reg >> pure (some uid, some uid))
              (open_uids-Quiet h)
              (λ reg.
                bind-Quiet
                  (lift (allocate h.passwd_entry_exists reg.entries args.id base uid_alloc_range))
                  (λ uid.
                    identify h args.id uid args.allow_shared_uid reg >> pure (some uid, some uid))
                  (lift-Quiet
                    (allocate h.passwd_entry_exists reg.entries args.id base uid_alloc_range))
                  (λ uid.
                    identified-Quiet h args.id uid args.allow_shared_uid reg (some uid, some uid)))
        | none ↦ explicit-Quiet h args explicit explicit.0
      ]

remove_entry-Quiet : (h : Host) (id : Bytes) (e : Entry) → Quiet (remove_entry h id e)
unfolding remove_entry unlink set_entry
remove_entry-Quiet h id e s = ground arith

pub remove_if_there-Quiet : (h : Host) (id : Bytes) (e : Entry) → Quiet (remove_if_there h id e)
unfolding remove_if_there
remove_if_there-Quiet h id e =
    bind-Quiet get (λ s. when (not (is_absent (s.entry id e))) (remove_entry h id e)) (λ s. refl)
      (λ s.
        when-Quiet (not (is_absent (s.entry id e))) (remove_entry h id e)
          (remove_entry-Quiet h id e))

pub create_dir-Quiet : (h : Host) (id : Bytes) → Quiet (create_dir h id)
unfolding create_dir set_entry
create_dir-Quiet h id s = ground arith

pub check_id-Quiet : (id : Bytes) → Quiet (check_id id)
unfolding check_id
check_id-Quiet id s = refl

abbrev secured : Host → Bool → Bool → Action Done
secured h drop exists = require (exists || h.creates_root) create_work_dir >>= λ _.
    modify (λ s. if exists then s else record s { node = root_directory h.euid }) >>= λ _.
    require h.chmods_root unsafe_work_dir >>= λ _.
    modify (λ s. record s { mode = if drop then 457 else 448 })

pub assert_trusted-Quiet : (h : Host) → Quiet (assert_trusted_work_root h)
unfolding assert_trusted_work_root
assert_trusted-Quiet h s = ground arith

pub secure_work_root-Quiet : (h : Host) (drop : Bool) → Quiet (secure_work_root h drop)
unfolding secure_work_root
secure_work_root-Quiet h drop =
    bind-Quiet (assert_trusted_work_root h) (secured h drop) (assert_trusted-Quiet h)
      (λ exists s. ground arith)

pub store_profile-Quiet : (h : Host) (id text : Bytes) → Quiet (store_profile h id text)
unfolding store_profile set_entry
store_profile-Quiet h id text s = ground arith

pub generate_profile-Quiet : (h : Host) (inputs : ProfileInputs) → Quiet (generate_profile h inputs)
unfolding generate_profile
generate_profile-Quiet h inputs s = refl
