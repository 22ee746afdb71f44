-- ===== src/Jailer/Held.antt =====
-- Which locks the jailer holds after each of its operations.
use hephaestus.Base.{ℕ, refl, Bool, not, Option, some, is_some}
use hephaestus.Base.Text.{Bytes}
use hephaestus.UidRegistry.{Registry, remove}
use hephaestus.Jailer.{
  Args, unsafe_work_dir, lock_file, work_dir, profile, stdout_log, stderr_log, api_sock, Host,
  Action, ◌>>=◌, ◌>>◌, done, pure, get, require, is_symlink, entry_path,
}
use hephaestus.Jailer.Identity.{open_uids, resolve_instance_identity}
use hephaestus.Jailer.Prepare.{
  Plan, when, remove_if_there, create_dir, fresh_work_dir, generate_profile, profile_inputs,
  store_profile, prepare_locked,
}
use hephaestus.Jailer.Teardown.{unregister, forget_uid, retire}
use hephaestus.Jailer.Quiet.{
  Quiet, bind-Quiet, then-Quiet, require-Quiet, when-Quiet, resolve-Quiet, remove_if_there-Quiet,
  create_dir-Quiet, store_profile-Quiet, generate_profile-Quiet, open_uids-Quiet, lift-Quiet,
}

fresh_work_dir-Quiet : (h : Host) (args : Args) → Quiet (fresh_work_dir h args)
unfolding fresh_work_dir
fresh_work_dir-Quiet h args =
    let id = args.id in
    let last = remove_if_there h id api_sock in
    let chmod = require h.chmods_work_dir unsafe_work_dir >> last in
    let create = create_dir h id >> chmod in
    let clean = when args.clean_work_dir (remove_if_there h id work_dir) in
    bind-Quiet get
      (λ s. require (not (is_symlink (s.entry id work_dir))) unsafe_work_dir >> (clean >> create))
      (λ s. refl)
      (λ s.
        then-Quiet (require (not (is_symlink (s.entry id work_dir))) unsafe_work_dir)
          (clean >> create) (require-Quiet (not (is_symlink (s.entry id work_dir))) unsafe_work_dir)
          (then-Quiet clean create
            (when-Quiet args.clean_work_dir (remove_if_there h id work_dir)
              (remove_if_there-Quiet h id work_dir))
            (then-Quiet (create_dir h id) chmod (create_dir-Quiet h id) (
              then-Quiet (require h.chmods_work_dir unsafe_work_dir) last
                (require-Quiet h.chmods_work_dir unsafe_work_dir)
                (remove_if_there-Quiet h id api_sock)))))

abbrev planned :
    Host → Args → (root binary kernel rootfs : Bytes) → (Option ℕ × Option ℕ) → Action Plan
planned h args root binary kernel rootfs target = pure (record {
  binary = binary;
  work_root = root;
  work_dir = entry_path root args.id work_dir;
  api_sock = entry_path root args.id api_sock;
  profile_path = entry_path root args.id profile;
  target_uid = target.0;
  target_gid = target.1;
})

pub prepare_locked-Quiet :
    (h : Host) (args : Args) (explicit : Option ℕ × Option ℕ) (root binary kernel rootfs : Bytes)
    → Quiet (prepare_locked h args explicit root binary kernel rootfs)
unfolding prepare_locked
prepare_locked-Quiet h args explicit root binary kernel rootfs =
    let inputs = profile_inputs h args (entry_path root args.id work_dir) kernel rootfs in
    let last = planned h args root binary kernel rootfs in
    let stored = λ (target : Option ℕ × Option ℕ) (text : Bytes).
      store_profile h args.id text >> last target in
    let generated = λ (target : Option ℕ × Option ℕ). generate_profile h inputs >>= stored target in
    bind-Quiet (resolve_instance_identity h args explicit)
      (λ t. fresh_work_dir h args >> generated t) (resolve-Quiet h args explicit)
      (λ t. then-Quiet (fresh_work_dir h args) (generated t) (fresh_work_dir-Quiet h args) (
        bind-Quiet (generate_profile h inputs) (stored t) (generate_profile-Quiet h inputs) (λ text.
          then-Quiet (store_profile h args.id text) (last t) (store_profile-Quiet h args.id text)
            (λ s. refl))))

unregister-Quiet : (h : Host) (id : Bytes) (reg : Registry) → Quiet (unregister h id reg)
unfolding unregister
unregister-Quiet h id reg s =
    let (r, reg') = remove h.registry_writes id reg in
    lift-Quiet r (record s { registry = some reg'.file })

forget_uid-Quiet : (h : Host) (id : Bytes) → Quiet (forget_uid h id)
unfolding forget_uid
forget_uid-Quiet h id =
    let rest = λ (reg : Registry). unregister h id reg >>= λ _. done in
    bind-Quiet get (λ s. when (is_some s.registry) (open_uids h >>= rest)) (λ s. refl)
      (λ s. when-Quiet (is_some s.registry) (open_uids h >>= rest) (
        bind-Quiet (open_uids h) rest (open_uids-Quiet h) (λ reg.
          bind-Quiet (unregister h id reg) (λ _. done) (unregister-Quiet h id reg) (λ b t. refl))))

pub retire-Quiet : (h : Host) (id : Bytes) (claimed : Bool) → Quiet (retire h id claimed)
unfolding retire
retire-Quiet h id claimed =
    let remove_lock = when claimed (remove_if_there h id lock_file) in
    let forget = forget_uid h id >> remove_lock in
    let stderr = remove_if_there h id stderr_log >> forget in
    let stdout = remove_if_there h id stdout_log >> stderr in
    let profiles = remove_if_there h id profile >> stdout in
    let dir = remove_if_there h id work_dir >> profiles in
    bind-Quiet get (λ s. require (not (is_symlink (s.entry id work_dir))) unsafe_work_dir >> dir)
      (λ s. refl)
      (λ s.
        then-Quiet (require (not (is_symlink (s.entry id work_dir))) unsafe_work_dir) dir
          (require-Quiet (not (is_symlink (s.entry id work_dir))) unsafe_work_dir)
          (then-Quiet (remove_if_there h id work_dir) profiles (remove_if_there-Quiet h id work_dir)
            (then-Quiet (remove_if_there h id profile) stdout (remove_if_there-Quiet h id profile) (
              then-Quiet (remove_if_there h id stdout_log) stderr
                (remove_if_there-Quiet h id stdout_log)
                (then-Quiet (remove_if_there h id stderr_log) forget
                  (remove_if_there-Quiet h id stderr_log)
                  (then-Quiet (forget_uid h id) remove_lock (forget_uid-Quiet h id) (
                    when-Quiet claimed (remove_if_there h id lock_file)
                      (remove_if_there-Quiet h id lock_file))))))))
