-- ===== src/Jailer/Identity.antt =====
-- Which user an instance runs as: `resolve_instance_identity` and `refuse_live_shared_uid`.
use hephaestus.Base.{
  ℕ, Bool, not, ◌||◌, Option, none, some, if◌then◌else◌, ◌==◌, [], ◌∷◌, unwrap_or,
}
use hephaestus.Base.Text.{Bytes, bytes_eq}
use hephaestus.Base.Checked.{Result, ok, err}
use hephaestus.UidRegistry.{
  RegistryError, Registry, Entries, valid_id, open_registry, allocate, upsert,
}
use hephaestus.Jailer.{
  Args, JailerError, uid_registry, shared_uid_live, invalid_id, Root, Host, Action, Done, ◌>>=◌,
  ◌>>◌, pure,
}
use hephaestus.Jailer.Locks.{instance_lock_held}

abbrev pub uid_alloc_range : ℕ
uid_alloc_range = 1000

unfoldable pub validate_id : Bytes → Result JailerError Done
unfolding valid_id
validate_id id = if valid_id id then ok tt else err (invalid_id id)

-- The loop over the entries of the registry.
unfoldable pub refuse_from :
    Host → Root → Bytes → (uid : ℕ) → (allow : Bool) → Entries → Result JailerError Done
refuse_from h s id uid allow [] = ok tt
refuse_from h s id uid allow ((other, u) ∷ es) =
    let rest = refuse_from h s id uid allow es in
    if bytes_eq other id || not (u == uid)
    then rest
    else if valid_id other
    then elim (instance_lock_held h s other) [
      | err e ↦ err e
      | ok held ↦
          if held then (if allow then rest else err (shared_uid_live id other uid)) else rest
    ]
    else rest

unfoldable pub refuse_live_shared_uid : Host → Bytes → ℕ → Bool → Registry → Action Done
refuse_live_shared_uid h id uid allow reg s = (refuse_from h s id uid allow reg.entries, s)

unfoldable pub lift : {A : Type 0} → Result RegistryError A → Action A
lift (ok a) s = (ok a, s)
lift (err e) s = (err (uid_registry e), s)

-- `Registry::open` creates the file if there is none.
unfoldable pub open_uids : Host → Action Registry
unfolding lift
open_uids h s =
    let raw = unwrap_or s.registry [] in
    let s' = if h.registry_opens then record s { registry = some raw } else s in
    lift (open_registry h.registry_opens h.registry_locks raw) s'

-- `Registry::upsert`: the registry in memory, and the file.
unfoldable pub register : Host → Bytes → ℕ → Registry → Action Registry
unfolding lift
register h id uid reg s =
    let (r, reg') = upsert h.registry_writes id uid reg in
    let s' = record s { registry = some reg'.file } in
    elim r [ ok _ ↦ (ok reg', s') | err e ↦ (err (uid_registry e), s') ]

unfoldable pub identify : Host → Bytes → ℕ → Bool → Registry → Action Done
identify h id uid allow reg = do
  reg' ← register h id uid reg
  refuse_live_shared_uid h id uid allow reg'

unfoldable pub identify_in_range : Host → Args → ℕ → Action (Option ℕ × Option ℕ)
identify_in_range h args base = do
  reg ← open_uids h
  uid ← lift (allocate h.passwd_entry_exists reg.entries args.id base uid_alloc_range)
  identify h args.id uid args.allow_shared_uid reg
  pure (some uid, some uid)

unfoldable pub identify_explicit :
    Host → Args → ℕ → (Option ℕ × Option ℕ) → Action (Option ℕ × Option ℕ)
identify_explicit h args uid explicit = do
  reg ← open_uids h
  identify h args.id uid args.allow_shared_uid reg
  pure explicit

unfoldable pub resolve_instance_identity :
    Host → Args → (Option ℕ × Option ℕ) → Action (Option ℕ × Option ℕ)
resolve_instance_identity h args explicit = elim args.uid_base [
  | some base ↦ identify_in_range h args base
  | none ↦ elim explicit.0 [
    | some uid ↦ identify_explicit h args uid explicit
    | none ↦ pure explicit
  ]
]
