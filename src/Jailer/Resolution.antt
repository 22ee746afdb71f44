-- ===== src/Jailer/Resolution.antt =====
-- Every way of deciding an identity, in a range of uids or with an explicit one.
use hephaestus.Base.{
  ℕ, ◌-◌, saturating_add, ◌≤◌, ◌≡◌, refl, sym, subst, true, false, Bool, Option, none, some, arith,
  [], ◌∷◌, max_u32, unwrap_or,
}
use hephaestus.Base.Text.{Bytes, lines}
use hephaestus.Base.Checked.{Result, ok, err}
use hephaestus.UidRegistry.{RegistryError, Registry, Entries, valid_id, find_uid, allocate}
use hephaestus.UidRegistry.Allocate.{search_uid-some}
use hephaestus.UidRegistry.Persist.{IsRecordable, parse_lines_sound}
use hephaestus.Jailer.{Args, uid_registry, Root, Host, Action, ◌>>=◌, ◌>>◌, pure}
use hephaestus.Jailer.Identity.{
  uid_alloc_range, lift, open_uids, identify, identify_in_range, identify_explicit,
  resolve_instance_identity,
}
use hephaestus.Jailer.Registration.{
  Reads, Resolves, opened, identify-Resolves, failed-Resolves, open_uids-Resolves,
}

find_uid-IsRecordable :
    (id : Bytes) (uid : ℕ) (es : Entries)
    → IsRecordable es
    → find_uid id es ≡ some uid
    → uid ≤ max_u32
unfolding find_uid
find_uid-IsRecordable id uid [] r e = cc
find_uid-IsRecordable id uid ((eid, u) ∷ es) r e = ground (arith, find_uid-IsRecordable id uid es)

allocate_bound :
    (taken : ℕ → Bool) (id : Bytes) (base uid : ℕ) (es : Entries)
    → IsRecordable es
    → allocate taken es id base uid_alloc_range ≡ ok uid
    → uid ≤ max_u32
unfolding allocate
allocate_bound taken id base uid es r e = ground (
  arith,
  find_uid-IsRecordable id uid es,
  search_uid-some taken es (saturating_add max_u32 base uid_alloc_range - base) base uid,
)

in_range-Resolves :
    (h : Host) (id : Bytes) (base : ℕ) (reg : Registry) (s : Root)
    → h.registry_writes ≡ true
    → valid_id id ≡ true
    → IsRecordable reg.entries
    → (x : Result RegistryError ℕ)
    → allocate h.passwd_entry_exists reg.entries id base uid_alloc_range ≡ x
    → Reads s.registry reg.entries
    → Resolves id reg.entries s
        ((lift x >>= λ uid. identify h id uid false reg >> pure (some uid, some uid)) s)
unfolding lift
in_range-Resolves h id base reg s w v q (ok uid) e r =
    identify-Resolves h id uid (some uid) reg s w v
      (allocate_bound h.passwd_entry_exists id base uid reg.entries q e) q
in_range-Resolves h id base reg s w v q (err x) e r =
    failed-Resolves id reg.entries s s (uid_registry x) r refl refl

abbrev ranged : Host → Bytes → ℕ → Bool → Registry → Action (Option ℕ × Option ℕ)
ranged h id base allow reg =
    lift (allocate h.passwd_entry_exists reg.entries id base uid_alloc_range) >>= λ uid.
    identify h id uid allow reg >> pure (some uid, some uid)

abbrev fixed : Host → Bytes → ℕ → Option ℕ → Bool → Registry → Action (Option ℕ × Option ℕ)
fixed h id uid gid allow reg = identify h id uid allow reg >> pure (some uid, gid)

identify_in_range-Resolves :
    (h : Host) (args : Args) (base : ℕ) (es : Entries) (s : Root)
    → h.registry_writes ≡ true
    → args.allow_shared_uid ≡ false
    → valid_id args.id ≡ true
    → Reads s.registry es
    → Resolves args.id es s (identify_in_range h args base s)
unfolding identify_in_range
identify_in_range-Resolves h args base es s w a v r =
    let next : (reg : Registry)
        → reg.entries ≡ es
        → Resolves args.id es (opened s) (ranged h args.id base false reg (opened s)) =
      λ reg e.
        subst (λ fs. Resolves args.id fs (opened s) (ranged h args.id base false reg (opened s))) e
          (in_range-Resolves h args.id base reg (opened s) w v
            (subst IsRecordable (sym e) (parse_lines_sound (lines (unwrap_or s.registry [])) es r))
            (allocate h.passwd_entry_exists reg.entries args.id base uid_alloc_range) refl
            (subst (Reads (opened s).registry) (sym e) r)) in
    subst (λ allow. Resolves args.id es s ((open_uids h >>= ranged h args.id base allow) s)) (sym a)
      (open_uids-Resolves h args.id es s (ranged h args.id base false) r next)

identify_explicit-Resolves :
    (h : Host) (args : Args) (uid : ℕ) (gid : Option ℕ) (es : Entries) (s : Root)
    → h.registry_writes ≡ true
    → args.allow_shared_uid ≡ false
    → valid_id args.id ≡ true
    → uid ≤ max_u32
    → Reads s.registry es
    → Resolves args.id es s (identify_explicit h args uid (some uid, gid) s)
unfolding identify_explicit
identify_explicit-Resolves h args uid gid es s w a v u r =
    let next : (reg : Registry)
        → reg.entries ≡ es
        → Resolves args.id es (opened s) (fixed h args.id uid gid false reg (opened s)) =
      λ reg e.
        subst (λ fs. Resolves args.id fs (opened s) (fixed h args.id uid gid false reg (opened s)))
          e
          (identify-Resolves h args.id uid gid reg (opened s) w v u (
            subst IsRecordable (sym e)
              (parse_lines_sound (lines (unwrap_or s.registry [])) es r))) in
    subst (λ allow. Resolves args.id es s ((open_uids h >>= fixed h args.id uid gid allow) s))
      (sym a) (open_uids-Resolves h args.id es s (fixed h args.id uid gid false) r next)

abbrev resolved : Host → Args → Option ℕ → Option ℕ → Option ℕ → Action (Option ℕ × Option ℕ)
resolved h args u g (some base) = identify_in_range h args base
resolved h args (some uid) g none = identify_explicit h args uid (some uid, g)
resolved h args none g none = pure (none, g)

resolved-Resolves :
    (h : Host) (args : Args) (u g : Option ℕ) (es : Entries) (s : Root)
    → h.registry_writes ≡ true
    → args.allow_shared_uid ≡ false
    → valid_id args.id ≡ true
    → unwrap_or u 0 ≤ max_u32
    → Reads s.registry es
    → (base : Option ℕ) → Resolves args.id es s (resolved h args u g base s)
resolved-Resolves h args u g es s w a v b r (some base) =
    identify_in_range-Resolves h args base es s w a v r
resolved-Resolves h args (some uid) g es s w a v b r none =
    identify_explicit-Resolves h args uid g es s w a v b r
resolved-Resolves h args none g es s w a v b r none = record {
  entries = es;
  keeps = record { reads = r; others = λ k n. refl; held = refl; entry = refl };
  settles = tt;
}

resolve_eq :
    (h : Host) (args : Args) (u g : Option ℕ) (s : Root)
    → resolve_instance_identity h args (u, g) s ≡ resolved h args u g args.uid_base s
unfolding resolve_instance_identity
resolve_eq h args u g s = ground arith

-- Every way of deciding an identity, with both uids in the range of a `u32`.
pub resolve-Resolves :
    (h : Host) (args : Args) (explicit : Option ℕ × Option ℕ) (es : Entries) (s : Root)
    → h.registry_writes ≡ true
    → args.allow_shared_uid ≡ false
    → valid_id args.id ≡ true
    → unwrap_or explicit.0 0 ≤ max_u32
    → Reads s.registry es
    → Resolves args.id es s (resolve_instance_identity h args explicit s)
resolve-Resolves h args (u, g) es s w a v b r =
    subst (Resolves args.id es s) (sym (resolve_eq h args u g s))
      (resolved-Resolves h args u g es s w a v b r args.uid_base)
