-- ===== src/Jailer/Registration.antt =====
-- What deciding an identity does to the registry, and whom it has seen.
use hephaestus.Base.{
  ℕ, ◌≤◌, ◌≡◌, ◌≢◌, ◌⊎◌, inl, inr, refl, sym, subst, ap, ◌∙◌, true, false, Option, none, some,
  arith, [], ◌∷◌, max_u32, unwrap_or, Bool-cases,
}
use hephaestus.Base.Text.{Bytes, bytes_eq_iff, lines}
use hephaestus.Base.Checked.{Result, ok, err}
use hephaestus.UidRegistry.{
  open_failed, lock_failed, Registry, Entries, valid_id, parse_lines, open_registry, find_uid,
  upsert, put_entry, print_entries,
}
use hephaestus.UidRegistry.Allocate.{find_uid-put_entry}
use hephaestus.UidRegistry.Persist.{IsRecordable, parse_lines-print_entries, put_entry-IsRecordable}
use hephaestus.Jailer.{
  JailerError, uid_registry, Root, Host, Action, Done, lock_file, is_absent, ◌>>=◌, ◌>>◌, pure,
}
use hephaestus.Jailer.Locks.{instance_lock_held}
use hephaestus.Jailer.Identity.{
  refuse_from, refuse_live_shared_uid, lift, open_uids, register, identify,
}

-- The file of the registry holds these entries.
abbrev pub Reads : Option Bytes → Entries → Type 0
Reads raw es = parse_lines (lines (unwrap_or raw [])) ≡ ok es

-- The instance does not hold its lock: nobody does, or there is no lock file.
abbrev pub IsFree : Root → Bytes → Type 0
IsFree s k = (is_absent (s.entry k lock_file) ≡ true) ⊎ (s.held k ≡ false)

-- A refusal that does not come has found no other instance of that uid with its lock held.
refuse_from-ok :
    (h : Host) (s : Root) (id k : Bytes) (uid : ℕ) (es : Entries)
    → refuse_from h s id uid false es ≡ ok tt
    → find_uid k es ≡ some uid
    → id ≢ k
    → valid_id k ≡ true
    → IsFree s k
unfolding refuse_from find_uid instance_lock_held
refuse_from-ok h s id k uid [] r f n v = cc
refuse_from-ok h s id k uid ((other, u) ∷ es) r f n v =
    ground (arith, bytes_eq_iff other id, bytes_eq_iff other k, refuse_from-ok h s id k uid es)

-- What a step that concerns one instance may change: its own entry of the registry.
pub record Keeps (id : Bytes) (es : Entries) (s s' : Root) (entries : Entries) : Type 0 where
  pub reads : Reads s'.registry entries
  pub others : (k : Bytes) → id ≢ k → find_uid k entries ≡ find_uid k es
  pub held : s'.held ≡ s.held
  pub entry : s'.entry ≡ s.entry

-- What a success has settled, for an instance that gets a uid.
abbrev pub Settled : Bytes → Root → (entries : Entries) → Option ℕ → Type 0
Settled id s entries none = Unit {0}
Settled id s entries (some n) =
    (find_uid id entries ≡ some n)
    × ((k : Bytes) → find_uid k entries ≡ some n → id ≢ k → valid_id k ≡ true → IsFree s k)

Reads-print :
    (id : Bytes) (uid : ℕ) (es : Entries)
    → valid_id id ≡ true
    → uid ≤ max_u32
    → IsRecordable es
    → Reads (some (print_entries (put_entry id uid es))) (put_entry id uid es)
unfolding lines
Reads-print id uid es v u r =
    parse_lines-print_entries (put_entry id uid es) (put_entry-IsRecordable id uid es v u r)

-- The state after a registration that was written.
abbrev pub registered : Bytes → ℕ → Entries → Root → Root
registered id uid es s = record s { registry = some (print_entries (put_entry id uid es)) }

identify-runs :
    (h : Host) (id : Bytes) (uid : ℕ) (reg : Registry) (s : Root)
    → h.registry_writes ≡ true
    → let s' = registered id uid reg.entries s in
      identify h id uid false reg s
      ≡ (refuse_from h s' id uid false (put_entry id uid reg.entries), s')
unfolding identify register refuse_live_shared_uid upsert
identify-runs h id uid reg s w = ground arith

registered-Keeps :
    (id : Bytes) (uid : ℕ) (es : Entries) (s : Root)
    → valid_id id ≡ true
    → uid ≤ max_u32
    → IsRecordable es
    → Keeps id es s (registered id uid es s) (put_entry id uid es)
registered-Keeps id uid es s v u r = record {
  reads = Reads-print id uid es v u r;
  others = λ k n. ground (arith, find_uid-put_entry id k uid es, bytes_eq_iff id k);
  held = refl;
  entry = refl;
}

registered-Settled :
    (h : Host) (id : Bytes) (uid : ℕ) (es : Entries) (s : Root)
    → refuse_from h (registered id uid es s) id uid false (put_entry id uid es) ≡ ok tt
    → Settled id (registered id uid es s) (put_entry id uid es) (some uid)
registered-Settled h id uid es s e = (
  ground (arith, find_uid-put_entry id id uid es, bytes_eq_iff id id),
  λ k f n v. refuse_from-ok h (registered id uid es s) id k uid (put_entry id uid es) e f n v,
)

-- What a success has settled, if it is one.
abbrev pub Settles : Bytes → Root → Entries → Result JailerError (Option ℕ × Option ℕ) → Type 0
Settles id s entries (ok (uid, gid)) = Settled id s entries uid
Settles id s entries (err e) = Unit {0}

pub record Resolves (id : Bytes) (es : Entries) (s : Root)
    (x : Result JailerError (Option ℕ × Option ℕ) × Root) : Type 0 where
  pub entries : Entries
  pub keeps : Keeps id es s x.1 entries
  pub settles : Settles id x.1 entries x.0

-- What follows a decision.
abbrev answer :
    Option ℕ × Option ℕ
    → Result JailerError Done × Root
    → Result JailerError (Option ℕ × Option ℕ) × Root
answer ids (ok t, s) = (ok ids, s)
answer ids (err e, s) = (err e, s)

-- After the registration: the refusal decides.
decided-Resolves :
    (h : Host) (id : Bytes) (uid : ℕ) (gid : Option ℕ) (es : Entries) (s : Root)
    → valid_id id ≡ true
    → uid ≤ max_u32
    → IsRecordable es
    → (r : Result JailerError Done)
    → refuse_from h (registered id uid es s) id uid false (put_entry id uid es) ≡ r
    → Resolves id es s (answer (some uid, gid) (r, registered id uid es s))
decided-Resolves h id uid gid es s v u q (ok t) e = record {
  entries = put_entry id uid es;
  keeps = registered-Keeps id uid es s v u q;
  settles = registered-Settled h id uid es s e;
}
decided-Resolves h id uid gid es s v u q (err x) e = record {
  entries = put_entry id uid es;
  keeps = registered-Keeps id uid es s v u q;
  settles = tt;
}

answer-bind :
    (ids : Option ℕ × Option ℕ) (m : Action Done) (s : Root) → (m >> pure ids) s ≡ answer ids (m s)
answer-bind ids m s = ground arith

pub identify-Resolves :
    (h : Host) (id : Bytes) (uid : ℕ) (gid : Option ℕ) (reg : Registry) (s : Root)
    → h.registry_writes ≡ true
    → valid_id id ≡ true
    → uid ≤ max_u32
    → IsRecordable reg.entries
    → Resolves id reg.entries s ((identify h id uid false reg >> pure (some uid, gid)) s)
identify-Resolves h id uid gid reg s w v u q =
    let s' = registered id uid reg.entries s in
    let r = refuse_from h s' id uid false (put_entry id uid reg.entries) in
    subst (λ x. Resolves id reg.entries s x)
      (sym (
        answer-bind (some uid, gid) (identify h id uid false reg) s
        ∙ ap (answer (some uid, gid)) (identify-runs h id uid reg s w)))
      (decided-Resolves h id uid gid reg.entries s v u q r refl)

-- An error before the registration.
pub failed-Resolves :
    (id : Bytes) (es : Entries) (s s' : Root) (e : JailerError)
    → Reads s'.registry es
    → s'.held ≡ s.held
    → s'.entry ≡ s.entry
    → Resolves id es s (err e, s')
failed-Resolves id es s s' e r h t = record {
  entries = es;
  keeps = record { reads = r; others = λ k n. refl; held = h; entry = t };
  settles = tt;
}

-- What was opened: the same entries, with the file there.
abbrev pub opened : Root → Root
opened s = record s { registry = some (unwrap_or s.registry []) }

open_uids-ok :
    (h : Host) (s : Root) (es : Entries)
    → Reads s.registry es
    → h.registry_opens ≡ true
    → h.registry_locks ≡ true
    → open_uids h s ≡ (ok (record { entries = es; file = unwrap_or s.registry [] }), opened s)
unfolding open_uids open_registry lift
open_uids-ok h s es r o l = ground arith

open_uids-no_lock :
    (h : Host) (s : Root)
    → h.registry_opens ≡ true
    → h.registry_locks ≡ false
    → open_uids h s ≡ (err (uid_registry lock_failed), opened s)
unfolding open_uids open_registry lift
open_uids-no_lock h s o l = ground arith

open_uids-not_opened :
    (h : Host) (s : Root)
    → h.registry_opens ≡ false
    → open_uids h s ≡ (err (uid_registry open_failed), s)
unfolding open_uids open_registry lift
open_uids-not_opened h s o = ground arith

-- Resolving after the opening changes the same entry.
opened-Resolves :
    (id : Bytes) (es : Entries) (s : Root) (x : Result JailerError (Option ℕ × Option ℕ) × Root)
    → Resolves id es (opened s) x
    → Resolves id es s x
opened-Resolves id es s x r = record {
  entries = r.entries;
  keeps = record {
    reads = r.keeps.reads;
    others = r.keeps.others;
    held = r.keeps.held;
    entry = r.keeps.entry;
  };
  settles = r.settles;
}

abbrev follow :
    (Registry → Action (Option ℕ × Option ℕ))
    → Result JailerError Registry × Root
    → Result JailerError (Option ℕ × Option ℕ) × Root
follow k (ok reg, s) = k reg s
follow k (err e, s) = (err e, s)

follow-bind :
    (k : Registry → Action (Option ℕ × Option ℕ)) (m : Action Registry) (s : Root)
    → (m >>= k) s ≡ follow k (m s)
follow-bind k m s = ground arith

followed-Resolves :
    (id : Bytes) (es : Entries) (s : Root) (k : Registry → Action (Option ℕ × Option ℕ))
    (m : Action Registry) (x : Result JailerError Registry × Root)
    → m s ≡ x
    → Resolves id es s (follow k x)
    → Resolves id es s ((m >>= k) s)
followed-Resolves id es s k m x e p =
    subst (λ y. Resolves id es s y) (sym (follow-bind k m s ∙ ap (follow k) e)) p

pub open_uids-Resolves :
    (h : Host) (id : Bytes) (es : Entries) (s : Root) (k : Registry → Action (Option ℕ × Option ℕ))
    → Reads s.registry es
    → ((reg : Registry) → reg.entries ≡ es → Resolves id es (opened s) (k reg (opened s)))
    → Resolves id es s ((open_uids h >>= k) s)
open_uids-Resolves h id es s k r next =
    let reg : Registry = record { entries = es; file = unwrap_or s.registry [] } in
    elim (Bool-cases h.registry_opens) [
      | inl o ↦ elim (Bool-cases h.registry_locks) [
        | inl l ↦
            followed-Resolves id es s k (open_uids h) (ok reg, opened s) (open_uids-ok h s es r o l)
              (opened-Resolves id es s (k reg (opened s)) (next reg refl))
        | inr l ↦
            followed-Resolves id es s k (open_uids h) (err (uid_registry lock_failed), opened s)
              (open_uids-no_lock h s o l)
              (failed-Resolves id es s (opened s) (uid_registry lock_failed) r refl refl)
      ]
      | inr o ↦
          followed-Resolves id es s k (open_uids h) (err (uid_registry open_failed), s)
            (open_uids-not_opened h s o)
            (failed-Resolves id es s s (uid_registry open_failed) r refl refl)
    ]
