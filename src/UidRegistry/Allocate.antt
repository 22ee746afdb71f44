-- ===== src/UidRegistry/Allocate.antt =====
-- Which uid an instance gets, and what a registration changes.
use hephaestus.Base.{
  ℕ, zero, suc, ◌+◌, ◌-◌, ◌≤◌, ◌<◌, ◌≡◌, ◌≢◌, refl, false, Bool, ◌||◌, none, some, arith,
  if◌then◌else◌, [], ◌∷◌, max_u32, saturating_add,
}
use hephaestus.Base.Text.{Bytes, bytes_eq, bytes_eq_iff}
use hephaestus.Base.Checked.{ok, err}
use hephaestus.UidRegistry.{
  Entries, Registry, RegistryError, exhausted, find_uid, uid_used, search_uid, allocate, put_entry,
  upsert, drop_entries, remove,
}

-- A uid that may be handed out: not root's, in no entry, and of no account.
abbrev pub IsFree : (ℕ → Bool) → Entries → ℕ → Type 0
IsFree taken es uid = (uid ≢ 0) × ((uid_used uid es || taken uid) ≡ false)

pub search_uid-some :
    (taken : ℕ → Bool) (es : Entries) (n base uid : ℕ)
    → search_uid taken es n base ≡ some uid
    → (base ≤ uid) × (uid < base + n) × IsFree taken es uid
unfolding search_uid
search_uid-some taken es zero base uid e = cc
search_uid-some taken es (suc n) base uid e =
    ground (arith, search_uid-some taken es n (base + 1) uid)

search_uid-lowest :
    (taken : ℕ → Bool) (es : Entries) (n base uid v : ℕ)
    → search_uid taken es n base ≡ some uid
    → base ≤ v
    → v < uid
    → ¬ IsFree taken es v
unfolding search_uid
search_uid-lowest taken es zero base uid v e l u f = cc
search_uid-lowest taken es (suc n) base uid v e l u f = ground (
  arith,
  search_uid-some taken es n (base + 1) uid,
  search_uid-lowest taken es n (base + 1) uid v,
)

search_uid-none :
    (taken : ℕ → Bool) (es : Entries) (n base v : ℕ)
    → search_uid taken es n base ≡ none
    → base ≤ v
    → v < base + n
    → ¬ IsFree taken es v
unfolding search_uid
search_uid-none taken es zero base v e l u f = omega arith
search_uid-none taken es (suc n) base v e l u f =
    ground (arith, search_uid-none taken es n (base + 1) v)

abbrev pub range_end : ℕ → ℕ → ℕ
range_end base range = saturating_add max_u32 base range

-- An instance without an entry gets the lowest free uid of the range: at least `base`, below the end
-- of the range, which saturates at the largest uid, never 0, in no entry and of no account.
pub allocate-lowest :
    (taken : ℕ → Bool) (es : Entries) (id : Bytes) (base range uid : ℕ)
    → find_uid id es ≡ none
    → allocate taken es id base range ≡ ok uid
    → (base ≤ uid)
      × (uid < range_end base range)
      × IsFree taken es uid
      × ((v : ℕ) → base ≤ v → v < uid → ¬ IsFree taken es v)
unfolding allocate
allocate-lowest taken es id base range uid n e =
    let found : search_uid taken es (range_end base range - base) base ≡ some uid = ground arith in
    let (lo, hi, free) = search_uid-some taken es (range_end base range - base) base uid found in
    (
      lo,
      omega arith,
      free,
      λ v l u. search_uid-lowest taken es (range_end base range - base) base uid v found l u,
    )

-- An allocation that fails is for an instance without an entry, its error names the range, and no uid
-- of that range is free.
pub allocate-exhausted :
    (taken : ℕ → Bool) (es : Entries) (id : Bytes) (base range : ℕ) (x : RegistryError)
    → allocate taken es id base range ≡ err x
    → (find_uid id es ≡ none)
      × (x ≡ exhausted id base (range_end base range))
      × ((v : ℕ) → base ≤ v → v < range_end base range → ¬ IsFree taken es v)
unfolding allocate
allocate-exhausted taken es id base range x e =
    let found : search_uid taken es (range_end base range - base) base ≡ none = ground arith in
    (
      ground arith,
      ground arith,
      λ v l u. search_uid-none taken es (range_end base range - base) base v found l (omega arith),
    )

pub find_uid-put_entry :
    (id k : Bytes) (uid : ℕ) (es : Entries)
    → find_uid k (put_entry id uid es) ≡ (if bytes_eq id k then some uid else find_uid k es)
unfolding find_uid put_entry
find_uid-put_entry id k uid [] = refl
find_uid-put_entry id k uid ((eid, u) ∷ es) = ground (
  arith,
  bytes_eq_iff eid id,
  bytes_eq_iff eid k,
  bytes_eq_iff id k,
  find_uid-put_entry id k uid es,
)

-- Once an instance is registered it gets its uid again, whatever range a later launch asks for and
-- whatever accounts there are; any other instance keeps its entry. This holds in memory also when the
-- file could not be written.
pub allocate-upsert :
    (writes : Bool) (id k : Bytes) (uid : ℕ) (r : Registry) (taken : ℕ → Bool) (base range : ℕ)
    → id ≢ k
    → let r' = (upsert writes id uid r).1 in
      (allocate taken r'.entries id base range ≡ ok uid)
      × (find_uid k r'.entries ≡ find_uid k r.entries)
unfolding upsert allocate
allocate-upsert writes id k uid r taken base range n = (
  ground (arith, find_uid-put_entry id id uid r.entries, bytes_eq_iff id id),
  ground (arith, find_uid-put_entry id k uid r.entries, bytes_eq_iff id k),
)

-- No two entries have one uid.
abbrev pub Distinct : Entries → Type 0
Distinct [] = Unit {0}
Distinct ((id, uid) ∷ es) = (uid_used uid es ≡ false) × Distinct es

uid_used-put_entry :
    (id : Bytes) (uid v : ℕ) (es : Entries)
    → v ≢ uid
    → uid_used v es ≡ false
    → uid_used v (put_entry id uid es) ≡ false
unfolding uid_used put_entry
uid_used-put_entry id uid v [] n u = ground arith
uid_used-put_entry id uid v ((eid, x) ∷ es) n u = ground (arith, uid_used-put_entry id uid v es)

put_entry-Distinct :
    (id : Bytes) (uid : ℕ) (es : Entries)
    → uid_used uid es ≡ false
    → Distinct es
    → Distinct (put_entry id uid es)
unfolding uid_used put_entry
put_entry-Distinct id uid [] u d = (refl, tt)
put_entry-Distinct id uid ((eid, x) ∷ es) u d =
    ground (arith, put_entry-Distinct id uid es, uid_used-put_entry id uid x es)

-- Registering an instance that has no entry under the uid that was allocated to it keeps the uids of
-- the registry distinct.
pub upsert-allocate-Distinct :
    (taken : ℕ → Bool) (writes : Bool) (id : Bytes) (base range uid : ℕ) (r : Registry)
    → find_uid id r.entries ≡ none
    → allocate taken r.entries id base range ≡ ok uid
    → Distinct r.entries
    → Distinct (upsert writes id uid r).1.entries
unfolding upsert
upsert-allocate-Distinct taken writes id base range uid r n a d =
    let (_, _, free, _) = allocate-lowest taken r.entries id base range uid n a in
    ground (arith, put_entry-Distinct id uid r.entries, free.1)

pub find_uid-drop_entries :
    (id k : Bytes) (es : Entries)
    → find_uid k (drop_entries id es) ≡ (if bytes_eq id k then none else find_uid k es)
unfolding find_uid drop_entries
find_uid-drop_entries id k [] = ground arith
find_uid-drop_entries id k ((eid, u) ∷ es) = ground (
  arith,
  bytes_eq_iff eid id,
  bytes_eq_iff eid k,
  bytes_eq_iff id k,
  find_uid-drop_entries id k es,
)

-- After a removal the instance has no entry, and every other instance has the one it had. This holds
-- in memory also when the file could not be written.
pub find_uid-remove :
    (writes : Bool) (id k : Bytes) (r : Registry)
    → find_uid k (remove writes id r).1.entries
      ≡ (if bytes_eq id k then none else find_uid k r.entries)
unfolding remove
find_uid-remove writes id k r = ground (arith, find_uid-drop_entries id k r.entries)
