-- ===== src/UidRegistry.antt =====
-- The uid registry of src/hephaestus-jailer/src/uid_registry.rs: which user id each instance runs
-- as. The state is the list of entries and the text of the file that backs it; the lock is held for
-- the whole of each caller's critical section.
pub mod Allocate
pub mod Persist
mod Examples
use hephaestus.Base.{
  ℕ, zero, suc, ◌+◌, ◌-◌, Bool, true, false, not, ◌&&◌, ◌||◌, Option, none, some, if◌then◌else◌,
  ◌==◌, leb, List, [], ◌∷◌, ◌++◌, all, any, length, min, max_u32, saturating_add,
}
use hephaestus.Base.Text.{Bytes, codes, bytes_eq, split_once, trim, lines, newline}
use hephaestus.Base.Decimal.{format, parse}
use hephaestus.Base.Checked.{Result, ok, err}

pub data RegistryError : Type 0 where
  open_failed lock_failed rewrite_failed : RegistryError
  corrupt : (line : Bytes) → RegistryError
  exhausted : (id : Bytes) (base end : ℕ) → RegistryError

abbrev pub Entries : Type 0
Entries = List (Bytes × ℕ)

-- `file` is what the registry file holds.
pub record Registry : Type 0 where
  pub entries : Entries
  pub file : Bytes

abbrev pub is_id_byte : ℕ → Bool
is_id_byte c =
    leb b'0' c && leb c b'9'
    || (leb b'a' c && leb c b'z' || (leb b'A' c && leb c b'Z' || (c == b'-' || c == b'_')))

unfoldable pub valid_id : Bytes → Bool
valid_id id = (leb 1 (length id) && leb (length id) 64) && all is_id_byte id

-- One line that is not empty: an id, a space, a uid.
unfoldable pub parse_line : Bytes → Option (Bytes × ℕ)
parse_line line = elim (split_once 32 line) [
  | none ↦ none
  | some (id, uid) ↦
      if valid_id id then elim (parse max_u32 uid) [ none ↦ none | some u ↦ some (id, u) ] else none
]

-- The entry of a line that is not empty, in front of those of the later lines.
unfoldable pub add_line : Bytes → Result RegistryError Entries → Result RegistryError Entries
add_line [] rest = rest
add_line (c ∷ s) rest = elim (parse_line (c ∷ s)) [
  | none ↦ err (corrupt (c ∷ s))
  | some entry ↦ elim rest [ ok entries ↦ ok (entry ∷ entries) | err e ↦ err e ]
]

unfoldable pub parse_lines : List Bytes → Result RegistryError Entries
parse_lines [] = ok []
parse_lines (l ∷ ls) = add_line (trim l) (parse_lines ls)

-- Whether the file could be opened and read, and locked, is the host's answer.
unfoldable pub open_registry : (opened locked : Bool) → Bytes → Result RegistryError Registry
open_registry opened locked raw =
    if opened
    then (if locked
        then elim (parse_lines (lines raw)) [
          | ok entries ↦ ok (record { entries = entries; file = raw })
          | err e ↦ err e
        ]
        else err lock_failed)
    else err open_failed

unfoldable pub find_uid : Bytes → Entries → Option ℕ
find_uid id [] = none
find_uid id ((eid, uid) ∷ es) = if bytes_eq eid id then some uid else find_uid id es

unfoldable pub uid_used : ℕ → Entries → Bool
uid_used uid [] = false
uid_used uid ((eid, u) ∷ es) = if u == uid then true else uid_used uid es

-- The loop over `n` uids from `uid` on.
unfoldable pub search_uid : (ℕ → Bool) → Entries → (n uid : ℕ) → Option ℕ
search_uid taken es zero uid = none
search_uid taken es (suc n) uid =
    let rest = search_uid taken es n (uid + 1) in
    if uid == 0 then rest else if uid_used uid es || taken uid then rest else some uid

unfoldable pub allocate : (ℕ → Bool) → Entries → Bytes → (base range : ℕ) → Result RegistryError ℕ
allocate taken es id base range = elim (find_uid id es) [
  | some uid ↦ ok uid
  | none ↦
      let end_ = saturating_add max_u32 base range in
      elim (search_uid taken es (end_ - base) base) [
        | some uid ↦ ok uid
        | none ↦ err (exhausted id base end_)
      ]
]

unfoldable pub print_entries : Entries → Bytes
print_entries [] = []
print_entries ((id, uid) ∷ es) = id ++ 32 ∷ (format uid ++ newline ∷ print_entries es)

-- The entries are changed in memory also when the file cannot be written, and the file is then as it was.
unfoldable pub rewrite : Bool → Registry → Result RegistryError (Unit {0}) × Registry
rewrite writes r =
    if writes then (ok tt, record r { file = print_entries r.entries }) else (err rewrite_failed, r)

unfoldable pub put_entry : Bytes → ℕ → Entries → Entries
put_entry id uid [] = (id, uid) ∷ []
put_entry id uid ((eid, u) ∷ es) =
    if bytes_eq eid id then (eid, uid) ∷ es else (eid, u) ∷ put_entry id uid es

unfoldable pub upsert : Bool → Bytes → ℕ → Registry → Result RegistryError (Unit {0}) × Registry
unfolding rewrite
upsert writes id uid r = rewrite writes (record r { entries = put_entry id uid r.entries })

unfoldable pub drop_entries : Bytes → Entries → Entries
drop_entries id [] = []
drop_entries id ((eid, u) ∷ es) =
    if bytes_eq eid id then drop_entries id es else (eid, u) ∷ drop_entries id es

unfoldable pub remove : Bool → Bytes → Registry → Result RegistryError Bool × Registry
unfolding rewrite
remove writes id r =
    let kept = drop_entries id r.entries in
    let r' = record r { entries = kept } in
    if length kept == length r.entries
    then (ok false, r')
    else (let (res, r'') = rewrite writes r' in
        elim res [ ok _ ↦ (ok true, r'') | err e ↦ (err e, r'') ])
