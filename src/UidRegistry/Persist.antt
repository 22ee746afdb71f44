-- ===== src/UidRegistry/Persist.antt =====
-- The file: what is written is read back.
use hephaestus.Base.{
  ℕ, ◌≤◌, ◌≡◌, ◌≢◌, refl, sym, subst, true, false, Bool, Option, none, some, arith, List, [], ◌∷◌,
  ◌++◌, All, all, max_u32, append_assoc,
}
use hephaestus.Base.Text.{
  Bytes, lacks, lacks-append, lacks-cons, split, split-append, split_once, split_once-append, trim,
  trim_start, trim_end-cons, trim_end-append, lines, newline,
}
use hephaestus.Base.Decimal.{
  format, parse-format, parse-le, format-IsDigit, format-ne-nil, lacks-digits, trim_end-digits,
}
use hephaestus.Base.Checked.{Result, ok, err}
use hephaestus.UidRegistry.{
  Entries, Registry, RegistryError, corrupt, valid_id, is_id_byte, parse_line, add_line,
  parse_lines, open_registry, print_entries, upsert, put_entry,
}

-- The ids have the charset of the jailer and the uids fit their type.
abbrev pub IsRecordable : Entries → Type 0
IsRecordable = All (λ e. (valid_id e.0 ≡ true) × (e.1 ≤ max_u32))

lacks-id_bytes :
    (c : ℕ) (id : Bytes) → is_id_byte c ≡ false → all is_id_byte id ≡ true → lacks c id ≡ true
unfolding lacks
lacks-id_bytes c [] n a = refl
lacks-id_bytes c (d ∷ id) n a = ground (arith, lacks-id_bytes c id n)

lacks-valid_id :
    (c : ℕ) (id : Bytes) → is_id_byte c ≡ false → valid_id id ≡ true → lacks c id ≡ true
unfolding valid_id
lacks-valid_id c id n v = lacks-id_bytes c id n (ground arith)

abbrev line_of : Bytes → ℕ → Bytes
line_of id uid = id ++ 32 ∷ format uid

trim_start-id : (id s : Bytes) → valid_id id ≡ true → trim_start (id ++ s) ≡ id ++ s
unfolding valid_id
trim_start-id [] s v = ground arith
trim_start-id (c ∷ id) s v = ground arith

trim-line : (id : Bytes) (uid : ℕ) → valid_id id ≡ true → trim (line_of id uid) ≡ line_of id uid
trim-line id uid v = rw (trim_start-id id (32 ∷ format uid) v) (
    trim_end-append id (32 ∷ format uid) (λ q. cc)
      (trim_end-cons 32 (format uid) (format-ne-nil uid)
        (trim_end-digits (format uid) (format-IsDigit uid))))

parse_line-line_of :
    (id : Bytes) (uid : ℕ)
    → valid_id id ≡ true
    → uid ≤ max_u32
    → parse_line (line_of id uid) ≡ some (id, uid)
unfolding parse_line
parse_line-line_of id uid v h = ground (
  arith,
  split_once-append 32 id (format uid) (lacks-valid_id 32 id refl v),
  parse-format max_u32 uid h,
)

add_line-line_of :
    (id : Bytes) (uid : ℕ) (es : Entries)
    → valid_id id ≡ true
    → uid ≤ max_u32
    → add_line (line_of id uid) (ok es) ≡ ok ((id, uid) ∷ es)
unfolding add_line
add_line-line_of [] uid es v h = absurd (unfold valid_id in ground arith)
add_line-line_of (c ∷ id) uid es v h = ground (arith, parse_line-line_of (c ∷ id) uid v h)

lacks-line : (id : Bytes) (uid : ℕ) → valid_id id ≡ true → lacks newline (line_of id uid) ≡ true
lacks-line id uid v = lacks-append newline id (32 ∷ format uid) (lacks-valid_id newline id refl v) (
    lacks-cons newline 32 (format uid) (λ q. omega arith)
      (lacks-digits newline (format uid) (format-IsDigit uid) (omega arith)))

pub parse_lines-print_entries :
    (es : Entries) → IsRecordable es → parse_lines (split newline (print_entries es)) ≡ ok es
unfolding parse_lines print_entries
parse_lines-print_entries [] r = unfold split add_line in refl
parse_lines-print_entries ((id, uid) ∷ es) r =
    rw (← append_assoc id (32 ∷ format uid) (newline ∷ print_entries es)) (
      rw (split-append newline (line_of id uid) (print_entries es) (lacks-line id uid r.0.0)) (
        rw (trim-line id uid r.0.0, parse_lines-print_entries es r.1)
          (add_line-line_of id uid es r.0.0 r.0.1)))

-- A registry whose ids are valid and whose uids fit is read back from its file, entry for entry and
-- in order.
pub open_registry-print_entries :
    (es : Entries)
    → IsRecordable es
    → open_registry true true (print_entries es)
      ≡ ok (record { entries = es; file = print_entries es })
unfolding open_registry lines
open_registry-print_entries es r = rw (parse_lines-print_entries es r, open_registry)

pub put_entry-IsRecordable :
    (id : Bytes) (uid : ℕ) (es : Entries)
    → valid_id id ≡ true
    → uid ≤ max_u32
    → IsRecordable es
    → IsRecordable (put_entry id uid es)
unfolding put_entry
put_entry-IsRecordable id uid [] v h r = ((v, h), tt)
put_entry-IsRecordable id uid ((eid, u) ∷ es) v h r =
    ground (arith, put_entry-IsRecordable id uid es v h r.1)

-- A registration that was written, of a valid id and a uid that fits into a registry of such
-- entries, is there for the next process that opens the registry, with every other entry.
pub open_registry-upsert :
    (id : Bytes) (uid : ℕ) (r : Registry)
    → valid_id id ≡ true
    → uid ≤ max_u32
    → IsRecordable r.entries
    → let r' = (upsert true id uid r).1 in open_registry true true r'.file ≡ ok r'
unfolding upsert
open_registry-upsert id uid r v h k =
    open_registry-print_entries (put_entry id uid r.entries)
      (put_entry-IsRecordable id uid r.entries v h k)

corrupt_line :
    (line : Bytes) (rest : Result RegistryError Entries)
    → line ≢ []
    → parse_line line ≡ none
    → add_line line rest ≡ err (corrupt line)
unfolding add_line
corrupt_line [] rest n p = absurd (n refl)
corrupt_line (c ∷ s) rest n p = ground arith

parse_line_sound :
    (line : Bytes) (id : Bytes) (uid : ℕ)
    → parse_line line ≡ some (id, uid)
    → (valid_id id ≡ true) × (uid ≤ max_u32)
unfolding parse_line
parse_line_sound line id uid e = go (split_once 32 line) refl
  where
    go :
        (o : Option (Bytes × Bytes))
        → split_once 32 line ≡ o
        → (valid_id id ≡ true) × (uid ≤ max_u32)
    go none p = absurd (ground arith)
    go (some (a, b)) p = ground (arith, parse-le max_u32 b uid)

add_line_sound :
    (line : Bytes) (rest : Result RegistryError Entries) (es : Entries)
    → ((fs : Entries) → rest ≡ ok fs → IsRecordable fs)
    → add_line line rest ≡ ok es
    → IsRecordable es
unfolding add_line
add_line_sound [] rest es h e = h es e
add_line_sound (c ∷ s) rest es h e = go (parse_line (c ∷ s)) rest refl refl
  where
    go :
        (o : Option (Bytes × ℕ)) (r : Result RegistryError Entries)
        → parse_line (c ∷ s) ≡ o
        → rest ≡ r
        → IsRecordable es
    go none r p q = absurd (ground arith)
    go (some (id, uid)) (err x) p q = absurd (ground arith)
    go (some (id, uid)) (ok fs) p q =
        let same : es ≡ (id, uid) ∷ fs = ground arith in
        subst IsRecordable (sym same) (parse_line_sound (c ∷ s) id uid p, h fs q)

pub parse_lines_sound : (ls : List Bytes) (es : Entries) → parse_lines ls ≡ ok es → IsRecordable es
unfolding parse_lines
parse_lines_sound [] es e = let same : es ≡ [] = ground arith in subst IsRecordable (sym same) tt
parse_lines_sound (l ∷ ls) es e =
    add_line_sound (trim l) (parse_lines ls) es (λ fs. parse_lines_sound ls fs) e

-- Whatever text the file holds, if the registry is opened at all then every id has the jailer's
-- charset and length, and every uid fits its type.
pub open_registry-IsRecordable :
    (opened locked : Bool) (raw : Bytes) (r : Registry)
    → open_registry opened locked raw ≡ ok r
    → IsRecordable r.entries
unfolding open_registry lines
open_registry-IsRecordable opened locked raw r e = go (parse_lines (split newline raw)) refl
  where
    go :
        (x : Result RegistryError Entries)
        → parse_lines (split newline raw) ≡ x
        → IsRecordable r.entries
    go (err x) p = absurd (ground arith)
    go (ok es) p =
        let same : r.entries ≡ es = ground arith in
        subst IsRecordable (sym same) (parse_lines_sound (split newline raw) es p)
