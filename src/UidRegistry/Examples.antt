-- ===== src/UidRegistry/Examples.antt =====
-- Runs of the registry on small inputs.
use hephaestus.Base.{
  ℕ, ◌≤◌, ◌<◌, ◌≡◌, ◌≢◌, refl, true, false, Bool, ◌==◌, Option, none, some, arith, if◌then◌else◌,
  List, [], ◌∷◌, max_u32,
}
use hephaestus.Base.Text.{Bytes, codes, bytes_eq, bytes_eq_iff}
use hephaestus.Base.Checked.{ok, err}
use hephaestus.UidRegistry.{
  Entries, Registry, corrupt, exhausted, valid_id, find_uid, uid_used, allocate, upsert, remove,
  open_registry, print_entries,
}
use hephaestus.UidRegistry.Allocate.{
  IsFree, range_end, Distinct, allocate-lowest, allocate-exhausted, upsert-allocate-Distinct,
}
use hephaestus.UidRegistry.Persist.{
  IsRecordable, open_registry-print_entries, open_registry-IsRecordable,
}

abbrev two : Entries
two = (codes "vm-a", 501) ∷ (codes "vm-b", 503) ∷ []

abbrev on_disk : Registry
on_disk = record { entries = two; file = [] }

-- Uid 502 is an account of the host.
abbrev taken : ℕ → Bool
taken uid = uid == 502

lowest : allocate taken two (codes "vm-c") 501 10 ≡ ok 504
unfolding allocate find_uid bytes_eq hephaestus.UidRegistry.search_uid
    hephaestus.UidRegistry.uid_used
lowest = refl

none_left : allocate taken two (codes "vm-c") 501 3 ≡ err (exhausted (codes "vm-c") 501 504)
unfolding allocate find_uid bytes_eq hephaestus.UidRegistry.search_uid
    hephaestus.UidRegistry.uid_used
none_left = refl

two-IsRecordable : IsRecordable two
unfolding valid_id
two-IsRecordable = ((refl, omega arith), ((refl, omega arith), tt))

printed : print_entries two ≡ codes "vm-a 501\nvm-b 503\n"
unfolding print_entries hephaestus.Base.Decimal.format
printed = refl

broken_line : open_registry true true (codes "vm-a 501\n../x 1\n") ≡ err (corrupt (codes "../x 1"))
unfolding open_registry hephaestus.UidRegistry.parse_lines hephaestus.Base.Text.lines
    hephaestus.UidRegistry.add_line hephaestus.UidRegistry.parse_line valid_id
    hephaestus.Base.Decimal.parse
broken_line = refl

opened :
    open_registry true true (codes "vm-a 501\n")
    ≡ ok (record { entries = (codes "vm-a", 501) ∷ []; file = codes "vm-a 501\n" })
unfolding open_registry hephaestus.UidRegistry.parse_lines hephaestus.Base.Text.lines
    hephaestus.UidRegistry.add_line hephaestus.UidRegistry.parse_line valid_id
    hephaestus.Base.Decimal.parse
opened = refl

unknown : find_uid (codes "vm-c") two ≡ none
unfolding find_uid bytes_eq
unknown = refl

two-Distinct : Distinct two
unfolding uid_used
two-Distinct = (refl, (refl, tt))

different : codes "vm-c" ≢ codes "vm-a"
unfolding bytes_eq
different = λ e. let same : false ≡ true = (bytes_eq_iff (codes "vm-c") (codes "vm-a")).1 e in cc

allocate-lowest_example :
    (501 ≤ 504)
    × (504 < range_end 501 10)
    × IsFree taken two 504
    × ((v : ℕ) → 501 ≤ v → v < 504 → ¬ IsFree taken two v)
allocate-lowest_example = allocate-lowest taken two (codes "vm-c") 501 10 504 unknown lowest

allocate-exhausted_example :
    (find_uid (codes "vm-c") two ≡ none)
    × (exhausted (codes "vm-c") 501 504 ≡ exhausted (codes "vm-c") 501 (range_end 501 3))
    × ((v : ℕ) → 501 ≤ v → v < range_end 501 3 → ¬ IsFree taken two v)
allocate-exhausted_example =
    allocate-exhausted taken two (codes "vm-c") 501 3 (exhausted (codes "vm-c") 501 504) none_left

upsert-allocate-Distinct_example : Distinct (upsert true (codes "vm-c") 504 on_disk).1.entries
upsert-allocate-Distinct_example =
    upsert-allocate-Distinct taken true (codes "vm-c") 501 10 504 on_disk unknown lowest
      two-Distinct

open_registry-print_entries_example :
    open_registry true true (print_entries two)
    ≡ ok (record { entries = two; file = print_entries two })
open_registry-print_entries_example = open_registry-print_entries two two-IsRecordable

c-valid : valid_id (codes "vm-c") ≡ true
unfolding valid_id
c-valid = refl

open_registry-IsRecordable_example : IsRecordable ((codes "vm-a", 501) ∷ [])
open_registry-IsRecordable_example =
    open_registry-IsRecordable true true (codes "vm-a 501\n")
      (record { entries = (codes "vm-a", 501) ∷ []; file = codes "vm-a 501\n" }) opened
