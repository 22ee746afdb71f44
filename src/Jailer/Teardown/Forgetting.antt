-- ===== src/Jailer/Teardown/Forgetting.antt =====
-- What forgetting a uid changes.
use hephaestus.Base.{
  ◌≤◌, ◌≡◌, ◌≢◌, refl, sym, inl, inr, ap, subst, ◌∙◌, true, false, Bool, none, some, is_some, arith,
  [], ◌∷◌, unwrap_or, Bool-cases, length, ◌==◌,
}
use hephaestus.Base.Text.{Bytes, lines, split}
use hephaestus.Base.Checked.{ok}
use hephaestus.UidRegistry.{
  Registry, Entries, valid_id, find_uid, drop_entries, print_entries, remove, parse_lines,
}
use hephaestus.UidRegistry.Persist.{IsRecordable, parse_lines-print_entries, parse_lines_sound}
use hephaestus.Jailer.{Root, Host, Action, Done, ◌>>=◌, done}
use hephaestus.Jailer.Identity.{lift, open_uids}
use hephaestus.Jailer.Registration.{Reads, opened}
use hephaestus.Jailer.Teardown.{unregister, forget_uid}
use hephaestus.Jailer.Teardown.Removal.{bind-ok}

-- What forgetting a uid changes: the entries of one instance.
pub record Forgets (id : Bytes) (es : Entries) (s s' : Root) : Type 0 where
  pub reads : Reads s'.registry (drop_entries id es)
  pub held : s'.held ≡ s.held
  pub entry : s'.entry ≡ s.entry

length-drop_entries : (id : Bytes) (es : Entries) → length (drop_entries id es) ≤ length es
unfolding drop_entries
length-drop_entries id [] = omega arith
length-drop_entries id ((k, u) ∷ es) = ground (arith, length-drop_entries id es)

drop_entries-same :
    (id : Bytes) (es : Entries) → length (drop_entries id es) ≡ length es → drop_entries id es ≡ es
unfolding drop_entries
drop_entries-same id [] e = refl
drop_entries-same id ((k, u) ∷ es) e =
    ground (arith, length-drop_entries id es, drop_entries-same id es)

drop_entries-IsRecordable :
    (id : Bytes) (es : Entries) → IsRecordable es → IsRecordable (drop_entries id es)
unfolding drop_entries
drop_entries-IsRecordable id [] r = tt
drop_entries-IsRecordable id ((k, u) ∷ es) r = ground (arith, drop_entries-IsRecordable id es)

remove-file-same :
    (writes : Bool) (id : Bytes) (reg : Registry)
    → length (drop_entries id reg.entries) ≡ length reg.entries
    → (remove writes id reg).1.file ≡ reg.file
unfolding remove
remove-file-same writes id reg e = ground arith

remove-file-new :
    (writes b : Bool) (id : Bytes) (reg : Registry)
    → length (drop_entries id reg.entries) ≢ length reg.entries
    → (remove writes id reg).0 ≡ ok b
    → (remove writes id reg).1.file ≡ print_entries (drop_entries id reg.entries)
unfolding remove hephaestus.UidRegistry.rewrite
remove-file-new writes b id reg n e = ground arith

-- The file after a removal that did not fail.
remove-Reads :
    (writes b : Bool) (id : Bytes) (reg : Registry)
    → Reads (some reg.file) reg.entries
    → (remove writes id reg).0 ≡ ok b
    → Reads (some (remove writes id reg).1.file) (drop_entries id reg.entries)
unfolding lines
remove-Reads writes b id reg r e =
    let es = reg.entries in
    let kept = drop_entries id es in
    elim (Bool-cases (length kept == length es)) [
      | inl same ↦
          let l : length kept ≡ length es = ground arith in
          subst (λ f. Reads (some f) kept) (sym (remove-file-same writes id reg l))
            (subst (Reads (some reg.file)) (sym (drop_entries-same id es l)) r)
      | inr fewer ↦
          let l : length kept ≢ length es = λ x. ground (arith, x, fewer) in
          subst (λ f. Reads (some f) kept) (sym (remove-file-new writes b id reg l e))
            (parse_lines-print_entries kept
              (drop_entries-IsRecordable id es (parse_lines_sound (lines reg.file) es r)))
    ]

open_uids-success :
    (h : Host) (s t : Root) (es : Entries) (reg : Registry)
    → Reads s.registry es
    → open_uids h s ≡ (ok reg, t)
    → (reg.entries ≡ es) × (reg.file ≡ unwrap_or s.registry []) × (t ≡ opened s)
unfolding open_uids lift hephaestus.UidRegistry.open_registry
open_uids-success h s t es reg r e = ground arith

unregister-success :
    (h : Host) (id : Bytes) (reg : Registry) (s t : Root) (b : Bool)
    → unregister h id reg s ≡ (ok b, t)
    → ((remove h.registry_writes id reg).0 ≡ ok b)
      × (t ≡ record s { registry = some (remove h.registry_writes id reg).1.file })
unfolding unregister lift
unregister-success h id reg s t b e = ground arith

unregister-Forgets :
    (h : Host) (id : Bytes) (es : Entries) (s t u : Root) (reg : Registry) (b : Bool)
    → Reads s.registry es
    → open_uids h s ≡ (ok reg, t)
    → unregister h id reg t ≡ (ok b, u)
    → Forgets id es s u
unregister-Forgets h id es s t u reg b r o e =
    let (entries, file, there) = open_uids-success h s t es reg r o in
    let (removed, left) = unregister-success h id reg t u b e in
    let reads : Reads (some reg.file) reg.entries =
      subst (Reads (some reg.file)) (sym entries) (subst (λ f. Reads (some f) es) (sym file) r) in
    record {
      reads =
          subst (λ x. Reads x.registry (drop_entries id es)) (sym left)
            (subst
              (λ fs. Reads (some (remove h.registry_writes id reg).1.file) (drop_entries id fs))
              entries (remove-Reads h.registry_writes b id reg reads removed));
      held = ap (λ x. x.held) left ∙ ap (λ x. x.held) there;
      entry = ap (λ x. x.entry) left ∙ ap (λ x. x.entry) there;
    }

no_file-Forgets :
    (id : Bytes) (es : Entries) (s : Root)
    → s.registry ≡ none
    → Reads s.registry es
    → Forgets id es s s
unfolding drop_entries lines split parse_lines hephaestus.UidRegistry.add_line
no_file-Forgets id es s n r =
    let empty : es ≡ [] = ground (arith, subst (λ x. Reads x es) n r) in
    record {
      reads = subst (Reads s.registry) (subst (λ x. x ≡ drop_entries id x) (sym empty) refl) r;
      held = refl;
      entry = refl;
    }

abbrev forgetting : Host → Bytes → Action Done
forgetting h id = open_uids h >>= λ reg. unregister h id reg >>= λ _. done

forget_uid-there :
    (h : Host) (id : Bytes) (s : Root)
    → is_some s.registry ≡ true
    → forget_uid h id s ≡ forgetting h id s
unfolding forget_uid
forget_uid-there h id s i = ground arith

forget_uid-absent :
    (h : Host) (id : Bytes) (s : Root) → is_some s.registry ≡ false → forget_uid h id s ≡ (ok tt, s)
unfolding forget_uid
forget_uid-absent h id s i = ground arith

forgetting-Forgets :
    (h : Host) (id : Bytes) (es : Entries) (s s' : Root)
    → Reads s.registry es
    → forgetting h id s ≡ (ok tt, s')
    → Forgets id es s s'
forgetting-Forgets h id es s s' r e =
    let (reg, t, o, e') =
      bind-ok (open_uids h) (λ reg. unregister h id reg >>= λ _. done) s s' tt e in
    let (b, u, x, e'') = bind-ok (unregister h id reg) (λ _. done) t s' tt e' in
    subst (Forgets id es s) (ap (λ x. x.1) e'') (unregister-Forgets h id es s t u reg b r o x)

pub forget_uid-Forgets :
    (h : Host) (id : Bytes) (es : Entries) (s s' : Root)
    → Reads s.registry es
    → forget_uid h id s ≡ (ok tt, s')
    → Forgets id es s s'
forget_uid-Forgets h id es s s' r e = elim (Bool-cases (is_some s.registry)) [
  | inl i ↦ forgetting-Forgets h id es s s' r (sym (forget_uid-there h id s i) ∙ e)
  | inr i ↦
      subst (Forgets id es s) (ap (λ x. x.1) (sym (forget_uid-absent h id s i) ∙ e))
        (no_file-Forgets id es s (ground arith) r)
]
