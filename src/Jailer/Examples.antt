-- ===== src/Jailer/Examples.antt =====
-- Runs of the jailer on small inputs.
use hephaestus.Base.{
  ℕ, zero, suc, ◌≡◌, ◌≢◌, ◌++◌, refl, not, ◌==◌, true, false, Bool, if◌then◌else◌, arith, Option,
  none, some, List, [], ◌∷◌, unwrap_or,
}
use hephaestus.Base.Text.{Bytes, codes, bytes_eq, lacks}
use hephaestus.Base.Checked.{ok, is_ok}
use hephaestus.UidRegistry.{Entries, find_uid, drop_entries}
use hephaestus.Jailer.{Args, JailerError, instance_busy, Root, root_absent, lock_file, is_absent}
use hephaestus.Jailer.Locks.{acquire_instance_lock}
use hephaestus.Jailer.Identity.{validate_id, resolve_instance_identity}
use hephaestus.Jailer.Registration.{Reads}
use hephaestus.Jailer.Separation.Safety.{Steps-apart}
use hephaestus.Jailer.Separation.{
  Site, Step, begins, launches, Steps, stop, more, idle, claimed, live, enter,
}
use hephaestus.Jailer.Locks.{release_lock, under_lock}
use hephaestus.Jailer.Prepare.{prepare}
use hephaestus.Jailer.Teardown.{teardown}
use hephaestus.Jailer.Teardown.Retired.{Retired, teardown-Retired, teardown-held}
use hephaestus.Jailer.Claimed.{Takes, prepare-Takes}
use hephaestus.Jailer.Run.{run}
use hephaestus.Jailer.Released.{Restores, run-Restores}
use hephaestus.Jailer.Escape.{scheme_escape, xml_escape, quote, less_than, greater_than}
use hephaestus.Jailer.Escape.Reading.{read_string, read_string-scheme_escape}
use hephaestus.Jailer.Child.{Kernel, setgroups, setgid, setuid, drop_privileges}
use hephaestus.Jailer.Child.Dropped.{Granted, drop_calls, calls_to_uid, drop_privileges-order}
use hephaestus.Jailer.Samples.{host, vm, vm_a, vm_b, empty_root}

abbrev start : Site
start = record { root = empty_root; phase = λ k. idle }

abbrev root1 : Root
root1 = (acquire_instance_lock host vm_a empty_root).1

abbrev site1 : Site
site1 = enter vm_a claimed root1 start

abbrev root2 : Root
root2 = (resolve_instance_identity host (vm vm_a) (none, none) root1).1

abbrev site2 : Site
site2 = enter vm_a (live (some 502)) root2 site1

abbrev root3 : Root
root3 = (acquire_instance_lock host vm_b root2).1

abbrev site3 : Site
site3 = enter vm_b claimed root3 site2

abbrev root4 : Root
root4 = (resolve_instance_identity host (vm vm_b) (none, none) root3).1

abbrev site4 : Site
site4 = enter vm_b (live (some 503)) root4 site3

begun_a : Step start site1
unfolding validate_id hephaestus.UidRegistry.valid_id acquire_instance_lock
    hephaestus.Jailer.Locks.attempt_lock hephaestus.Jailer.Locks.create_lock_file
    hephaestus.Jailer.set_entry hephaestus.Jailer.set_held
begun_a = begins host vm_a start root1 refl refl

launched_a : Step site1 site2
unfolding resolve_instance_identity enter acquire_instance_lock hephaestus.Jailer.Locks.attempt_lock
    hephaestus.Jailer.Locks.create_lock_file hephaestus.Jailer.set_entry hephaestus.Jailer.set_held
    bytes_eq hephaestus.Jailer.Identity.identify_in_range hephaestus.Jailer.Identity.open_uids
    hephaestus.UidRegistry.open_registry hephaestus.UidRegistry.parse_lines
    hephaestus.Base.Text.lines hephaestus.UidRegistry.add_line hephaestus.UidRegistry.allocate
    find_uid hephaestus.UidRegistry.search_uid hephaestus.UidRegistry.uid_used
    hephaestus.Jailer.Identity.identify hephaestus.Jailer.Identity.register
    hephaestus.Base.Decimal.format hephaestus.Base.Decimal.parse hephaestus.Base.Text.split
    hephaestus.Jailer.Identity.lift hephaestus.Jailer.Identity.refuse_from
    hephaestus.Jailer.Identity.refuse_live_shared_uid hephaestus.Jailer.Locks.instance_lock_held
    hephaestus.UidRegistry.parse_line hephaestus.UidRegistry.print_entries
    hephaestus.UidRegistry.put_entry hephaestus.UidRegistry.rewrite hephaestus.UidRegistry.upsert
    hephaestus.UidRegistry.valid_id
launched_a =
    launches host (vm vm_a) (none, none) (some 502) (some 502) site1 root2 refl refl (omega arith)
      refl refl

begun_b : Step site2 site3
unfolding validate_id resolve_instance_identity enter acquire_instance_lock
    hephaestus.Jailer.Locks.attempt_lock hephaestus.Jailer.Locks.create_lock_file
    hephaestus.Jailer.set_entry hephaestus.Jailer.set_held bytes_eq
    hephaestus.Jailer.Identity.identify_in_range hephaestus.Jailer.Identity.open_uids
    hephaestus.UidRegistry.open_registry hephaestus.UidRegistry.parse_lines
    hephaestus.Base.Text.lines hephaestus.UidRegistry.add_line hephaestus.UidRegistry.allocate
    find_uid hephaestus.UidRegistry.search_uid hephaestus.UidRegistry.uid_used
    hephaestus.Jailer.Identity.identify hephaestus.Jailer.Identity.register
    hephaestus.Base.Decimal.format hephaestus.Base.Decimal.parse hephaestus.Base.Text.split
    hephaestus.Jailer.Identity.lift hephaestus.Jailer.Identity.refuse_from
    hephaestus.Jailer.Identity.refuse_live_shared_uid hephaestus.Jailer.Locks.instance_lock_held
    hephaestus.UidRegistry.parse_line hephaestus.UidRegistry.print_entries
    hephaestus.UidRegistry.put_entry hephaestus.UidRegistry.rewrite hephaestus.UidRegistry.upsert
    hephaestus.UidRegistry.valid_id
begun_b = begins host vm_b site2 root3 refl refl

launched_b : Step site3 site4
unfolding resolve_instance_identity enter acquire_instance_lock hephaestus.Jailer.Locks.attempt_lock
    hephaestus.Jailer.Locks.create_lock_file hephaestus.Jailer.set_entry hephaestus.Jailer.set_held
    bytes_eq hephaestus.Jailer.Identity.identify_in_range hephaestus.Jailer.Identity.open_uids
    hephaestus.UidRegistry.open_registry hephaestus.UidRegistry.parse_lines
    hephaestus.Base.Text.lines hephaestus.UidRegistry.add_line hephaestus.UidRegistry.allocate
    find_uid hephaestus.UidRegistry.search_uid hephaestus.UidRegistry.uid_used
    hephaestus.Jailer.Identity.identify hephaestus.Jailer.Identity.register
    hephaestus.Base.Decimal.format hephaestus.Base.Decimal.parse hephaestus.Base.Text.split
    hephaestus.Jailer.Identity.lift hephaestus.Jailer.Identity.refuse_from
    hephaestus.Jailer.Identity.refuse_live_shared_uid hephaestus.Jailer.Locks.instance_lock_held
    hephaestus.UidRegistry.parse_line hephaestus.UidRegistry.print_entries
    hephaestus.UidRegistry.put_entry hephaestus.UidRegistry.rewrite hephaestus.UidRegistry.upsert
    hephaestus.UidRegistry.valid_id
launched_b =
    launches host (vm vm_b) (none, none) (some 503) (some 503) site3 root4 refl refl (omega arith)
      refl refl

both_live : Steps start site4
both_live = more (more (more (more stop begun_a) launched_a) begun_b) launched_b

nothing_read : Reads none []
unfolding hephaestus.Base.Text.lines hephaestus.Base.Text.split hephaestus.UidRegistry.parse_lines
    hephaestus.UidRegistry.add_line
nothing_read = refl

b_live : site4.phase vm_b ≡ live (some 503)
unfolding enter bytes_eq
b_live = refl

Steps-apart_example : vm_b ≡ vm_b
Steps-apart_example =
    Steps-apart start site4 [] vm_b vm_b 503 (λ k. refl) nothing_read both_live b_live b_live

abbrev both : Entries
both = (vm_a, 502) ∷ (vm_b, 503) ∷ []

b_held : root4.held vm_b ≡ true
unfolding acquire_instance_lock hephaestus.Jailer.Locks.attempt_lock
    hephaestus.Jailer.Locks.create_lock_file hephaestus.Jailer.set_entry hephaestus.Jailer.set_held
    bytes_eq resolve_instance_identity hephaestus.Jailer.Identity.identify_in_range
    hephaestus.Jailer.Identity.open_uids hephaestus.UidRegistry.open_registry
    hephaestus.UidRegistry.parse_lines hephaestus.Base.Text.lines hephaestus.UidRegistry.add_line
    hephaestus.UidRegistry.allocate find_uid hephaestus.UidRegistry.search_uid
    hephaestus.UidRegistry.uid_used hephaestus.Jailer.Identity.identify
    hephaestus.Jailer.Identity.register hephaestus.Base.Decimal.format hephaestus.Base.Decimal.parse
    hephaestus.Base.Text.split hephaestus.Jailer.Identity.lift
    hephaestus.Jailer.Identity.refuse_from hephaestus.Jailer.Identity.refuse_live_shared_uid
    hephaestus.Jailer.Locks.instance_lock_held hephaestus.UidRegistry.parse_line
    hephaestus.UidRegistry.print_entries hephaestus.UidRegistry.put_entry
    hephaestus.UidRegistry.rewrite hephaestus.UidRegistry.upsert hephaestus.UidRegistry.valid_id
b_held = refl

b_locked : is_absent (root4.entry vm_b lock_file) ≡ false
unfolding acquire_instance_lock hephaestus.Jailer.Locks.attempt_lock
    hephaestus.Jailer.Locks.create_lock_file hephaestus.Jailer.set_entry hephaestus.Jailer.set_held
    bytes_eq resolve_instance_identity hephaestus.Jailer.Identity.identify_in_range
    hephaestus.Jailer.Identity.open_uids hephaestus.UidRegistry.open_registry
    hephaestus.UidRegistry.parse_lines hephaestus.Base.Text.lines hephaestus.UidRegistry.add_line
    hephaestus.UidRegistry.allocate find_uid hephaestus.UidRegistry.search_uid
    hephaestus.UidRegistry.uid_used hephaestus.Jailer.Identity.identify
    hephaestus.Jailer.Identity.register hephaestus.Base.Decimal.format hephaestus.Base.Decimal.parse
    hephaestus.Base.Text.split hephaestus.Jailer.Identity.lift
    hephaestus.Jailer.Identity.refuse_from hephaestus.Jailer.Identity.refuse_live_shared_uid
    hephaestus.Jailer.Locks.instance_lock_held hephaestus.UidRegistry.parse_line
    hephaestus.UidRegistry.print_entries hephaestus.UidRegistry.put_entry
    hephaestus.UidRegistry.rewrite hephaestus.UidRegistry.upsert hephaestus.UidRegistry.valid_id
b_locked = refl

trusted : root4.node ≢ root_absent
unfolding acquire_instance_lock hephaestus.Jailer.Locks.attempt_lock
    hephaestus.Jailer.Locks.create_lock_file hephaestus.Jailer.set_entry hephaestus.Jailer.set_held
    bytes_eq resolve_instance_identity hephaestus.Jailer.Identity.identify_in_range
    hephaestus.Jailer.Identity.open_uids hephaestus.UidRegistry.open_registry
    hephaestus.UidRegistry.parse_lines hephaestus.Base.Text.lines hephaestus.UidRegistry.add_line
    hephaestus.UidRegistry.allocate find_uid hephaestus.UidRegistry.search_uid
    hephaestus.UidRegistry.uid_used hephaestus.Jailer.Identity.identify
    hephaestus.Jailer.Identity.register hephaestus.Base.Decimal.format hephaestus.Base.Decimal.parse
    hephaestus.Base.Text.split hephaestus.Jailer.Identity.lift
    hephaestus.Jailer.Identity.refuse_from hephaestus.Jailer.Identity.refuse_live_shared_uid
    hephaestus.Jailer.Locks.instance_lock_held hephaestus.UidRegistry.parse_line
    hephaestus.UidRegistry.print_entries hephaestus.UidRegistry.put_entry
    hephaestus.UidRegistry.rewrite hephaestus.UidRegistry.upsert hephaestus.UidRegistry.valid_id
trusted = λ e. cc

teardown-held_example :
    ((teardown host (vm vm_b) root4).1 ≡ root4)
    × (root4.node ≢ root_absent → is_ok (teardown host (vm vm_b) root4).0 ≡ false)
teardown-held_example = teardown-held host (vm vm_b) root4 b_held b_locked

abbrev exited_a : Root
exited_a = release_lock vm_a root4

both_read : Reads exited_a.registry both
unfolding release_lock acquire_instance_lock hephaestus.Jailer.Locks.attempt_lock
    hephaestus.Jailer.Locks.create_lock_file hephaestus.Jailer.set_entry hephaestus.Jailer.set_held
    bytes_eq resolve_instance_identity hephaestus.Jailer.Identity.identify_in_range
    hephaestus.Jailer.Identity.open_uids hephaestus.UidRegistry.open_registry
    hephaestus.UidRegistry.parse_lines hephaestus.Base.Text.lines hephaestus.UidRegistry.add_line
    hephaestus.UidRegistry.allocate find_uid hephaestus.UidRegistry.search_uid
    hephaestus.UidRegistry.uid_used hephaestus.Jailer.Identity.identify
    hephaestus.Jailer.Identity.register hephaestus.Base.Decimal.format hephaestus.Base.Decimal.parse
    hephaestus.Base.Text.split hephaestus.Jailer.Identity.lift
    hephaestus.Jailer.Identity.refuse_from hephaestus.Jailer.Identity.refuse_live_shared_uid
    hephaestus.Jailer.Locks.instance_lock_held hephaestus.UidRegistry.parse_line
    hephaestus.UidRegistry.print_entries hephaestus.UidRegistry.put_entry
    hephaestus.UidRegistry.rewrite hephaestus.UidRegistry.upsert hephaestus.UidRegistry.valid_id
both_read = refl

abbrev torn_down : Root
torn_down = (teardown host (vm vm_a) exited_a).1

a_torn_down : teardown host (vm vm_a) exited_a ≡ (ok tt, torn_down)
unfolding teardown hephaestus.Jailer.Prepare.check_id validate_id
    hephaestus.Jailer.Prepare.assert_trusted_work_root hephaestus.Jailer.Teardown.retire_claimed
    hephaestus.Jailer.Teardown.retire hephaestus.Jailer.Prepare.remove_if_there
    hephaestus.Jailer.Prepare.remove_entry hephaestus.Jailer.Prepare.unlink
    hephaestus.Jailer.Teardown.forget_uid hephaestus.Jailer.Teardown.unregister
    hephaestus.UidRegistry.remove drop_entries release_lock under_lock acquire_instance_lock
    hephaestus.Jailer.Locks.attempt_lock hephaestus.Jailer.Locks.create_lock_file
    hephaestus.Jailer.set_entry hephaestus.Jailer.set_held bytes_eq resolve_instance_identity
    hephaestus.Jailer.Identity.identify_in_range hephaestus.Jailer.Identity.open_uids
    hephaestus.UidRegistry.open_registry hephaestus.UidRegistry.parse_lines
    hephaestus.Base.Text.lines hephaestus.UidRegistry.add_line hephaestus.UidRegistry.allocate
    find_uid hephaestus.UidRegistry.search_uid hephaestus.UidRegistry.uid_used
    hephaestus.Jailer.Identity.identify hephaestus.Jailer.Identity.register
    hephaestus.Base.Decimal.format hephaestus.Base.Decimal.parse hephaestus.Base.Text.split
    hephaestus.Jailer.Identity.lift hephaestus.Jailer.Identity.refuse_from
    hephaestus.Jailer.Identity.refuse_live_shared_uid hephaestus.Jailer.Locks.instance_lock_held
    hephaestus.UidRegistry.parse_line hephaestus.UidRegistry.print_entries
    hephaestus.UidRegistry.put_entry hephaestus.UidRegistry.rewrite hephaestus.UidRegistry.upsert
    hephaestus.UidRegistry.valid_id
a_torn_down = refl

teardown-Retired_example :
    Retired vm_a both exited_a torn_down
    × ((k : Bytes)
        → find_uid k (drop_entries vm_a both) ≡ (if bytes_eq vm_a k then none else find_uid k both))
unfolding release_lock hephaestus.Jailer.set_held resolve_instance_identity
teardown-Retired_example =
    teardown-Retired host (vm vm_a) both exited_a torn_down trusted both_read a_torn_down

prepare-Takes_example : Takes vm_a empty_root (prepare host (vm vm_a) (none, none) empty_root)
prepare-Takes_example = prepare-Takes host (vm vm_a) (none, none) empty_root

run-Restores_example : Restores empty_root (run host (vm vm_a) empty_root)
run-Restores_example = run-Restores host (vm vm_a) empty_root

read_string-scheme_escape_example :
    read_string (scheme_escape (codes "/a\"b\\c") ++ quote ∷ codes ")")
    ≡ some (codes "/a\"b\\c", codes ")")
read_string-scheme_escape_example = read_string-scheme_escape (codes "/a\"b\\c") (codes ")")

escaped : scheme_escape (codes "a\\b\"c") ≡ codes "a\\\\b\\\"c"
unfolding scheme_escape hephaestus.Jailer.Escape.replace
escaped = refl

-- A kernel that does everything for root, and makes nobody else root.
abbrev kernel : Kernel
kernel calls (setuid uid) = not (uid == 0)
kernel calls _ = true

dropped :
    drop_privileges kernel 0 (some 502) (some 20) []
    ≡ (ok tt, setgroups 20 ∷ setgid 20 ∷ setuid 502 ∷ setuid 0 ∷ [])
unfolding drop_privileges hephaestus.Jailer.Child.drop_uid hephaestus.Jailer.Child.stay_dropped
dropped = refl

drop_privileges-order_example :
    (setgroups 20 ∷ setgid 20 ∷ setuid 502 ∷ setuid 0 ∷ [] ≡ [] ++ drop_calls 0 502 (some 20))
    × Granted kernel [] (calls_to_uid 0 502 (some 20))
    × (kernel ([] ++ calls_to_uid 0 502 (some 20)) (setuid 0) ≡ false)
drop_privileges-order_example =
    drop_privileges-order kernel 0 502 (some 20) []
      (setgroups 20 ∷ setgid 20 ∷ setuid 502 ∷ setuid 0 ∷ []) (λ e. omega arith) dropped
