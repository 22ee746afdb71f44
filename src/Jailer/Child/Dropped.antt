-- ===== src/Jailer/Child/Dropped.antt =====
-- What the child has done when it becomes the daemon.
use hephaestus.Base.{
  ℕ, ◌≡◌, ◌≢◌, true, false, arith, Option, none, some, List, [], ◌∷◌, ◌++◌, append_assoc,
}
use hephaestus.Base.Checked.{ok}
use hephaestus.Jailer.Child.{
  Call, setgroups, setgid, setuid, Kernel, stay_dropped, drop_uid, drop_privileges,
}

-- The calls of a privilege drop, in their order: the groups, the group, the user, and the attempt to
-- become root again.
abbrev pub drop_calls : (getgid uid : ℕ) → Option ℕ → List Call
drop_calls getgid uid none = setgroups getgid ∷ setuid uid ∷ setuid 0 ∷ []
drop_calls getgid uid (some gid) = setgroups gid ∷ setgid gid ∷ setuid uid ∷ setuid 0 ∷ []

-- All but the last.
abbrev pub calls_to_uid : (getgid uid : ℕ) → Option ℕ → List Call
calls_to_uid getgid uid none = setgroups getgid ∷ setuid uid ∷ []
calls_to_uid getgid uid (some gid) = setgroups gid ∷ setgid gid ∷ setuid uid ∷ []

-- The kernel does each of the calls, after those before it.
abbrev pub Granted : Kernel → List Call → List Call → Type 0
Granted kernel before [] = Unit
Granted kernel before (c ∷ cs) = (kernel before c ≡ true) × Granted kernel (before ++ c ∷ []) cs

-- A child that drops to a uid other than 0 and goes on has asked for its groups, then for its group if
-- it has one to set, and then for its user; the kernel has done each of these calls, and has then
-- refused to make it root again.
pub drop_privileges-order :
    (kernel : Kernel) (getgid uid : ℕ) (gid : Option ℕ) (before after : List Call)
    → uid ≢ 0
    → drop_privileges kernel getgid (some uid) gid before ≡ (ok tt, after)
    → (after ≡ before ++ drop_calls getgid uid gid)
      × Granted kernel before (calls_to_uid getgid uid gid)
      × (kernel (before ++ calls_to_uid getgid uid gid) (setuid 0) ≡ false)
unfolding drop_privileges drop_uid stay_dropped
drop_privileges-order kernel getgid uid none before after n e = ground (
  arith,
  append_assoc before (setgroups getgid ∷ []) (setuid uid ∷ []),
  append_assoc before (setgroups getgid ∷ setuid uid ∷ []) (setuid 0 ∷ []),
)
drop_privileges-order kernel getgid uid (some gid) before after n e = ground (
  arith,
  append_assoc before (setgroups gid ∷ []) (setgid gid ∷ []),
  append_assoc before (setgroups gid ∷ setgid gid ∷ []) (setuid uid ∷ []),
  append_assoc before (setgroups gid ∷ setgid gid ∷ setuid uid ∷ []) (setuid 0 ∷ []),
)
