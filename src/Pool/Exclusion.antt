-- ===== src/Pool/Exclusion.antt =====
-- Mutual exclusion: processes that share a pool never hold one slot twice.
use hephaestus.Base.{
  ℕ, ◌≡◌, ◌≢◌, sym, subst, true, false, none, some, arith, ap, All, List, [], ◌∷◌, ◌++◌,
}
use hephaestus.Base.Checked.{ok}
use hephaestus.Pool.{Pool, Host, Disk, ClaimedSlot, update, try_claim_slot, drop_slot}
use hephaestus.Pool.Claims.{try_claim_slot-first, try_claim_slot-full}

-- Processes that share a pool: who claims and who releases, in any order.
pub record Site : Type 0 where
  pub disk : Disk
  pub live : List ClaimedSlot

pub data Step (p : Pool) (u v : Site) : Type 0 where
  claims :
      (h : Host) (s : ClaimedSlot)
      → (try_claim_slot h p u.disk).0 ≡ ok (some s)
      → v ≡ record { disk = (try_claim_slot h p u.disk).1; live = s ∷ u.live }
      → Step p u v
  finds_none :
      (h : Host)
      → (try_claim_slot h p u.disk).0 ≡ ok none
      → v ≡ record u { disk = (try_claim_slot h p u.disk).1 }
      → Step p u v
  releases :
      (before after : List ClaimedSlot) (s : ClaimedSlot)
      → u.live ≡ before ++ s ∷ after
      → v ≡ record { disk = drop_slot s u.disk; live = before ++ after }
      → Step p u v

pub data Steps (p : Pool) (u : Site) : Site → Type 0 where
  here : Steps p u u
  next : {v w : Site} → Steps p u v → Step p v w → Steps p u w

abbrev pub Others : ℕ → List ClaimedSlot → Type 0
Others i = All (λ s. s.index ≢ i)

abbrev pub Exclusive : List ClaimedSlot → Type 0
Exclusive [] = Unit {0}
Exclusive (s ∷ ss) = Others s.index ss × Exclusive ss

abbrev pub Held : Disk → List ClaimedSlot → Type 0
Held d = All (λ s. d.locked s.index ≡ true)

pub record IsSafe (u : Site) : Type 0 where
  pub exclusive : Exclusive u.live
  pub held : Held u.disk u.live

free-Others :
    (d : Disk) (i : ℕ) (ss : List ClaimedSlot) → d.locked i ≡ false → Held d ss → Others i ss
free-Others d i [] f h = tt
free-Others d i (s ∷ ss) f h = (λ e. cc (h.0, f, ap d.locked e), free-Others d i ss f h.1)

lock-Held :
    (d : Disk) (i : ℕ) (ss : List ClaimedSlot)
    → Held d ss
    → Held (record d { locked = update d.locked i true }) ss
unfolding update
lock-Held d i [] h = tt
lock-Held d i (s ∷ ss) h = (ground arith, lock-Held d i ss h.1)

drop-Held :
    (d : Disk) (s : ClaimedSlot) (ss : List ClaimedSlot)
    → Others s.index ss
    → Held d ss
    → Held (drop_slot s d) ss
unfolding drop_slot
drop-Held d s [] o h = tt
drop-Held d s (t ∷ ss) o h = (ground arith, drop-Held d s ss o.1 h.1)

Others-middle :
    (i : ℕ) (before after : List ClaimedSlot) (s : ClaimedSlot)
    → Others i (before ++ s ∷ after)
    → (s.index ≢ i) × Others i (before ++ after)
Others-middle i [] after s o = o
Others-middle i (t ∷ before) after s o =
    let (n, m) = Others-middle i before after s o.1 in (n, (o.0, m))

Exclusive-middle :
    (before after : List ClaimedSlot) (s : ClaimedSlot)
    → Exclusive (before ++ s ∷ after)
    → Others s.index (before ++ after) × Exclusive (before ++ after)
Exclusive-middle [] after s e = e
Exclusive-middle (t ∷ before) after s e =
    let (n, m) = Others-middle t.index before after s e.0 in
    let (o, x) = Exclusive-middle before after s e.1 in (((λ q. n (sym q)), o), (m, x))

Held-middle :
    (d : Disk) (before after : List ClaimedSlot) (s : ClaimedSlot)
    → Held d (before ++ s ∷ after)
    → Held d (before ++ after)
Held-middle d [] after s h = h.1
Held-middle d (t ∷ before) after s h = (h.0, Held-middle d before after s h.1)

claimed-IsSafe :
    (h : Host) (p : Pool) (u : Site) (s : ClaimedSlot)
    → (try_claim_slot h p u.disk).0 ≡ ok (some s)
    → IsSafe u
    → IsSafe (record { disk = (try_claim_slot h p u.disk).1; live = s ∷ u.live })
unfolding update
claimed-IsSafe h p u s e safe =
    let (_, _, free, _, eq) = try_claim_slot-first h p u.disk s e in
    record {
      exclusive = (free-Others u.disk s.index u.live free safe.held, safe.exclusive);
      held =
          subst (λ d. Held d (s ∷ u.live)) (sym eq)
            (ground arith, lock-Held u.disk s.index u.live safe.held);
    }

released-IsSafe :
    (u : Site) (before after : List ClaimedSlot) (s : ClaimedSlot)
    → u.live ≡ before ++ s ∷ after
    → IsSafe u
    → IsSafe (record { disk = drop_slot s u.disk; live = before ++ after })
released-IsSafe u before after s e safe =
    let (o, x) = Exclusive-middle before after s (subst Exclusive e safe.exclusive) in
    record {
      exclusive = x;
      held =
          drop-Held u.disk s (before ++ after) o
            (Held-middle u.disk before after s (subst (Held u.disk) e safe.held));
    }

Step-IsSafe : {p : Pool} {u v : Site} → Step p u v → IsSafe u → IsSafe v
Step-IsSafe {p} {u} (claims h s e q) safe = subst IsSafe (sym q) (claimed-IsSafe h p u s e safe)
Step-IsSafe {p} {u} (finds_none h e q) safe = subst IsSafe (sym q) (record {
  exclusive = safe.exclusive;
  held = subst (λ d. Held d u.live) (sym (try_claim_slot-full h p u.disk e).1) safe.held;
})
Step-IsSafe {p} {u} (releases before after s e q) safe =
    subst IsSafe (sym q) (released-IsSafe u before after s e safe)

IsSafe-Steps : {p : Pool} {u v : Site} → IsSafe u → Steps p u v → IsSafe v
IsSafe-Steps safe here = safe
IsSafe-Steps safe (next r st) = Step-IsSafe st (IsSafe-Steps safe r)

-- However processes claim and release the slots of a pool, from a state in which nobody holds one,
-- no two live claims ever have the same slot, and the lock of each is held.
pub Steps-IsSafe :
    {p : Pool} {u v : Site} → u.live ≡ [] → Steps p u v → Exclusive v.live × Held v.disk v.live
Steps-IsSafe {u = u} e steps =
    let start : IsSafe u = record {
      exclusive = subst Exclusive (sym e) tt;
      held = subst (Held u.disk) (sym e) tt;
    } in
    let safe = IsSafe-Steps start steps in (safe.exclusive, safe.held)
