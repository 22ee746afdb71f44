-- ===== src/Pool/Claims.antt =====
-- Claiming: the first slot that nobody holds, and never a slot that somebody holds.
use hephaestus.Base.{ℕ, zero, suc, ◌+◌, ◌≤◌, ◌<◌, ◌≡◌, refl, true, false, none, some, arith}
use hephaestus.Base.Checked.{ok, err}
use hephaestus.Pool.{
  PoolError, Pool, Host, Disk, ClaimedSlot, claim_from, slot, update, try_claim_slot, run,
}

-- What a claim that returns slot `j`, of those from `i` on, has found and done.
abbrev pub Claims : Host → Pool → (n i j : ℕ) → Disk → Disk → Type 0
Claims h p n i j d d' =
    (i ≤ j)
    × (j < i + n)
    × (d.locked j ≡ false)
    × ((k : ℕ) → i ≤ k → k < j → d.locked k ≡ true)
    × (d' ≡ record d { locked = update d.locked j true })

-- The slot is one of those looked at, was free, and is now locked; nothing else changed.
claim_from-takes :
    (h : Host) (p : Pool) (n i : ℕ) (d : Disk) (s : ClaimedSlot)
    → (claim_from h p n i d).0 ≡ ok (some s)
    → (s ≡ slot p s.index)
      × (i ≤ s.index)
      × (s.index < i + n)
      × (d.locked s.index ≡ false)
      × ((claim_from h p n i d).1 ≡ record d { locked = update d.locked s.index true })
unfolding claim_from
claim_from-takes h p zero i d s e = absurd (ground arith)
claim_from-takes h p (suc n) i d s e = ground (arith, claim_from-takes h p n (i + 1) d s)

-- Every slot before it is held.
claim_from-first :
    (h : Host) (p : Pool) (n i k : ℕ) (d : Disk) (s : ClaimedSlot)
    → (claim_from h p n i d).0 ≡ ok (some s)
    → i ≤ k
    → k < s.index
    → d.locked k ≡ true
unfolding claim_from
claim_from-first h p zero i k d s e l u = absurd (ground arith)
claim_from-first h p (suc n) i k d s e l u =
    ground (arith, claim_from-first h p n (i + 1) k d s, claim_from-takes h p n (i + 1) d s)

claim_from-held :
    (h : Host) (p : Pool) (n i k : ℕ) (d : Disk)
    → (claim_from h p n i d).0 ≡ ok none
    → i ≤ k
    → k < i + n
    → d.locked k ≡ true
unfolding claim_from
claim_from-held h p zero i k d e l u = absurd (omega arith)
claim_from-held h p (suc n) i k d e l u = ground (arith, claim_from-held h p n (i + 1) k d)

claim_from-keeps :
    (h : Host) (p : Pool) (n i : ℕ) (d : Disk)
    → (claim_from h p n i d).0 ≡ ok none
    → (claim_from h p n i d).1 ≡ d
unfolding claim_from
claim_from-keeps h p zero i d e = refl
claim_from-keeps h p (suc n) i d e = ground (arith, claim_from-keeps h p n (i + 1) d)

-- A claim returns the first slot of the pool that nobody holds: every slot before it is held, it was
-- free and is now locked, and no other lock and no file has changed.
pub try_claim_slot-first :
    (h : Host) (p : Pool) (d : Disk) (s : ClaimedSlot)
    → (try_claim_slot h p d).0 ≡ ok (some s)
    → (s ≡ slot p s.index)
      × (s.index < p.meta.slots)
      × (d.locked s.index ≡ false)
      × ((k : ℕ) → k < s.index → d.locked k ≡ true)
      × ((try_claim_slot h p d).1 ≡ record d { locked = update d.locked s.index true })
unfolding try_claim_slot
try_claim_slot-first h p d s e =
    let (a, b, c, f, g) = claim_from-takes h p p.meta.slots 0 d s e in
    (a, omega arith, f, λ k l. claim_from-first h p p.meta.slots 0 k d s e (omega arith) l, g)

-- Where every slot can be looked at and is held.
abbrev pub AllHeld : Host → Disk → ℕ → Type 0
AllHeld h d slots =
    (k : ℕ) → k < slots → (h.lock_opens k ≡ true) × (h.lock_errno k ≡ none) × (d.locked k ≡ true)

claim_from-AllHeld :
    (h : Host) (p : Pool) (n i slots : ℕ) (d : Disk)
    → i + n ≤ slots
    → AllHeld h d slots
    → claim_from h p n i d ≡ (ok none, d)
unfolding claim_from
claim_from-AllHeld h p zero i slots d l a = refl
claim_from-AllHeld h p (suc n) i slots d l a =
    let (o, e, k) = a i (omega arith) in
    ground (arith, claim_from-AllHeld h p n (i + 1) slots d (omega arith) a)

-- A claim in a pool whose slots are all held finds none and changes nothing.
pub try_claim_slot-AllHeld :
    (h : Host) (p : Pool) (d : Disk)
    → AllHeld h d p.meta.slots
    → try_claim_slot h p d ≡ (ok none, d)
unfolding try_claim_slot
try_claim_slot-AllHeld h p d a =
    claim_from-AllHeld h p p.meta.slots 0 p.meta.slots d (omega arith) a

-- A claim that finds no slot has found every slot of the pool held, and has changed nothing.
pub try_claim_slot-full :
    (h : Host) (p : Pool) (d : Disk)
    → (try_claim_slot h p d).0 ≡ ok none
    → ((k : ℕ) → k < p.meta.slots → d.locked k ≡ true) × ((try_claim_slot h p d).1 ≡ d)
unfolding try_claim_slot
try_claim_slot-full h p d e = (
  λ k l. claim_from-held h p p.meta.slots 0 k d e (omega arith) (omega arith),
  claim_from-keeps h p p.meta.slots 0 d e,
)

claim_from-fails :
    (h : Host) (p : Pool) (n i : ℕ) (d : Disk) (e : PoolError)
    → (claim_from h p n i d).0 ≡ err e
    → (claim_from h p n i d).1 ≡ d
unfolding claim_from
claim_from-fails h p zero i d e q = absurd (ground arith)
claim_from-fails h p (suc n) i d e q = ground (arith, claim_from-fails h p n (i + 1) d e)

-- A claim that fails has changed nothing.
pub try_claim_slot-fails :
    (h : Host) (p : Pool) (d : Disk) (e : PoolError)
    → (try_claim_slot h p d).0 ≡ err e
    → (try_claim_slot h p d).1 ≡ d
unfolding try_claim_slot
try_claim_slot-fails h p d e q = claim_from-fails h p p.meta.slots 0 d e q

-- A run in a slot leaves every lock as it is.
pub run-locked :
    (h : Host) (p : Pool) (s : ClaimedSlot) (d : Disk) → (run h p s d).1.locked ≡ d.locked
unfolding run
run-locked h p s d = ground arith
