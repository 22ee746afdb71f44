-- ===== src/Cli/Commands/Busy.antt =====
-- `hephaestus pool run`: when it reports that all slots are busy, and what it leaves of the locks.
use hephaestus.Base.{ℕ, ◌<◌, ◌≡◌, ◌∙◌, refl, ap, Bool, true, false, Option, none, some, arith}
use hephaestus.Base.Text.{Bytes}
use hephaestus.Base.Checked.{Result, ok, err}
use hephaestus.Pool.{PoolError, Pool, Host, Disk, ClaimedSlot, update, try_claim_slot, drop_slot}
use hephaestus.Pool as Slots
use hephaestus.Pool.Claims.{
  AllHeld, try_claim_slot-AllHeld, try_claim_slot-first, try_claim_slot-full, try_claim_slot-fails,
  run-locked,
}
use hephaestus.Cli.Slots.{PoolRunOptions}
use hephaestus.Cli.Commands.Pools.{pool_run_cmd, after_claim, run_claimed}

-- The lock that a claim took is let go again.
released : (f g : ℕ → Bool) (i j : ℕ) → f i ≡ false → g ≡ update f i true → update g i false j ≡ f j
unfolding update
released f g i j h e = ground (arith, ap (λ k. k j) e)

run_claimed-locked :
    (h : Host) (p : Pool) (command : Bytes) (s : ClaimedSlot) (d d' : Disk) (j : ℕ)
    → d.locked s.index ≡ false
    → d'.locked ≡ update d.locked s.index true
    → (run_claimed h p command s d').1.locked j ≡ d.locked j
unfolding run_claimed drop_slot
run_claimed-locked h p command s d d' j f e =
    released d.locked (Slots.run h p s d').1.locked s.index j f (run-locked h p s d' ∙ e)

-- What follows a claim, for each result of the claim.
after_claim-locked :
    (h : Host) (p : Pool) (command : Bytes) (d : Disk)
    (claim : Result PoolError (Option ClaimedSlot))
    → (try_claim_slot h p d).0 ≡ claim
    → (j : ℕ) → (after_claim h p command claim (try_claim_slot h p d).1).1.locked j ≡ d.locked j
unfolding after_claim
after_claim-locked h p command d (err e) q j =
    ap (λ (x : Disk). x.locked j) (try_claim_slot-fails h p d e q)
after_claim-locked h p command d (ok none) q j =
    ap (λ (x : Disk). x.locked j) (try_claim_slot-full h p d q).1
after_claim-locked h p command d (ok (some s)) q j =
    let (a, b, f, g, t) = try_claim_slot-first h p d s q in
    run_claimed-locked h p command s d (try_claim_slot h p d).1 j f (ap (λ (x : Disk). x.locked) t)

-- In a pool that opens: if every slot is held, and can be looked at, the command reports that all
-- are busy, with 75, and changes nothing; if the claim finds none then it reports the same, and each
-- slot is held. Whatever else happens, every lock is afterwards as it was before the command.
pub pool_run_cmd-locks :
    (h : Host) (opened : Bytes → Result PoolError Pool) (o : PoolRunOptions) (p : Pool) (d : Disk)
    → opened o.dir ≡ ok p
    → (AllHeld h d p.meta.slots → pool_run_cmd h opened o d ≡ (75, d))
      × ((try_claim_slot h p d).0 ≡ ok none
          → (pool_run_cmd h opened o d ≡ (75, d))
            × ((i : ℕ) → i < p.meta.slots → d.locked i ≡ true))
      × ((j : ℕ) → (pool_run_cmd h opened o d).1.locked j ≡ d.locked j)
unfolding pool_run_cmd after_claim
pool_run_cmd-locks h opened o p d e = (
  λ a. rw (e, pool_run_cmd) (rw (try_claim_slot-AllHeld h p d a, after_claim) refl),
  λ n. (
    rw (e, pool_run_cmd) (rw (n, after_claim) (ap (λ x. (75, x)) (try_claim_slot-full h p d n).1)),
    (try_claim_slot-full h p d n).0,
  ),
  λ j. rw (e, pool_run_cmd) (after_claim-locked h p o.command d (try_claim_slot h p d).0 refl j),
)
