-- ===== src/Pool/Examples.antt =====
-- Runs of a pool of three slots, of which the first is held.
use hephaestus.Bridge.{Swift, fine}
use hephaestus.Pool.{PoolError, stock_init}
use hephaestus.Pool.Init.{PoolInit, InitHost, whole, init}
use hephaestus.Pool.Init.Opened.{opens_as, reopened, body_error, reopened-init}
use hephaestus.Base.{arith, ℕ, ◌<◌, ◌≡◌, ◌≢◌, refl, true, false, ◌==◌, none, some, [], ◌∷◌}
use hephaestus.Base.Text.{codes, lacks}
use hephaestus.Base.Checked.{ok, err}
use hephaestus.Pool.{
  Pool, Host, Disk, ClaimedSlot, agent, copied, slot, update, try_claim_slot, drop_slot,
}
use hephaestus.Pool.Meta.{write, read, open_pool}
use hephaestus.Pool.Meta.RoundTrip.{IsWritable, IsValue}
use hephaestus.Pool.Exclusion.{
  Site, Steps, here, next, claims, releases, Exclusive, Held, Steps-IsSafe,
}

abbrev pool : Pool
pool = record {
  dir = codes "/pool";
  meta = record {
    kernel = codes "/k";
    initramfs = none;
    pristine = codes "/r";
    save = codes "/s";
    slots = 3;
    cpus = 1;
    memory_mib = 128;
    flavor = agent;
  };
}

abbrev host : Host
host = record {
  lock_opens = λ _. true;
  lock_errno = λ _. none;
  copy = copied;
  exec_restore = some 0;
  long_restore = some 7;
}

abbrev first_held : Disk
first_held = record { locked = λ i. i == 0; has_rootfs = λ _. false }

abbrev all_held : Disk
all_held = record { locked = λ _. true; has_rootfs = λ _. false }

abbrev free : Disk
free = record { locked = λ _. false; has_rootfs = λ _. false }

abbrev second : ClaimedSlot
second = slot pool 1

claims_second : (try_claim_slot host pool first_held).0 ≡ ok (some second)
unfolding try_claim_slot slot
claims_second = refl

claims_none : (try_claim_slot host pool all_held).0 ≡ ok none
unfolding try_claim_slot
claims_none = refl

-- A claim, a second one, and the release of the first.
abbrev start : Site
start = record { disk = free; live = [] }

abbrev one_claim : Site
one_claim = record { disk = (try_claim_slot host pool free).1; live = slot pool 0 ∷ [] }

abbrev two_claims : Site
two_claims = record {
  disk = (try_claim_slot host pool one_claim.disk).1;
  live = slot pool 1 ∷ slot pool 0 ∷ [];
}

abbrev released : Site
released = record { disk = drop_slot (slot pool 0) two_claims.disk; live = slot pool 1 ∷ [] }

history : Steps pool start released
unfolding try_claim_slot slot
history =
    next
      (next (next here (claims host (slot pool 0) refl refl)) (claims host (slot pool 1) refl refl))
      (releases (slot pool 1 ∷ []) [] (slot pool 0) refl refl)

Steps-IsSafe_example : Exclusive released.live × Held released.disk released.live
Steps-IsSafe_example = Steps-IsSafe refl history

printed :
    write pool.meta
    ≡ codes "kernel=/k\npristine=/r\nsave=/s\nslots=3\ncpus=1\nmemory_mib=128\nflavor=Agent\n"
unfolding write hephaestus.Pool.Meta.print_pairs hephaestus.Pool.Meta.pairs_of
    hephaestus.Base.Decimal.format hephaestus.Pool.Meta.flavor_name
printed = refl

kernel-IsValue : IsValue (codes "/k")
unfolding lacks
kernel-IsValue = record { trimmed = refl; ends = refl; one_line = refl }

pristine-IsValue : IsValue (codes "/r")
unfolding lacks
pristine-IsValue = record { trimmed = refl; ends = refl; one_line = refl }

save-IsValue : IsValue (codes "/s")
unfolding lacks
save-IsValue = record { trimmed = refl; ends = refl; one_line = refl }

meta-IsWritable : IsWritable pool.meta
meta-IsWritable = record {
  kernel = kernel-IsValue;
  initramfs = λ p e. absurd (ground arith);
  pristine = pristine-IsValue;
  save = save-IsValue;
  slots = omega arith;
  cpus = omega arith;
  memory_mib = omega arith;
}

abbrev swift : Swift
swift = record {
  answer = λ c. record {
    status = fine;
    message = none;
    vm = 1;
    exit_code = 0;
    nanos = 0;
    timings = record { config_nanos = 0; construct_nanos = 0; restore_nanos = 0; resume_nanos = 0 };
    fd = none;
    len = 0;
  };
  is_utf8 = λ p. true;
}

abbrev init_host : InitHost
init_host = record {
  exists = λ p. false;
  canonicalize = λ p. some p;
  can_make = λ p. true;
  copy = copied;
  swift = swift;
  writing = whole;
}

abbrev init_args : PoolInit
init_args = record {
  dir = codes "/pool";
  kernel = codes "/k";
  rootfs_source = codes "/r";
  slots = 2;
  cpus = 0;
  memory_mib = 0;
  flavor = stock_init;
  initramfs = none;
  settle_seconds = 3;
}

reopened-init_example :
    ((p : Pool)
      → (init init_host init_args).1 ≡ ok p
      → (init_host.exists init_args.dir ≡ false)
        × (IsWritable p.meta → reopened init_host init_args (λ f. none) ≡ ok p))
    × ((e : PoolError)
        → (init init_host init_args).1 ≡ err e
        → e ≢ body_error
        → reopened init_host init_args (λ f. none) ≡ opens_as init_host init_args (λ f. none))
reopened-init_example = reopened-init init_host init_args (λ f. none)
