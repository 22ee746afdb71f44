-- ===== src/Backend/Valid.antt =====
-- The well-formedness of a backend.
use hephaestus.Base.{ℕ, ◌≤◌, ◌<◌, ◌≡◌, refl, ◌⊎◌, true, false, Option, none, some, is_some}
use hephaestus.Config.{BalloonDeviceConfig, VsockConfig, max_supported_vcpus, not_started}
use hephaestus.Backend.{VzBackend, World, pool_restore, Action, ◌>>=◌, VmmBackendError}
use hephaestus.Base.Checked.{Result, ok, err}
use hephaestus.Backend.Balloon.{is_live}

abbrev pub BalloonFits : Option BalloonDeviceConfig → ℕ → Type 0
BalloonFits none mem = Unit {0}
BalloonFits (some c) mem = c.amount_mib < mem

abbrev pub VsockFits : Option VsockConfig → Type 0
VsockFits none = Unit {0}
VsockFits (some c) = 3 ≤ c.guest_cid

-- Before the boot there is no VM and nothing that belongs to one.
pub record IsIdle (b : VzBackend) : Type 0 where
  pub not_up : b.state ≡ not_started
  pub no_vm : b.vm ≡ none
  pub no_origin : b.origin ≡ none
  pub no_bridge : b.vsock_bridge ≡ none
  pub no_slot : b.pool_slot ≡ none
  pub no_responder : b.vmnet_mmds ≡ false

-- A live backend has a VM, knows how it was started, and its balloon leaves the guest memory.
pub record IsUp (b : VzBackend) : Type 0 where
  pub up : is_live b.state ≡ true
  pub has_vm : is_some b.vm ≡ true
  pub has_origin : is_some b.origin ≡ true
  pub balloon_fits : BalloonFits b.balloon b.machine_config.mem_size_mib
  pub slot_from_pool : (b.pool_slot ≡ none) ⊎ (b.origin ≡ some pool_restore)

-- What the validation of the configuration guarantees.
pub record IsConfigured (b : VzBackend) : Type 0 where
  pub some_vcpu : 1 ≤ b.machine_config.vcpu_count
  pub few_vcpus : b.machine_config.vcpu_count ≤ max_supported_vcpus
  pub some_memory : 1 ≤ b.machine_config.mem_size_mib
  pub no_template : b.machine_config.cpu_template ≡ none
  pub vsock_fits : VsockFits b.vsock

pub record IsValid (b : VzBackend) : Type 0 where
  pub configured : IsConfigured b
  pub phase : IsIdle b ⊎ IsUp b

-- The action leaves a valid backend behind, whatever its result.
abbrev pub Keeps : {A : Type 0} → Action A → Type 0
Keeps m = (w : World) → IsValid w.backend → IsValid (m w).1.backend

pub after-IsValid :
    {A B : Type 0} (x : Result VmmBackendError A × World) (f : A → Action B)
    → IsValid x.1.backend
    → ((a : A) → Keeps (f a))
    → IsValid (◌>>=◌ (λ _. x) f x.1).1.backend
after-IsValid (ok a, w) f v keep = keep a w v
after-IsValid (err e, w) f v keep = v

-- A chain of steps that each keep the backend valid keeps it valid.
pub Keeps->>= :
    {A B : Type 0} (m : Action A) (f : A → Action B)
    → Keeps m
    → ((a : A) → Keeps (f a))
    → Keeps (m >>= f)
Keeps->>= m f first then_ w v = after-IsValid (m w) f (first w v) then_

-- The same for one step whose result is looked at.
pub bind-IsValid :
    {A B : Type 0} (x : Result VmmBackendError A × World) (f : A → Action B)
    → ((e : VmmBackendError) → x.0 ≡ err e → IsValid x.1.backend)
    → ((a : A) → x.0 ≡ ok a → IsValid (f a x.1).1.backend)
    → IsValid (◌>>=◌ (λ _. x) f x.1).1.backend
bind-IsValid (ok a, w) f failed went_on = went_on a refl
bind-IsValid (err e, w) f failed went_on = failed e refl
