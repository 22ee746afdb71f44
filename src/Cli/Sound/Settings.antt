-- ===== src/Cli/Sound/Settings.antt =====
-- `hephaestus run` hands its options to the builder: the paths and the address of the specification
-- are those of the options, whatever else is set.
use hephaestus.Base.{ℕ, ◌≡◌, ◌∙◌, refl, Option, none, some, List, [], ◌∷◌}
use hephaestus.Base.Text.{Bytes}
use hephaestus.Bridge.Specs.{
  Spec, new_spec, with_argv, with_cwd, with_cpus, with_memory_mib, with_networking, with_ip_octet,
  with_tty,
}
use hephaestus.Cli.Run.{RunOptions}
use hephaestus.Cli.Commands.{if_some, if_any, run_spec}

-- A field that no builder but the constructor sets.
module _ {X : Type 0} (field : Spec → X) where
  if_some-field :
      {A : Type 0} (f : A → Spec → Spec)
      → ((a : A) (s : Spec) → field (f a s) ≡ field s)
      → (o : Option A) (s : Spec) → field (if_some f o s) ≡ field s
  unfolding if_some
  if_some-field f same none s = refl
  if_some-field f same (some a) s = same a s

  if_any-field :
      ((ws : List Bytes) (s : Spec) → field (with_argv ws s) ≡ field s)
      → (ws : List Bytes) (s : Spec) → field (if_any ws s) ≡ field s
  unfolding if_any
  if_any-field same [] s = refl
  if_any-field same (w ∷ ws) s = same (w ∷ ws) s

  -- All settings before the address.
  run_spec-field :
      (o : RunOptions)
      → ((a : Bytes) (s : Spec) → field (with_cwd a s) ≡ field s)
      → ((a : ℕ) (s : Spec) → field (with_memory_mib a s) ≡ field s)
      → ((a : ℕ) (s : Spec) → field (with_cpus a s) ≡ field s)
      → ((ws : List Bytes) (s : Spec) → field (with_argv ws s) ≡ field s)
      → field (
          if_some with_cwd o.cwd (
            if_some with_memory_mib o.memory_mib (
              if_some with_cpus o.cpus (if_any o.argv (new_spec o.id o.kernel o.initfs o.rootfs)))))
        ≡ field (new_spec o.id o.kernel o.initfs o.rootfs)
  run_spec-field o cwd mem cpus argv =
      if_some-field with_cwd cwd o.cwd _
      ∙ if_some-field with_memory_mib mem o.memory_mib _
      ∙ if_some-field with_cpus cpus o.cpus _
      ∙ if_any-field argv o.argv _

-- The paths of the specification are those of the options.
pub run_spec-paths :
    (o : RunOptions)
    → ((run_spec o).kernel_path ≡ o.kernel)
      × ((run_spec o).initfs_path ≡ o.initfs)
      × ((run_spec o).rootfs_path ≡ o.rootfs)
unfolding run_spec new_spec with_argv with_cwd with_cpus with_memory_mib with_networking
    with_ip_octet with_tty
run_spec-paths o = (
  if_some-field (λ s. s.kernel_path) with_ip_octet (λ a s. refl) o.ip_octet _
      ∙ run_spec-field (λ s. s.kernel_path) o (λ a s. refl) (λ a s. refl) (λ a s. refl)
          (λ a s. refl),
  if_some-field (λ s. s.initfs_path) with_ip_octet (λ a s. refl) o.ip_octet _
      ∙ run_spec-field (λ s. s.initfs_path) o (λ a s. refl) (λ a s. refl) (λ a s. refl)
          (λ a s. refl),
  if_some-field (λ s. s.rootfs_path) with_ip_octet (λ a s. refl) o.ip_octet _
      ∙ run_spec-field (λ s. s.rootfs_path) o (λ a s. refl) (λ a s. refl) (λ a s. refl)
          (λ a s. refl),
)

-- So is its address, if the options have one.
pub run_spec-octet : (o : RunOptions) → (run_spec o).ip_octet ≡ o.ip_octet
unfolding run_spec new_spec with_argv with_cwd with_cpus with_memory_mib with_networking
    with_ip_octet with_tty if_some
run_spec-octet o =
    go o.ip_octet _
      (run_spec-field (λ s. s.ip_octet) o (λ a s. refl) (λ a s. refl) (λ a s. refl) (λ a s. refl))
  where
    go : (i : Option ℕ) (s : Spec) → s.ip_octet ≡ none → (if_some with_ip_octet i s).ip_octet ≡ i
    go none s e = e
    go (some n) s e = refl
