-- ===== src/Agent/Rooted.antt =====
-- No command is executed, and nothing is listened to, before the agent has entered the new root.
use hephaestus.Base.{ℕ, ◌≡◌, refl, ◌∙◌, Bool, true, false, if◌then◌else◌, List, [], ◌∷◌, ◌++◌}
use hephaestus.Base.Text.{Bytes}
use hephaestus.Base.Checked.{Result, ok, err}
use hephaestus.Agent.{AgentError, write_exit_code}
use hephaestus.Agent.Commands.{
  Accepted, waiting, accept_failed, commanded, accept_command_loop, Guest, run_command,
}
use hephaestus.Agent.Boot.{
  Act, make_dir, mount, bind_mount, change_root, change_dir, redirect_stderr, start_shim, listen,
  execute, reply, Kernel, Acted, ◌>>=◌, outcome, must, may, mkdir_p, mount_essentials, mount_rootfs,
  enter_rootfs, maybe_start_shim, answer_command, new_root, command_port, run,
}

-- How far the agent has come: outside, in the new root, or in its top directory.
pub data Place : Type 0 where
  outside rooted inside : Place

-- The place after an act that the kernel has done; only a change of root and then of directory
-- moves on.
pub move : (Act → Bool) → Place → Act → Place
move does outside (change_root p) = if does (change_root p) then rooted else outside
move does rooted (change_dir p) = if does (change_dir p) then inside else rooted
move does place act = place

-- Whether an act may be asked for at a place.
pub Allowed : Place → Act → Type 0
Allowed inside act = Unit
Allowed place (listen port) = ⊥
Allowed place (execute cmd) = ⊥
Allowed place (reply bytes) = ⊥
Allowed place (start_shim) = ⊥
Allowed place act = Unit

-- Each act of a run stands at a place where it is allowed.
abbrev pub Rooted : (Act → Bool) → Place → List Act → Type 0
Rooted does place [] = Unit
Rooted does place (act ∷ acts) = Allowed place act × Rooted does (move does place act) acts

abbrev after : (Act → Bool) → Place → List Act → Place
after does place [] = place
after does place (act ∷ acts) = after does (move does place act) acts

Rooted-append :
    (does : Act → Bool) (place : Place) (xs ys : List Act)
    → Rooted does place xs
    → Rooted does (after does place xs) ys
    → Rooted does place (xs ++ ys)
Rooted-append does place [] ys h g = g
Rooted-append does place (x ∷ xs) ys h g = (h.0, Rooted-append does (move does place x) xs ys h.1 g)

-- A part that begins at one place and, if it succeeds, ends at another.
Leads : {A : Type 0} → (Act → Bool) → Place → Place → Acted A → Type 0
Leads does from to (acts, ok a) = Rooted does from acts × (after does from acts ≡ to)
Leads does from to (acts, err e) = Rooted does from acts

after-append :
    (does : Act → Bool) (place : Place) (xs ys : List Act)
    → after does place (xs ++ ys) ≡ after does (after does place xs) ys
after-append does place [] ys = refl
after-append does place (x ∷ xs) ys = after-append does (move does place x) xs ys

bind-Leads :
    {A B : Type 0} (does : Act → Bool) (from via to : Place) (m : Acted A) (f : A → Acted B)
    → Leads does from via m
    → ((x : A) → Leads does via to (f x))
    → Leads does from to (m >>= f)
unfolding Leads ◌>>=◌
bind-Leads does from via to (acts, err e) f h g = h
bind-Leads {B = B} does from via to (acts, ok a) f (h, w) g = go (f a) (g a)
  where
    there : (ys : List Act) → Rooted does via ys → Rooted does (after does from acts) ys
    there ys r = rw w r

    go : (n : Acted B) → Leads does via to n → Leads does from to (acts ++ n.0, n.1)
    go (more, err e) r = Rooted-append does from acts more h (there more r)
    go (more, ok b) (r, v) = (
      Rooted-append does from acts more h (there more r),
      after-append does from acts more ∙ rw w v,
    )

-- An act that leaves the place as it is, and is allowed there.
Plain : (Act → Bool) → Place → Act → Type 0
Plain does place act = Allowed place act × (move does place act ≡ place)

must-Leads :
    (k : Kernel) (from to : Place) (act : Act)
    → Allowed from act
    → (k.does act ≡ true → move k.does from act ≡ to)
    → Leads k.does from to (must k act)
unfolding Leads must
must-Leads k from to act a m = go (k.does act) m
  where
    go :
        (b : Bool)
        → (b ≡ true → move k.does from act ≡ to)
        → Leads k.does from to (act ∷ [], outcome b)
    go true m = ((a, tt), m refl)
    go false m = (a, tt)

may-Leads :
    (does : Act → Bool) (place : Place) (act : Act)
    → Plain does place act
    → Leads does place place (may act)
unfolding Leads Plain may
may-Leads does place act (a, m) = ((a, tt), m)

mkdir_p-Leads : (k : Kernel) (path : Bytes) → Leads k.does outside outside (mkdir_p k path)
unfolding mkdir_p Leads
mkdir_p-Leads k path = go (k.exists path)
  where
    go :
        (b : Bool)
        → Leads k.does outside outside (if b then ([], ok tt) else must k (make_dir path))
    go true = (tt, refl)
    go false = unfold move Allowed in must-Leads k outside outside (make_dir path) tt (λ _. refl)

-- The chains of the source, step by step.
module _ (k : Kernel) where
  stays :
      {B : Type 0} (place : Place) (m : Acted (Unit {0})) (f : Unit {0} → Acted B) (to : Place)
      → Leads k.does place place m
      → ((x : Unit {0}) → Leads k.does place to (f x))
      → Leads k.does place to (m >>= f)
  stays place m f to = bind-Leads k.does place place to m f

  mount-Leads : (s t f : Bytes) → Leads k.does outside outside (must k (mount s t f))
  unfolding move Allowed
  mount-Leads s t f = must-Leads k outside outside (mount s t f) tt (λ _. refl)

  may_mount-Leads : (s t f : Bytes) → Leads k.does outside outside (may (mount s t f))
  unfolding move Allowed Plain
  may_mount-Leads s t f = may-Leads k.does outside (mount s t f) (tt, refl)

  bind_mount-Leads : (s t : Bytes) → Leads k.does outside outside (may (bind_mount s t))
  unfolding move Allowed Plain
  bind_mount-Leads s t = may-Leads k.does outside (bind_mount s t) (tt, refl)

  mount_essentials-Leads : Leads k.does outside outside (mount_essentials k)
  unfolding mount_essentials
  mount_essentials-Leads = stays outside _ _ outside (mkdir_p-Leads k _) λ _.
      stays outside _ _ outside (mkdir_p-Leads k _) λ _.
        stays outside _ _ outside (mkdir_p-Leads k _) λ _.
          stays outside _ _ outside (mkdir_p-Leads k _) λ _.
            stays outside _ _ outside (mount-Leads _ _ _) λ _.
              stays outside _ _ outside (may_mount-Leads _ _ _)
                λ _. stays outside _ _ outside (may_mount-Leads _ _ _) λ _. may_mount-Leads _ _ _

  mount_rootfs-Leads :
      (source target : Bytes) → Leads k.does outside outside (mount_rootfs k source target)
  unfolding mount_rootfs
  mount_rootfs-Leads source target =
      stays outside _ _ outside (mkdir_p-Leads k _) λ _. mount-Leads _ _ _

  change_root-Leads : (p : Bytes) → Leads k.does outside rooted (must k (change_root p))
  unfolding move Allowed
  change_root-Leads p = must-Leads k outside rooted (change_root p) tt (λ e. rw e)

  change_dir-Leads : (p : Bytes) → Leads k.does rooted inside (must k (change_dir p))
  unfolding move Allowed
  change_dir-Leads p = must-Leads k rooted inside (change_dir p) tt (λ e. rw e)

  enter_rootfs-Leads : (root : Bytes) → Leads k.does outside inside (enter_rootfs k root)
  unfolding enter_rootfs
  enter_rootfs-Leads root = stays outside _ _ inside (mkdir_p-Leads k _) λ _.
      stays outside _ _ inside (mkdir_p-Leads k _) λ _.
        stays outside _ _ inside (mkdir_p-Leads k _) λ _.
          stays outside _ _ inside (mkdir_p-Leads k _) λ _.
            stays outside _ _ inside (bind_mount-Leads _ _) λ _.
              stays outside _ _ inside (bind_mount-Leads _ _) λ _.
                stays outside _ _ inside (bind_mount-Leads _ _) λ _.
                  stays outside _ _ inside (bind_mount-Leads _ _) λ _.
                    bind-Leads k.does outside rooted inside _ _ (change_root-Leads root)
                      λ _. change_dir-Leads _

  inside-Leads : (act : Act) → Leads k.does inside inside (must k act)
  unfolding move Allowed
  inside-Leads act = must-Leads k inside inside act tt (λ _. refl)

  may_inside-Leads : (act : Act) → Leads k.does inside inside (may act)
  unfolding move Allowed Plain
  may_inside-Leads act = may-Leads k.does inside act (tt, refl)

  maybe_start_shim-Leads : (b : Bool) → Leads k.does inside inside (maybe_start_shim b)
  unfolding maybe_start_shim Leads
  maybe_start_shim-Leads true = may_inside-Leads start_shim
  maybe_start_shim-Leads false = (tt, refl)

  answer_command-Leads :
      (g : Guest) (a : Accepted) → Leads k.does inside inside (answer_command k g a)
  unfolding answer_command Leads
  answer_command-Leads g waiting = tt
  answer_command-Leads g accept_failed = tt
  answer_command-Leads g (commanded cmd rest) =
      bind-Leads k.does inside inside inside _ _ (executes (run_command g cmd))
        (λ code. inside-Leads (reply (write_exit_code code)))
    where
      executes : (r : Result AgentError ℕ) → Leads k.does inside inside (execute cmd ∷ [], r)
      executes (ok c) = unfold move Allowed in ((tt, tt), refl)
      executes (err e) = unfold move Allowed in (tt, tt)

  run-Leads : (g : Guest) → Leads k.does outside inside (run k g)
  unfolding run
  run-Leads g = stays outside _ _ inside mount_essentials-Leads λ _.
      stays outside _ _ inside (mount_rootfs-Leads _ _) λ _.
        bind-Leads k.does outside inside inside _ _ (enter_rootfs-Leads new_root) λ _.
          stays inside _ _ inside (may_inside-Leads redirect_stderr) λ _.
            stays inside _ _ inside (maybe_start_shim-Leads k.shim) λ _.
              stays inside _ _ inside (inside-Leads (listen command_port))
                λ _. answer_command-Leads g (accept_command_loop k.is_utf8 k.connections)

Leads-Rooted :
    {A : Type 0} (does : Act → Bool) (from to : Place) (m : Acted A)
    → Leads does from to m
    → Rooted does from m.0
unfolding Leads
Leads-Rooted does from to (acts, ok a) l = l.0
Leads-Rooted does from to (acts, err e) l = l

-- Whatever the kernel refuses and whatever connects: the agent listens, starts the shim, executes a
-- command and answers only after the kernel has changed its root and then its directory.
pub run-Rooted : (k : Kernel) (g : Guest) → Rooted k.does outside (run k g).0
run-Rooted k g = Leads-Rooted k.does outside inside (run k g) (run-Leads k g)
