-- ===== src/Cli/Sound.antt =====
-- What the parsers let through: paths that exist, texts that are not empty, numbers that fit.
pub mod Paths
pub mod Settings
pub mod Safe
pub mod Reach
use hephaestus.Base.{
  ℕ, ◌≤◌, ◌≡◌, ◌≢◌, refl, Bool, true, false, not, ◌&&◌, Option, none, some, if◌then◌else◌, List, [],
  ◌∷◌, ◌++◌, leb, All, max_u32, max_u64, arith, Option-cases, inl, inr,
}
use hephaestus.Base.Text.{Bytes, codes}
use hephaestus.Base.Decimal.{parse, parse-le}
use hephaestus.Base.Checked.{
  Result, ok, err, ◌>>=◌, ◌>>◌, guard, Gives, ok-Gives, bind-Gives, guard-Gives, after-Gives,
}
use hephaestus.Cli.{
  Flag, dashes, id, kernel, initfs, rootfs, cpus, memory_mib, cwd, network, ip, tty, flag_of,
  from_tar, output, log, initramfs, cmd, save, UsageError, missing_value, unknown_flag,
  invalid_number, Arm, takes, sets, ends, refuses, parse_flags, number, required, existing,
}
use hephaestus.Cli.Run.{
  RunOptions, run_defaults, last_part, parse_ip, run_arm, check_run, parse_run_args,
}
use hephaestus.Cli.Direct.{
  RootfsOptions, VzBootOptions, VzExecOptions, VzShOptions, check_rootfs, check_boot, check_exec,
  check_sh, parse_rootfs_args, parse_vz_boot_args, parse_vz_exec_args, parse_vz_sh_args,
}
use hephaestus.Cli.Saved.{
  VzWarmOptions, VzSnapOptions, when, check_warm, check_snap, parse_vz_warm_args,
  parse_vz_snap_args,
}

-- An arm that keeps what holds of the options.
Keeps : {O : Type 0} → (O → Type 0) → Arm O → Type 0
Keeps P (takes set) = (v : Bytes) → Gives P (set v)
Keeps P (sets p) = P p
Keeps P (ends rest) = (ws : List Bytes) → P (rest ws)
Keeps P refuses = Unit

parse_flags-Gives :
    {O : Type 0} (P : O → Type 0) (arms : O → Flag → Arm O)
    → ((o : O) (f : Flag) → P o → Keeps P (arms o f))
    → (ws : List Bytes) (o : O) → P o
    → Gives P (parse_flags arms ws o)
unfolding parse_flags Keeps
parse_flags-Gives P arms keeps [] o h = ok-Gives _ P o h
parse_flags-Gives {O} P arms keeps (w ∷ []) o h = last (arms o (flag_of w)) (keeps o (flag_of w) h)
  where
    last :
        (a : Arm O)
        → Keeps P a
        → Gives P (elim a [
          | takes set ↦ err (missing_value w)
          | sets p ↦ ok p
          | ends rest ↦ ok (rest [])
          | refuses ↦ err (unknown_flag w)
        ])
    last (takes set) k = unfold Gives in tt
    last (sets p) k = ok-Gives _ P p k
    last (ends rest) k = ok-Gives _ P (rest []) (k [])
    last refuses k = unfold Gives in tt
parse_flags-Gives {O} P arms keeps (w ∷ v ∷ ws) o h =
    step (parse_flags-Gives P arms keeps ws) (parse_flags-Gives P arms keeps (v ∷ ws))
      (arms o (flag_of w)) (keeps o (flag_of w) h)
  where
    step :
        ((p : O) → P p → Gives P (parse_flags arms ws p))
        → ((p : O) → P p → Gives P (parse_flags arms (v ∷ ws) p))
        → (a : Arm O) → Keeps P a
        → Gives P (elim a [
          | takes set ↦ set v >>= parse_flags arms ws
          | sets p ↦ parse_flags arms (v ∷ ws) p
          | ends rest ↦ ok (rest (v ∷ ws))
          | refuses ↦ err (unknown_flag w)
        ])
    step after_both after_one (takes set) k =
        bind-Gives P P (set v) (parse_flags arms ws) (k v) after_both
    step after_both after_one (sets p) k = after_one p k
    step after_both after_one (ends rest) k = ok-Gives _ P (rest (v ∷ ws)) (k (v ∷ ws))
    step after_both after_one refuses k = unfold Gives in tt

-- A path that is there.
abbrev pub Found : (Bytes → Bool) → Bytes → Type 0
Found exists p = (p ≢ []) × (exists p ≡ true)

abbrev pub AtMost : ℕ → Option ℕ → Type 0
AtMost bound none = Unit
AtMost bound (some n) = n ≤ bound

abbrev pub OctetFits : Option ℕ → Type 0
OctetFits none = Unit
OctetFits (some n) = (2 ≤ n) × (n ≤ 254)

pub record IsRunnable (exists : Bytes → Bool) (o : RunOptions) : Type 0 where
  pub kernel : Found exists o.kernel
  pub initfs : Found exists o.initfs
  pub rootfs : Found exists o.rootfs
  pub cpus : AtMost max_u32 o.cpus
  pub memory_mib : AtMost max_u64 o.memory_mib
  pub octet : OctetFits o.ip_octet

number-Gives :
    {O : Type 0} (P : O → Type 0) (bound : ℕ) (f : Flag) (put : ℕ → O) (v : Bytes)
    → ((n : ℕ) → n ≤ bound → P (put n))
    → Gives P (number bound f put v)
unfolding number Gives
number-Gives P bound f put v h = go (parse bound v) (parse-le bound v)
  where
    go :
        (r : Option ℕ)
        → ((n : ℕ) → r ≡ some n → n ≤ bound)
        → Gives P (elim r [ none ↦ err (invalid_number f) | some n ↦ ok (put n) ])
    go none le = tt
    go (some n) le = h n (le n refl)

required-Gives :
    {B : Type 0} (P : B → Type 0) (f : Flag) (p : Bytes) (k : Result UsageError B)
    → (p ≢ [] → Gives P k)
    → Gives P (required f p >> k)
unfolding required Gives
required-Gives P f [] k h = tt
required-Gives P f (c ∷ p) k h = h (λ e. cc)

existing-Gives :
    {B : Type 0} (P : B → Type 0) (exists : Bytes → Bool) (f : Flag) (p : Bytes)
    (k : Result UsageError B)
    → (exists p ≡ true → Gives P k)
    → Gives P (existing exists f p >> k)
unfolding existing
existing-Gives P exists f p k h = guard-Gives P (exists p) _ k h

abbrev Numbers : RunOptions → Type 0
Numbers o = AtMost max_u32 o.cpus × AtMost max_u64 o.memory_mib × OctetFits o.ip_octet

parse_ip-Gives : (raw : Bytes) (o : RunOptions) → Numbers o → Gives Numbers (parse_ip raw o)
unfolding parse_ip Gives
parse_ip-Gives raw o h = ground arith

run_arm-Keeps : (o : RunOptions) (f : Flag) → Numbers o → Keeps Numbers (run_arm o f)
unfolding run_arm Keeps
run_arm-Keeps o cpus h = λ v. number-Gives Numbers max_u32 cpus _ v (λ n l. (l, h.1, h.2))
run_arm-Keeps o memory_mib h =
    λ v. number-Gives Numbers max_u64 memory_mib _ v (λ n l. (h.0, l, h.2))
run_arm-Keeps o ip h = λ v. parse_ip-Gives v o h
run_arm-Keeps o dashes h = λ ws. h
run_arm-Keeps o id h = λ v. ok-Gives _ _ _ h
run_arm-Keeps o kernel h = λ v. ok-Gives _ _ _ h
run_arm-Keeps o initfs h = λ v. ok-Gives _ _ _ h
run_arm-Keeps o rootfs h = λ v. ok-Gives _ _ _ h
run_arm-Keeps o cwd h = λ v. ok-Gives _ _ _ h
run_arm-Keeps o network h = h
run_arm-Keeps o tty h = h
run_arm-Keeps o _ h = tt

check_run-Gives :
    (exists : Bytes → Bool) (o : RunOptions)
    → Numbers o
    → Gives (IsRunnable exists) (check_run exists o)
unfolding check_run
check_run-Gives exists o h = required-Gives _ kernel o.kernel _ λ k.
    required-Gives _ initfs o.initfs _ λ i. required-Gives _ rootfs o.rootfs _ λ r.
      existing-Gives _ exists kernel o.kernel _ λ ek.
        existing-Gives _ exists initfs o.initfs _ λ ei.
          existing-Gives _ exists rootfs o.rootfs _ λ er. ok-Gives _ _ _ (record {
            kernel = (k, ek);
            initfs = (i, ei);
            rootfs = (r, er);
            cpus = h.0;
            memory_mib = h.1;
            octet = h.2;
          })

pub parse_run_args-Gives :
    (exists : Bytes → Bool) (ws : List Bytes) → Gives (IsRunnable exists) (parse_run_args exists ws)
unfolding parse_run_args
parse_run_args-Gives exists ws =
    bind-Gives Numbers _ (parse_flags run_arm ws run_defaults) (check_run exists)
      (parse_flags-Gives Numbers run_arm run_arm-Keeps ws run_defaults (tt, tt, tt))
      (check_run-Gives exists)
