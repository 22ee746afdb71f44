-- ===== src/Cli/RoundTrip.antt =====
-- Options of `hephaestus run`, written as a command line, are read back.
use hephaestus.Base.{
  ℕ, ◌≤◌, ◌≡◌, ◌≢◌, ◌∙◌, refl, sym, ap, Bool, true, false, Option, none, some, List, [], ◌∷◌, ◌++◌,
  All, max_u32, max_u64, arith, append_assoc, append-nil,
}
use hephaestus.Base.Text.{Bytes, bytes_eq}
use hephaestus.Base.Decimal.{format, parse-format, IsDigit, format-IsDigit}
use hephaestus.Base.Checked.{Result, ok, ◌>>=◌}
use hephaestus.Cli.{
  Flag, dashes, id, kernel, initfs, rootfs, cpus, memory_mib, cwd, network, ip, tty, flag_name,
  flag_of, UsageError, Arm, takes, sets, ends, parse_flags, number, required, existing,
}
use hephaestus.Cli.Run.{
  RunOptions, run_defaults, last_part, parse_ip, run_arm, check_run, parse_run_args,
}
use hephaestus.Cli.Sound.{IsRunnable, AtMost, OctetFits}

-- A flag with a value, and one that may be absent.
abbrev valued : Flag → Bytes → List Bytes → List Bytes
valued f v rest = flag_name f ∷ v ∷ rest

optional : Flag → Option Bytes → List Bytes → List Bytes
optional f none rest = rest
optional f (some v) rest = valued f v rest

shown : Option ℕ → Option Bytes
shown none = none
shown (some n) = some (format n)

switch : Flag → Bool → List Bytes → List Bytes
switch f false rest = rest
switch f true rest = flag_name f ∷ rest

-- A command line with these options; the words for the guest stand after `--`.
pub command_line : RunOptions → List Bytes
command_line o = valued id o.id (
    valued kernel o.kernel (
      valued initfs o.initfs (
        valued rootfs o.rootfs (
          optional cpus (shown o.cpus) (
            optional memory_mib (shown o.memory_mib) (
              optional cwd o.cwd (
                switch network o.network (
                  optional ip (shown o.ip_octet)
                    (switch tty o.tty (flag_name dashes ∷ o.argv))))))))))

-- One round of the loop, for a flag with a value and for a switch.
parse_flags-takes :
    {O : Type 0} (arms : O → Flag → Arm O) (w v : Bytes) (ws : List Bytes) (o p : O)
    (set : Bytes → Result UsageError O)
    → arms o (flag_of w) ≡ takes set
    → set v ≡ ok p
    → parse_flags arms (w ∷ v ∷ ws) o ≡ parse_flags arms ws p
unfolding parse_flags
parse_flags-takes arms w v ws o p set e s =
    rw (e, parse_flags) (ap (λ r. r >>= parse_flags arms ws) s)

parse_flags-sets :
    {O : Type 0} (arms : O → Flag → Arm O) (w : Bytes) (ws : List Bytes) (o p : O)
    → arms o (flag_of w) ≡ sets p
    → parse_flags arms (w ∷ ws) o ≡ parse_flags arms ws p
unfolding parse_flags
parse_flags-sets arms w [] o p e = rw (e, parse_flags) refl
parse_flags-sets arms w (v ∷ ws) o p e = rw (e, parse_flags) refl

parse_flags-ends :
    {O : Type 0} (arms : O → Flag → Arm O) (w : Bytes) (ws : List Bytes) (o : O)
    (rest : List Bytes → O)
    → arms o (flag_of w) ≡ ends rest
    → parse_flags arms (w ∷ ws) o ≡ ok (rest ws)
unfolding parse_flags
parse_flags-ends arms w [] o rest e = rw (e, parse_flags) refl
parse_flags-ends arms w (v ∷ ws) o rest e = rw (e, parse_flags) refl

last_part-digits : (p s : Bytes) → All IsDigit s → last_part p s ≡ p ++ s
unfolding last_part
last_part-digits p [] d = sym (append-nil p)
last_part-digits p (c ∷ s) (h, d) =
    ground (arith, last_part-digits (p ++ c ∷ []) s d, append_assoc p (c ∷ []) s)

parse_ip-format :
    (o : RunOptions) (n : ℕ)
    → OctetFits (some n)
    → parse_ip (format n) o ≡ ok (record o { ip_octet = some n })
unfolding parse_ip
parse_ip-format o n h =
    ground
      (arith, last_part-digits [] (format n) (format-IsDigit n), parse-format 255 n (omega arith))

number-format :
    {O : Type 0} (bound : ℕ) (f : Flag) (put : ℕ → O) (n : ℕ)
    → n ≤ bound
    → number bound f put (format n) ≡ ok (put n)
unfolding number
number-format bound f put n h = rw (parse-format bound n h, number) refl

required_lem : (f : Flag) (p : Bytes) → p ≢ [] → required f p ≡ ok tt
unfolding required
required_lem f [] n = absurd (n refl)
required_lem f (c ∷ p) n = refl

-- Options written out field by field.
abbrev options :
    (name k i r : Bytes)
    → (c m : Option ℕ) → (d : Option Bytes) → (words : List Bytes) → (n : Bool) → (a : Option ℕ)
    → (t : Bool) → RunOptions
options name k i r c m d words n a t = record {
  id = name;
  kernel = k;
  initfs = i;
  rootfs = r;
  cpus = c;
  memory_mib = m;
  cwd = d;
  argv = words;
  network = n;
  ip_octet = a;
  tty = t;
}

abbrev reads : List Bytes → RunOptions → Result UsageError RunOptions
reads = parse_flags run_arm

module _ (name k i r : Bytes) where
  reads-cpus :
      (c : Option ℕ) (rest : List Bytes)
      → AtMost max_u32 c
      → reads (optional cpus (shown c) rest) (options name k i r none none none [] false none false)
        ≡ reads rest (options name k i r c none none [] false none false)
  unfolding optional shown run_arm flag_of flag_name bytes_eq
  reads-cpus none rest h = refl
  reads-cpus (some c) rest h =
      parse_flags-takes run_arm _ _ rest _ _ _ refl (number-format max_u32 cpus _ c h)

  reads-memory_mib :
      (c m : Option ℕ) (rest : List Bytes)
      → AtMost max_u64 m
      → reads
          (optional memory_mib (shown m) rest)
          (options name k i r c none none [] false none false)
        ≡ reads rest (options name k i r c m none [] false none false)
  unfolding optional shown run_arm flag_of flag_name bytes_eq
  reads-memory_mib c none rest h = refl
  reads-memory_mib c (some m) rest h =
      parse_flags-takes run_arm _ _ rest _ _ _ refl (number-format max_u64 memory_mib _ m h)

  reads-cwd :
      (c m : Option ℕ) (d : Option Bytes) (rest : List Bytes)
      → reads (optional cwd d rest) (options name k i r c m none [] false none false)
        ≡ reads rest (options name k i r c m d [] false none false)
  unfolding optional run_arm flag_of flag_name bytes_eq
  reads-cwd c m none rest = refl
  reads-cwd c m (some d) rest = parse_flags-takes run_arm _ _ rest _ _ _ refl refl

  reads-network :
      (c m : Option ℕ) (d : Option Bytes) (n : Bool) (rest : List Bytes)
      → reads (switch network n rest) (options name k i r c m d [] false none false)
        ≡ reads rest (options name k i r c m d [] n none false)
  unfolding switch run_arm flag_of flag_name bytes_eq
  reads-network c m d false rest = refl
  reads-network c m d true rest = parse_flags-sets run_arm _ rest _ _ refl

  reads-ip :
      (c m : Option ℕ) (d : Option Bytes) (n : Bool) (a : Option ℕ) (rest : List Bytes)
      → OctetFits a
      → reads (optional ip (shown a) rest) (options name k i r c m d [] n none false)
        ≡ reads rest (options name k i r c m d [] n a false)
  unfolding optional shown run_arm flag_of flag_name bytes_eq
  reads-ip c m d n none rest h = refl
  reads-ip c m d n (some a) rest h =
      parse_flags-takes run_arm _ _ rest _ _ _ refl (parse_ip-format _ a h)

  reads-tty :
      (c m : Option ℕ) (d : Option Bytes) (n : Bool) (a : Option ℕ) (t : Bool) (rest : List Bytes)
      → reads (switch tty t rest) (options name k i r c m d [] n a false)
        ≡ reads rest (options name k i r c m d [] n a t)
  unfolding switch run_arm flag_of flag_name bytes_eq
  reads-tty c m d n a false rest = refl
  reads-tty c m d n a true rest = parse_flags-sets run_arm _ rest _ _ refl

check_run-IsRunnable :
    (exists : Bytes → Bool) (o : RunOptions) → IsRunnable exists o → check_run exists o ≡ ok o
unfolding check_run existing
check_run-IsRunnable exists o h = ground (
  arith,
  required_lem kernel o.kernel h.kernel.0,
  required_lem initfs o.initfs h.initfs.0,
  required_lem rootfs o.rootfs h.rootfs.0,
)

reads-command_line :
    (o : RunOptions)
    → AtMost max_u32 o.cpus
    → AtMost max_u64 o.memory_mib
    → OctetFits o.ip_octet
    → reads (command_line o) run_defaults ≡ ok o
unfolding command_line run_arm flag_of flag_name bytes_eq
reads-command_line o c m a =
    parse_flags-takes run_arm _ _ _ _ _ _ refl refl
    ∙ parse_flags-takes run_arm _ _ _ _ _ _ refl refl
    ∙ parse_flags-takes run_arm _ _ _ _ _ _ refl refl
    ∙ parse_flags-takes run_arm _ _ _ _ _ _ refl refl
    ∙ reads-cpus o.id o.kernel o.initfs o.rootfs o.cpus _ c
    ∙ reads-memory_mib o.id o.kernel o.initfs o.rootfs o.cpus o.memory_mib _ m
    ∙ reads-cwd o.id o.kernel o.initfs o.rootfs o.cpus o.memory_mib o.cwd _
    ∙ reads-network o.id o.kernel o.initfs o.rootfs o.cpus o.memory_mib o.cwd o.network _
    ∙ reads-ip o.id o.kernel o.initfs o.rootfs o.cpus o.memory_mib o.cwd o.network o.ip_octet _ a
    ∙ reads-tty o.id o.kernel o.initfs o.rootfs o.cpus o.memory_mib o.cwd o.network o.ip_octet o.tty
        _
    ∙ parse_flags-ends run_arm _ o.argv _ _ refl

-- Every set of options of `hephaestus run` whose images exist, whose numbers fit and whose address
-- is in [2, 254] can be written as words that the parser of `run` reads back as just these options. The id,
-- the working directory and the words for the guest may be any texts, flags and `--` among them.
pub parse_run_args-command_line :
    (exists : Bytes → Bool) (o : RunOptions)
    → IsRunnable exists o
    → parse_run_args exists (command_line o) ≡ ok o
unfolding parse_run_args
parse_run_args-command_line exists o h =
    rw (reads-command_line o h.cpus h.memory_mib h.octet) (check_run-IsRunnable exists o h)
