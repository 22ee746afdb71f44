-- ===== src/Cli/Examples.antt =====
-- Command lines on a machine on which every path exists and a guest exits with 7.
use hephaestus.Base.{
  ℕ, ◌<◌, ◌≡◌, refl, Bool, true, false, Option, none, some, List, [], ◌∷◌, ◌++◌, All, arith, ◌==◌,
}
use hephaestus.Base.Text.{Bytes, codes}
use hephaestus.Base.Checked.{Result, ok}
use hephaestus.Bridge.{Crossing, Reply, fine, hb_vz_exec, Swift, gzip}
use hephaestus.Pool.{Pool, Host, Disk, agent, copied, try_claim_slot}
use hephaestus.Pool.Init.{whole}
use hephaestus.Cli.{UsageError, unknown_flag, missing_value, ip_out_of_range}
use hephaestus.Cli.Run.{RunOptions, parse_run_args}
use hephaestus.Cli.Direct.{parse_rootfs_args}
use hephaestus.Cli.Slots.{PoolRunOptions}
use hephaestus.Cli.Help.{help_text}
use hephaestus.Cli.Help.Guest.{help_text-append}
use hephaestus.Cli.Commands.Main.{Machine, main}
use hephaestus.Cli.Commands.Pools.{pool_run_cmd}
use hephaestus.Pool.Claims.{AllHeld}
use hephaestus.Cli.Commands.Busy.{pool_run_cmd-locks}
use hephaestus.Cli.Sound.{IsRunnable}
use hephaestus.Cli.Sound.Safe.{IsSafe}
use hephaestus.Cli.Sound.Reach.{main-IsSafe}
use hephaestus.Cli.RoundTrip.{command_line, parse_run_args-command_line}

abbrev answer : Reply
answer = record {
  status = fine;
  message = none;
  vm = 1;
  exit_code = 7;
  nanos = 0;
  timings = record { config_nanos = 0; construct_nanos = 0; restore_nanos = 0; resume_nanos = 0 };
  fd = none;
  len = 0;
}

abbrev swift : Swift
swift = record { answer = λ c. answer; is_utf8 = λ p. true }

abbrev pool : Pool
pool = record {
  dir = codes "/p";
  meta = record {
    kernel = codes "/k";
    initramfs = some (codes "/i");
    pristine = codes "/r";
    save = codes "/s";
    slots = 1;
    cpus = 2;
    memory_mib = 512;
    flavor = agent;
  };
}

abbrev slots : Host
slots = record {
  lock_opens = λ i. true;
  lock_errno = λ i. none;
  copy = copied;
  exec_restore = some 7;
  long_restore = none;
}

abbrev held : Disk
held = record { locked = λ i. true; has_rootfs = λ i. false }

abbrev machine : Machine
machine = record {
  host = record {
    exists = λ p. true;
    canonicalize = λ p. some p;
    can_make = λ p. true;
    copy = copied;
    swift = swift;
    writing = whole;
  };
  head = λ p. none;
  slots = slots;
  opened = λ dir. ok pool;
  removes = λ dir. true;
  disk = held;
}

abbrev exec_words : List Bytes
exec_words =
    codes "vz-exec"
    ∷ codes "--kernel"
    ∷ codes "/k"
    ∷ codes "--rootfs"
    ∷ codes "/r"
    ∷ codes "--stdin"
    ∷ codes "--cmd"
    ∷ codes "cat"
    ∷ []

main-IsSafe_example :
    All (IsSafe machine.host.exists machine.host.swift.is_utf8) (main machine exec_words).calls
main-IsSafe_example = main-IsSafe machine exec_words

exec_exits : (main machine exec_words).code ≡ 7
unfolding main help_text hephaestus.Base.Text.bytes_eq hephaestus.Cli.Commands.Main.without_help
    hephaestus.Cli.Commands.Main.dispatch hephaestus.Cli.Commands.Main.parsed
    hephaestus.Cli.Direct.parse_vz_exec_args hephaestus.Cli.parse_flags hephaestus.Cli.flag_of
    hephaestus.Cli.required hephaestus.Cli.existing hephaestus.Cli.Commands.vz_exec_cmd
    hephaestus.Bridge.Calls.vz_exec hephaestus.Bridge.invoke hephaestus.Bridge.path_c
    hephaestus.Base.Text.lacks hephaestus.Bridge.opt_path_cstring
exec_exits = refl

-- With `--cmd -h` the value of the flag is taken for a request for help.
help_as_value :
    (main machine (
      codes "pool"
      ∷ codes "run"
      ∷ codes "--dir"
      ∷ codes "/p"
      ∷ codes "--cmd"
      ∷ codes "-h"
      ∷ [])).code
    ≡ 0
unfolding main help_text hephaestus.Base.Text.bytes_eq
help_as_value = refl

all_busy :
    (main machine (
      codes "pool"
      ∷ codes "run"
      ∷ codes "--dir"
      ∷ codes "/p"
      ∷ codes "--cmd"
      ∷ codes "ls"
      ∷ [])).code
    ≡ 75
unfolding main help_text hephaestus.Base.Text.bytes_eq hephaestus.Cli.Commands.Main.without_help
    hephaestus.Cli.Commands.Main.dispatch hephaestus.Cli.Commands.Main.pool_group
    hephaestus.Cli.Slots.parse_pool_run hephaestus.Cli.parse_flags hephaestus.Cli.flag_of
    hephaestus.Cli.required pool_run_cmd hephaestus.Cli.Commands.Pools.after_claim try_claim_slot
all_busy = refl

unknown_word : (main machine (codes "boot" ∷ [])).code ≡ 2
unfolding main help_text hephaestus.Base.Text.bytes_eq hephaestus.Cli.Commands.Main.without_help
    hephaestus.Cli.Commands.Main.dispatch
unknown_word = refl

abbrev run_options : RunOptions
run_options = record {
  id = codes "a";
  kernel = codes "/k";
  initfs = codes "/i";
  rootfs = codes "/r";
  cpus = some 2;
  memory_mib = none;
  cwd = none;
  argv = codes "--tty" ∷ codes "--" ∷ [];
  network = true;
  ip_octet = some 17;
  tty = false;
}

run_options-IsRunnable : IsRunnable (λ p. true) run_options
run_options-IsRunnable = record {
  kernel = (λ e. cc, refl);
  initfs = (λ e. cc, refl);
  rootfs = (λ e. cc, refl);
  cpus = omega arith;
  memory_mib = tt;
  octet = (omega arith, omega arith);
}

parse_run_args-command_line_example :
    parse_run_args (λ p. true) (command_line run_options) ≡ ok run_options
parse_run_args-command_line_example =
    parse_run_args-command_line (λ p. true) run_options run_options-IsRunnable

full_address :
    parse_run_args
      (λ p. true)
      (codes "--kernel"
        ∷ codes "k"
        ∷ codes "--initfs"
        ∷ codes "i"
        ∷ codes "--rootfs"
        ∷ codes "r"
        ∷ codes "--ip"
        ∷ codes "192.168.64.255"
        ∷ [])
    ≡ Result.err (ip_out_of_range 255)
unfolding parse_run_args hephaestus.Cli.parse_flags hephaestus.Cli.flag_of
    hephaestus.Base.Text.bytes_eq hephaestus.Cli.Run.parse_ip hephaestus.Base.Decimal.parse
full_address = refl

help_text-append_example :
    help_text (codes "run" ∷ codes "--tty" ∷ [] ++ codes "--" ∷ codes "ls" ∷ codes "--help" ∷ [])
    ≡ help_text (codes "run" ∷ codes "--tty" ∷ [] ++ codes "--" ∷ [])
help_text-append_example =
    help_text-append (codes "run") (codes "--tty") [] (codes "ls" ∷ codes "--help" ∷ [])

abbrev pool_options : PoolRunOptions
pool_options = record { dir = codes "/p"; command = codes "ls" }

pool_run_cmd-locks_example :
    (AllHeld slots held 1 → pool_run_cmd slots (λ dir. ok pool) pool_options held ≡ (75, held))
    × ((try_claim_slot slots pool held).0 ≡ ok none
        → (pool_run_cmd slots (λ dir. ok pool) pool_options held ≡ (75, held))
          × ((i : ℕ) → i < 1 → held.locked i ≡ true))
    × ((j : ℕ) → (pool_run_cmd slots (λ dir. ok pool) pool_options held).1.locked j ≡ held.locked j)
pool_run_cmd-locks_example = pool_run_cmd-locks slots (λ dir. ok pool) pool_options pool held refl
