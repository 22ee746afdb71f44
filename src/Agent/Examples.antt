-- ===== src/Agent/Examples.antt =====
-- A guest whose shell exits with 3, and the connections of a probe and of a command.
use hephaestus.Base.{
  ℕ, ◌+◌, ◌<◌, ◌≡◌, ◌≢◌, refl, Bool, true, false, Option, none, some, List, [], ◌∷◌, ◌++◌, All,
  arith, map, length,
}
use hephaestus.Base.Text.{Bytes, codes}
use hephaestus.Base.Checked.{ok}
use hephaestus.Mmds.Connections.{is_complete}
use hephaestus.Agent.{read_command}
use hephaestus.Agent.Metadata.{
  Peers, Read, got, timed_out, max_head, read_http_request_head, mmds_linklocal_enabled,
}
use hephaestus.Agent.Heads.{read_http_request_head-bounds}
use hephaestus.Agent.Commands.{
  Guest, exited, signaled, commanded, accept_command_loop, run_command, run_shell,
}
use hephaestus.Agent.Boot.{Kernel, run}
use hephaestus.Agent.Rooted.{Rooted, outside, run-Rooted}
use hephaestus.Agent.Wire.{frame, run_command-wire_command, accept_command_loop-frame}
use hephaestus.Cli.Direct.{VzExecOptions}
use hephaestus.Cli.Commands.{wire_command}

abbrev peers : Peers
peers = record {
  mmds_vsock = λ request. some (codes "{}");
  linklocal_first = none;
  linklocal_again = none;
  echo_payload = λ port size. none;
  echo_sent = true;
  lossy = λ s. s;
}

abbrev guest : Guest
guest = record {
  peers = peers;
  spawns = λ cmd. true;
  clones = true;
  waits = λ cmd piped. some (exited 3);
}

abbrev options : VzExecOptions
options = record {
  kernel = codes "/k";
  rootfs = codes "/r";
  initramfs = codes "/i";
  log = none;
  command = codes "cat";
  cpus = 0;
  memory_mib = 0;
  timeout_seconds = 0;
  stdin = true;
}

run_command-wire_command_example :
    run_command guest (wire_command options) ≡ run_shell guest (codes "cat") true
run_command-wire_command_example =
    run_command-wire_command guest options (λ e. absurd (ground arith))

shell_code : run_command guest (codes "ls") ≡ ok 3
unfolding run_command
shell_code = refl

-- A test command fails with 1, whatever the shell would do.
test_code : run_command guest (codes "__hephaestus_test_mmds_linklocal x") ≡ ok 1
unfolding run_command hephaestus.Agent.Metadata.test_mmds_linklocal
test_code = refl

empty-IsProbe :
    All
      (λ s. hephaestus.Agent.Commands.take_command (read_command (λ p. true) s) ≡ none)
      (codes "" ∷ [])
unfolding read_command hephaestus.Agent.read_exact hephaestus.Agent.Commands.take_command
empty-IsProbe = (refl, tt)

accept_command_loop-frame_example :
    accept_command_loop
      (λ p. true)
      (map some (codes "" ∷ []) ++ some (frame (codes "ls") ++ codes "in") ∷ [])
    ≡ commanded (codes "ls") (codes "in")
accept_command_loop-frame_example =
    accept_command_loop-frame (λ p. true) (codes "" ∷ []) (codes "ls") (codes "in") [] empty-IsProbe
      (λ e. cc) (omega arith) refl

abbrev kernel : Kernel
kernel = record {
  exists = λ p. true;
  does = λ act. true;
  shim = true;
  is_utf8 = λ p. true;
  connections = [];
}

run-Rooted_example : Rooted kernel.does outside (run kernel guest).0
run-Rooted_example = run-Rooted kernel guest

abbrev reads : List Read
reads = got (codes "GET / HTTP/1.1\r\n") ∷ timed_out ∷ []

read_http_request_head-bounds_example :
    ((r : Bytes) → read_http_request_head reads ≡ some r → (r ≢ []) × (length r < max_head + 512))
    × ((s : Bytes) (later : List Read)
        → is_complete s ≡ true
        → read_http_request_head (got s ∷ later) ≡ some s)
read_http_request_head-bounds_example = read_http_request_head-bounds reads (omega arith, (tt, tt))

shim_off : mmds_linklocal_enabled none (codes "console=hvc0 hephaestus.mmds=off\n") ≡ false
unfolding mmds_linklocal_enabled hephaestus.Base.Text.bytes_eq
shim_off = refl
