-- ===== src/Agent/Commands.antt =====
-- Accepting connections until one carries a command, and running that command.
use hephaestus.Base.{ℕ, ◌+◌, Bool, true, false, Option, none, some, if◌then◌else◌, List, [], ◌∷◌}
use hephaestus.Base.Text.{Bytes, codes, strip_prefix}
use hephaestus.Base.Checked.{Result, ok, err, ◌>>=◌, ◌>>◌, guard, ok_or}
use hephaestus.Agent.{AgentError, exec_sh, clone_stream, wait_sh, read_command}
use hephaestus.Agent.Metadata.{Peers, test_mmds_vsock, test_mmds_linklocal, test_vsock_suite}

-- How the loop of `accept_command_loop` stands after the connections so far: it waits for another
-- one, an `accept` has failed, or it has a command and what follows it on its connection.
pub data Accepted : Type 0 where
  waiting accept_failed : Accepted
  commanded : (command rest : Bytes) → Accepted

-- What one connection is worth: a command, or a probe.
unfoldable pub take_command : Result AgentError (Bytes × Bytes) → Option (Bytes × Bytes)
take_command (err e) = none
take_command (ok ([], rest)) = none
take_command (ok (c ∷ cmd, rest)) = some (c ∷ cmd, rest)

-- The connections in the order in which they are accepted; `none` where `accept` fails.
unfoldable pub accept_command_loop : (Bytes → Bool) → List (Option Bytes) → Accepted
unfolding take_command
accept_command_loop is_utf8 [] = waiting
accept_command_loop is_utf8 (none ∷ later) = accept_failed
accept_command_loop is_utf8 (some sent ∷ later) = elim (take_command (read_command is_utf8 sent)) [
  | some (cmd, rest) ↦ commanded cmd rest
  | none ↦ accept_command_loop is_utf8 later
]

-- How a child ended.
pub data Status : Type 0 where
  exited signaled : ℕ → Status

-- The shell: whether it starts with a command, and how it ends, with a pipe for its standard input
-- or none; and whether the connection can be cloned for that pipe.
pub record Guest : Type 0 where
  pub peers : Peers
  pub spawns : Bytes → Bool
  pub clones : Bool
  pub waits : (command : Bytes) → (piped : Bool) → Option Status

unfoldable pub code_of : Status → ℕ
code_of (exited code) = code
code_of (signaled n) = 128 + n

-- `/bin/sh -c`, with the connection piped into its standard input or with none.
unfoldable pub run_shell : Guest → Bytes → Bool → Result AgentError ℕ
unfolding code_of
run_shell g cmd piped =
    guard (g.spawns cmd) exec_sh
    >> (guard (if piped then g.clones else true) clone_stream
        >> (ok_or (g.waits cmd piped) wait_sh >>= λ status. ok (code_of status)))

-- A test command exits with 0 or 1.
abbrev pub tested : Result AgentError (Unit {0}) → Result AgentError ℕ
tested (ok _) = ok 0
tested (err e) = ok 1

abbrev pub sentinel : Bytes
sentinel = codes "__hephaestus_stdin__"

unfoldable pub run_stripped : Guest → Bytes → Result AgentError ℕ
unfolding run_shell
run_stripped g cmd = elim (strip_prefix sentinel cmd) [
  | some rest ↦ run_shell g rest true
  | none ↦ run_shell g cmd false
]

unfoldable pub run_command : Guest → Bytes → Result AgentError ℕ
unfolding run_stripped
run_command g cmd = elim (strip_prefix (codes "__hephaestus_test_mmds_vsock ") cmd) [
  | some needle ↦ tested (test_mmds_vsock g.peers needle)
  | none ↦ elim (strip_prefix (codes "__hephaestus_test_mmds_linklocal ") cmd) [
    | some needle ↦ tested (test_mmds_linklocal g.peers needle)
    | none ↦ elim (strip_prefix (codes "__hephaestus_test_vsock_suite ") cmd) [
      | some args ↦ tested (test_vsock_suite g.peers args)
      | none ↦ run_stripped g cmd
    ]
  ]
]
