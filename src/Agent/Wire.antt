-- ===== src/Agent/Wire.antt =====
-- The wire between the host and the agent: a framed command is read whole, an exit code fits its
-- four bytes, and a command of the command line is run as it was given.
use hephaestus.Base.{
  ℕ, zero, suc, ◌/◌, ◌^◌, ◌≤◌, ◌<◌, ◌≡◌, ◌≢◌, refl, Bool, true, false, Option, none, some,
  if◌then◌else◌, List, [], ◌∷◌, ◌++◌, length, take, drop, arith, map, All, take_exact, drop_exact,
  length-append, ap, append_assoc,
}
use hephaestus.Base.Text.{Bytes, codes, strip_prefix}
use hephaestus.Base.Checked.{ok}
use hephaestus.Agent.{
  AgentError, read_length, read_body, read_exact, from_le_bytes, to_le_bytes, max_command,
  read_command,
}
use hephaestus.Agent.Commands.{
  commanded, take_command, accept_command_loop, Guest, run_shell, run_stripped, run_command,
  sentinel,
}
use hephaestus.Cli.Commands.{wire_command}
use hephaestus.Cli.Direct.{VzExecOptions}

-- A number of 32 bits is read back from its four bytes.
pub from_le_bytes-to_le_bytes : (v : ℕ) → v < 2 ^ 32 → from_le_bytes (to_le_bytes 4 v) ≡ v
unfolding from_le_bytes to_le_bytes
from_le_bytes-to_le_bytes v h = omega arith

length-to_le_bytes : (n v : ℕ) → length (to_le_bytes n v) ≡ n
unfolding to_le_bytes
length-to_le_bytes zero v = refl
length-to_le_bytes (suc n) v = ap suc (length-to_le_bytes n (v / 256))

-- A command as the host sends it.
pub frame : Bytes → Bytes
frame cmd = to_le_bytes 4 (length cmd) ++ cmd

read_exact-append :
    (n : ℕ) (p s : Bytes) (e : AgentError) → length p ≡ n → read_exact n (p ++ s) e ≡ ok (p, s)
unfolding read_exact
read_exact-append n p s e h = ground (
  arith,
  length-append p s,
  fits,
  ap (λ k. take k (p ++ s)) h,
  ap (λ k. drop k (p ++ s)) h,
  take_exact p s,
  drop_exact p s,
)
  where
    fits : n ≤ length (p ++ s)
    fits = omega (arith, length-append p s, h)

-- What is framed is read whole, and what follows it is left on the connection.
pub read_command-frame :
    (is_utf8 : Bytes → Bool) (cmd rest : Bytes)
    → length cmd ≤ max_command
    → is_utf8 cmd ≡ true
    → read_command is_utf8 (frame cmd ++ rest) ≡ ok (cmd, rest)
unfolding read_command frame
read_command-frame is_utf8 cmd rest h u =
    rw (head) (rw (from_le_bytes-to_le_bytes (length cmd) (omega arith)) (rw (body) (ground arith)))
  where
    head :
        read_exact 4 ((to_le_bytes 4 (length cmd) ++ cmd) ++ rest) read_length
        ≡ ok (to_le_bytes 4 (length cmd), cmd ++ rest)
    head = rw append_assoc (
        read_exact-append 4 (to_le_bytes 4 (length cmd)) (cmd ++ rest) read_length
          (length-to_le_bytes 4 (length cmd)))

    body : read_exact (length cmd) (cmd ++ rest) read_body ≡ ok (cmd, rest)
    body = read_exact-append (length cmd) cmd rest read_body refl

-- A connection that brings no command: what is sent is no frame of a text, or one of the empty text.
abbrev pub IsProbe : (Bytes → Bool) → Bytes → Type 0
IsProbe is_utf8 sent = take_command (read_command is_utf8 sent) ≡ none

-- The loop of the agent takes the first command that is framed as the bridge frames it, byte for
-- byte, and leaves what follows on the connection, whatever probes connected before and whatever
-- connects later: a nonempty command of UTF-8 that is not longer than the limit.
pub accept_command_loop-frame :
    (is_utf8 : Bytes → Bool) (probes : List Bytes) (cmd rest : Bytes) (later : List (Option Bytes))
    → All (IsProbe is_utf8) probes
    → cmd ≢ []
    → length cmd ≤ max_command
    → is_utf8 cmd ≡ true
    → accept_command_loop is_utf8 (map some probes ++ some (frame cmd ++ rest) ∷ later)
      ≡ commanded cmd rest
unfolding accept_command_loop
accept_command_loop-frame is_utf8 [] [] rest later a n h u = absurd (n refl)
accept_command_loop-frame is_utf8 [] (c ∷ cmd) rest later a n h u =
    rw (read_command-frame is_utf8 (c ∷ cmd) rest h u, accept_command_loop) refl
accept_command_loop-frame is_utf8 (p ∷ probes) cmd rest later (a, b) n h u =
    ground (arith, accept_command_loop-frame is_utf8 probes cmd rest later b n h u)

-- No prefix that the agent takes for itself.
pub record IsPlain (cmd : Bytes) : Type 0 where
  pub no_vsock_test : strip_prefix (codes "__hephaestus_test_mmds_vsock ") cmd ≡ none
  pub no_linklocal_test : strip_prefix (codes "__hephaestus_test_mmds_linklocal ") cmd ≡ none
  pub no_suite_test : strip_prefix (codes "__hephaestus_test_vsock_suite ") cmd ≡ none
  pub no_sentinel : strip_prefix sentinel cmd ≡ none

run_command-sentinel :
    (g : Guest) (cmd : Bytes) → run_command g (sentinel ++ cmd) ≡ run_shell g cmd true
unfolding run_command run_stripped
run_command-sentinel g cmd = refl

run_command-IsPlain :
    (g : Guest) (cmd : Bytes) → IsPlain cmd → run_command g cmd ≡ run_shell g cmd false
unfolding run_command run_stripped
run_command-IsPlain g cmd p =
    rw (p.no_vsock_test, p.no_linklocal_test, p.no_suite_test, p.no_sentinel) refl

-- What the CLI puts on the wire makes the agent run exactly the command that was asked for, with
-- stdin forwarded exactly if that was asked for; a command without stdin must not begin with a
-- prefix that the agent takes for itself.
pub run_command-wire_command :
    (g : Guest) (o : VzExecOptions)
    → (o.stdin ≡ false → IsPlain o.command)
    → run_command g (wire_command o) ≡ run_shell g o.command o.stdin
unfolding wire_command
run_command-wire_command g o h = go o.stdin refl
  where
    go :
        (b : Bool)
        → o.stdin ≡ b
        → run_command g (if b then sentinel ++ o.command else o.command) ≡ run_shell g o.command b
    go true e = run_command-sentinel g o.command
    go false e = run_command-IsPlain g o.command (h e)

-- A command that itself begins with the sentinel loses it, and gets stdin that nobody asked for.
run_command_confused :
    (g : Guest) (o : VzExecOptions) (cmd : Bytes)
    → o.stdin ≡ false
    → o.command ≡ sentinel ++ cmd
    → run_command g (wire_command o) ≡ run_shell g cmd true
unfolding wire_command
run_command_confused g o cmd e q = rw (e, q) (run_command-sentinel g cmd)
