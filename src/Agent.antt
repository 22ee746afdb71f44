-- ===== src/Agent.antt =====
-- The guest agent of guest/hephaestus-agent/src/main.rs: how it reads a command from a connection,
-- which command it runs and how, and what it sends back. A connection is the bytes that the peer
-- sends before it closes or stalls. An exit code is the two's complement of 32 bits.
pub mod Boot
pub mod Metadata
pub mod Heads
pub mod Commands
pub mod Wire
pub mod Rooted
mod Examples
use Prim.Native.String.{String}
use hephaestus.Base.{
  ℕ, zero, suc, ◌+◌, ◌*◌, ◌/◌, ◌%◌, ◌^◌, ◌-◌, Bool, true, false, not, Option, none, some,
  if◌then◌else◌, ◌==◌, List, [], ◌∷◌, ◌++◌, leb, ltb, length, take, drop, max_u32,
}
use hephaestus.Base.Text.{Bytes, codes, strip_prefix, bytes_eq}
use hephaestus.Base.Decimal.{parse}
use hephaestus.Base.Checked.{Result, ok, err, ◌>>=◌, ◌>>◌, guard}
use hephaestus.Mmds.Documents.{contains}

-- The messages of the failures.
pub data AgentError : Type 0 where
  read_length read_body too_long not_utf8 : AgentError
  exec_sh clone_stream wait_sh : AgentError
  no_response no_match missing_part bad_port echo_failed echo_mismatch : AgentError
  step_failed : AgentError

-- `read_exact`: what was read, and what is left.
unfoldable pub read_exact : ℕ → Bytes → AgentError → Result AgentError (Bytes × Bytes)
read_exact n s e = if leb n (length s) then ok (take n s, drop n s) else err e

unfoldable pub from_le_bytes : Bytes → ℕ
from_le_bytes [] = 0
from_le_bytes (b ∷ s) = b + 256 * from_le_bytes s

-- The `n` low bytes of a number, the lowest first.
unfoldable pub to_le_bytes : (n : ℕ) → ℕ → Bytes
to_le_bytes zero v = []
to_le_bytes (suc n) v = v % 256 ∷ to_le_bytes n (v / 256)

abbrev pub max_command : ℕ
max_command = 2 ^ 20

-- The command, and what follows it on the connection.
unfoldable pub read_command : (Bytes → Bool) → Bytes → Result AgentError (Bytes × Bytes)
read_command is_utf8 s = read_exact 4 s read_length >>= λ (len_buf, body).
    guard (leb (from_le_bytes len_buf) max_command) too_long
    >> (read_exact (from_le_bytes len_buf) body read_body >>= λ (buf, rest).
        guard (is_utf8 buf) not_utf8 >> ok (buf, rest))

unfoldable pub write_exit_code : ℕ → Bytes
unfolding to_le_bytes
write_exit_code code = to_le_bytes 4 code
