-- ===== src/Backend/Connect.antt =====
-- The handshake of the vsock bridge: `bridge_connection` up to the copying of bytes, `read_connect_line`
-- and `parse_connect_line`. The stream is what the client sends before it closes or is timed out.
pub mod Handshake
use hephaestus.Base.{
  ℕ, zero, suc, Bool, true, false, ◌||◌, Option, none, some, if◌then◌else◌, ◌==◌, ltb, List, [],
  ◌∷◌, ◌++◌, max_u32,
}
use hephaestus.Base.Text.{Bytes, codes, newline, strip_prefix}
use hephaestus.Base.Decimal.{parse}

-- The loop, with `n` bytes left to read; what is not read stays in the stream.
unfoldable pub take_line : (n : ℕ) → Bytes → Option (Bytes × Bytes)
take_line zero s = none
take_line (suc n) [] = none
take_line (suc n) (c ∷ s) =
    let later = take_line n s in
    if c == newline
    then some (c ∷ [], s)
    else elim later [ none ↦ none | some (line, rest) ↦ some (c ∷ line, rest) ]

-- `is_utf8` is the standard library's check of a text.
unfoldable pub read_connect_line : (is_utf8 : Bytes → Bool) → Bytes → Option (Bytes × Bytes)
unfolding take_line
read_connect_line is_utf8 stream = elim (take_line 64 stream) [
  | none ↦ none
  | some (line, rest) ↦ if is_utf8 line then some (line, rest) else none
]

-- `trim_end_matches` of line ends.
unfoldable pub trim_line_end : Bytes → Bytes
trim_line_end [] = []
trim_line_end (c ∷ s) = elim (trim_line_end s) [
  | [] ↦ if c == 13 || c == newline then [] else c ∷ []
  | d ∷ r ↦ c ∷ d ∷ r
]

unfoldable pub parse_connect_line : Bytes → Option ℕ
unfolding trim_line_end
parse_connect_line line = elim (strip_prefix (codes "CONNECT ") (trim_line_end line)) [
  | none ↦ none
  | some rest ↦ elim (parse max_u32 rest) [
    | none ↦ none
    | some port ↦ if ltb 0 port then some port else none
  ]
]

-- What the client is told, or the guest's port that its stream is copied to.
pub data Bridged : Type 0 where
  invalid_line connect_failed : Bridged
  proxies : (port : ℕ) → (rest : Bytes) → Bridged

unfoldable pub bridge_connection :
    (is_utf8 : Bytes → Bool) → (connects : ℕ → Bool) → Bytes → Bridged
unfolding read_connect_line parse_connect_line
bridge_connection is_utf8 connects stream = elim (read_connect_line is_utf8 stream) [
  | none ↦ invalid_line
  | some (line, rest) ↦ elim (parse_connect_line line) [
    | none ↦ invalid_line
    | some port ↦ if connects port then proxies port rest else connect_failed
  ]
]
