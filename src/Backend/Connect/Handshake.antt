-- ===== src/Backend/Connect/Handshake.antt =====
-- A handshake that is well formed reaches the guest.
use hephaestus.Base.{
  ℕ, zero, suc, ◌≤◌, ◌<◌, ◌≡◌, refl, arith, Bool, true, some, [], ◌∷◌, ◌++◌, length, max_u32,
}
use hephaestus.Base.Text.{Bytes, codes, newline, lacks}
use hephaestus.Base.Decimal.{format, parse-format, lacks-digits, format-IsDigit}
use hephaestus.Backend.Connect.{
  take_line, read_connect_line, trim_line_end, parse_connect_line, bridge_connection, proxies,
}

take_line-lacks :
    (n : ℕ) (line rest : Bytes)
    → length line < n
    → lacks newline line ≡ true
    → take_line n (line ++ newline ∷ rest) ≡ some (line ++ newline ∷ [], rest)
unfolding take_line lacks
take_line-lacks zero line rest h l = absurd (omega arith)
take_line-lacks (suc n) [] rest h l = refl
take_line-lacks (suc n) (c ∷ line) rest h l = ground (arith, take_line-lacks n line rest)

trim_line_end-lacks :
    (line : Bytes)
    → lacks newline line ≡ true
    → lacks 13 line ≡ true
    → trim_line_end (line ++ newline ∷ []) ≡ line
unfolding trim_line_end lacks
trim_line_end-lacks [] l r = refl
trim_line_end-lacks (c ∷ []) l r = ground arith
trim_line_end-lacks (c ∷ d ∷ line) l r =
    let rest = trim_line_end-lacks (d ∷ line) in ground (arith, rest)

abbrev command : ℕ → Bytes
command port = codes "CONNECT " ++ format port

lacks-command : (c port : ℕ) → c < 32 → lacks c (command port) ≡ true
unfolding lacks
lacks-command c port h = ground (arith, lacks-digits c (format port) (format-IsDigit port))

parse_connect_line-command :
    (port : ℕ)
    → 0 < port
    → port ≤ max_u32
    → parse_connect_line (command port ++ newline ∷ []) ≡ some port
unfolding parse_connect_line
parse_connect_line-command port p h = ground (
  arith,
  trim_line_end-lacks (command port) (lacks-command newline port (omega arith))
      (lacks-command 13 port (omega arith)),
  parse-format max_u32 port h,
)

-- A client that sends the word CONNECT, a port from 1 to 2^32 - 1 in decimal and a line end, in a line of
-- at most 64 bytes, is connected to that port of the guest when it accepts, and all it sends afterwards is
-- left to be copied.
pub bridge_connection-proxies :
    (is_utf8 : Bytes → Bool) (connects : ℕ → Bool) (port : ℕ) (rest : Bytes)
    → 0 < port
    → port ≤ max_u32
    → length (codes "CONNECT " ++ format port) < 64
    → is_utf8 (codes "CONNECT " ++ format port ++ newline ∷ []) ≡ true
    → connects port ≡ true
    → bridge_connection is_utf8 connects (codes "CONNECT " ++ format port ++ newline ∷ rest)
      ≡ proxies port rest
unfolding bridge_connection read_connect_line
bridge_connection-proxies is_utf8 connects port rest p h l u c = ground (
  arith,
  take_line-lacks 64 (command port) rest l (lacks-command newline port (omega arith)),
  parse_connect_line-command port p h,
)
