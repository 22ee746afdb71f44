-- ===== src/Config/Mac.antt =====
-- `MacAddr` of src/hephaestus-fc-api/src/vmm_config/net.rs: six bytes, printed and parsed in
-- hexadecimal. `u8::from_str_radix` takes a plus sign before the digits.
use hephaestus.Base.{
  ℕ, ◌+◌, ◌-◌, ◌*◌, ◌/◌, ◌%◌, ◌<◌, ◌≡◌, refl, true, ◌&&◌, Option, none, some, if◌then◌else◌, ◌==◌,
  leb, ltb, List, [], ◌∷◌, ◌++◌, map, All, arith,
}
use hephaestus.Base.Text.{Bytes, split, lacks, split-append}

pub record MacAddr : Type 0 where
  pub b0 : ℕ
  pub b1 : ℕ
  pub b2 : ℕ
  pub b3 : ℕ
  pub b4 : ℕ
  pub b5 : ℕ

hex_digit : ℕ → ℕ
hex_digit n = if ltb n 10 then b'0' + n else b'a' + (n - 10)

-- `{:02x}` of a byte.
hex_byte : ℕ → Bytes
unfolding hex_digit
hex_byte n = hex_digit (n / 16) ∷ hex_digit (n % 16) ∷ []

unfoldable pub to_string : MacAddr → Bytes
unfolding hex_byte
to_string m =
    hex_byte m.b0
    ++ b':'
      ∷ (hex_byte m.b1
          ++ b':'
            ∷ (hex_byte m.b2
                ++ b':' ∷ (hex_byte m.b3 ++ b':' ∷ (hex_byte m.b4 ++ b':' ∷ hex_byte m.b5))))

hex_value : ℕ → Option ℕ
hex_value c =
    if leb b'0' c && leb c b'9'
    then some (c - b'0')
    else if leb b'a' c && leb c b'f'
    then some (c - b'a' + 10)
    else if leb b'A' c && leb c b'F'
    then some (c - b'A' + 10)
    else none

-- `from_str_radix` on a text of length two, and `none` on any other length.
from_hex : Bytes → Option ℕ
unfolding hex_value
from_hex (c ∷ d ∷ []) = if c == b'+' then hex_value d else elim (hex_value c) [
  | none ↦ none
  | some a ↦ elim (hex_value d) [ none ↦ none | some b ↦ some (a * 16 + b) ]
]
from_hex _ = none

all_hex : List Bytes → Option (List ℕ)
all_hex [] = some []
all_hex (p ∷ ps) = elim (from_hex p) [
  | none ↦ none
  | some b ↦ elim (all_hex ps) [ none ↦ none | some bs ↦ some (b ∷ bs) ]
]

six : List ℕ → Option MacAddr
six (a ∷ b ∷ c ∷ d ∷ e ∷ f ∷ []) = some (record { b0 = a; b1 = b; b2 = c; b3 = d; b4 = e; b5 = f })
six _ = none

unfoldable pub from_str : Bytes → Option MacAddr
unfolding all_hex from_hex six
from_str s = elim (all_hex (split b':' s)) [ none ↦ none | some bs ↦ six bs ]

abbrev pub IsMac : MacAddr → Type 0
IsMac m = (m.b0 < 256) × (m.b1 < 256) × (m.b2 < 256) × (m.b3 < 256) × (m.b4 < 256) × (m.b5 < 256)

from_hex-hex_byte : (n : ℕ) → n < 256 → from_hex (hex_byte n) ≡ some n
unfolding from_hex hex_byte
from_hex-hex_byte n h = ground arith

lacks-hex_byte : (n : ℕ) → n < 256 → lacks b':' (hex_byte n) ≡ true
unfolding lacks hex_byte
lacks-hex_byte n h = ground arith

split_last : (n : ℕ) → n < 256 → split b':' (hex_byte n) ≡ hex_byte n ∷ []
unfolding split hex_byte
split_last n h = ground arith

split-to_string :
    (m : MacAddr)
    → IsMac m
    → split b':' (to_string m)
      ≡ hex_byte m.b0
        ∷ hex_byte m.b1
        ∷ hex_byte m.b2
        ∷ hex_byte m.b3
        ∷ hex_byte m.b4
        ∷ hex_byte m.b5
        ∷ []
unfolding to_string
split-to_string m h = simp (
  split-append b':' (hex_byte m.b0) _ (lacks-hex_byte m.b0 h.0),
  split-append b':' (hex_byte m.b1) _ (lacks-hex_byte m.b1 h.1),
  split-append b':' (hex_byte m.b2) _ (lacks-hex_byte m.b2 h.2),
  split-append b':' (hex_byte m.b3) _ (lacks-hex_byte m.b3 h.3),
  split-append b':' (hex_byte m.b4) _ (lacks-hex_byte m.b4 h.4),
  split_last m.b5 h.5,
)

abbrev AllByte : List ℕ → Type 0
AllByte = All (λ n. n < 256)

all_hex-map : (ns : List ℕ) → AllByte ns → all_hex (map hex_byte ns) ≡ some ns
unfolding all_hex
all_hex-map [] h = refl
all_hex-map (n ∷ ns) h = ground (arith, from_hex-hex_byte n h.0, all_hex-map ns h.1)

-- An address of six bytes, printed, is read back as it was.
pub from_str-to_string : (m : MacAddr) → IsMac m → from_str (to_string m) ≡ some m
unfolding from_str
from_str-to_string m h =
    rw (split-to_string m h, from_str)
      (rw (all_hex-map (m.b0 ∷ m.b1 ∷ m.b2 ∷ m.b3 ∷ m.b4 ∷ m.b5 ∷ []) (omega arith), from_str))
