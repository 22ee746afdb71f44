-- ===== src/Backend/Ipv4.antt =====
-- `validate_mmds_link_local_addr`, over the standard library's parser of IPv4 addresses: four
-- decimal octets between dots, with no sign and no leading zero.
use hephaestus.Base.{
  ℕ, Bool, false, ◌&&◌, not, Option, none, some, if◌then◌else◌, ◌==◌, List, [], ◌∷◌, all,
}
use hephaestus.Base.Text.{Bytes, split}
use hephaestus.Base.Decimal.{parse, is_digit}

unfoldable pub parse_octet : Bytes → Option ℕ
parse_octet [] = none
parse_octet (c ∷ []) = if is_digit c then parse 255 (c ∷ []) else none
parse_octet (c ∷ d ∷ s) =
    if not (c == b'0') && all is_digit (c ∷ d ∷ s) then parse 255 (c ∷ d ∷ s) else none

octets : List Bytes → Option (List ℕ)
octets [] = some []
octets (p ∷ ps) = elim (parse_octet p) [
  | none ↦ none
  | some o ↦ elim (octets ps) [ none ↦ none | some os ↦ some (o ∷ os) ]
]

four : List ℕ → Option (ℕ × ℕ × ℕ × ℕ)
four (a ∷ b ∷ c ∷ d ∷ []) = some (a, b, c, d)
four _ = none

unfoldable pub parse_ipv4 : Bytes → Option (ℕ × ℕ × ℕ × ℕ)
unfolding octets four parse_octet
parse_ipv4 s = elim (octets (split b'.' s)) [ none ↦ none | some os ↦ four os ]

unfoldable pub is_link_local : Bytes → Bool
unfolding parse_ipv4
is_link_local s = elim (parse_ipv4 s) [ none ↦ false | some (a, b, c, d) ↦ a == 169 && b == 254 ]
