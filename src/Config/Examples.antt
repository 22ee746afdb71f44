-- ===== src/Config/Examples.antt =====
-- A MAC address, and texts that are none.
use hephaestus.Base.{◌≡◌, refl, Option, none, some, arith}
use hephaestus.Base.Text.{codes}
use hephaestus.Config.Mac.{MacAddr, IsMac, to_string, from_str, from_str-to_string}

abbrev guest : MacAddr
guest = record { b0 = 170; b1 = 252; b2 = 0; b3 = 0; b4 = 0; b5 = 1 }

printed : to_string guest ≡ codes "aa:fc:00:00:00:01"
unfolding to_string
printed = refl

too_short : from_str (codes "aa:fc:00:00:00") ≡ none
unfolding from_str hephaestus.Base.Text.split
too_short = refl

-- A sign is read as part of a byte, as `u8::from_str_radix` does.
signed : from_str (codes "+a:fc:00:00:00:01") ≡ some (record guest { b0 = 10 })
unfolding from_str hephaestus.Base.Text.split
signed = refl

guest-IsMac : IsMac guest
guest-IsMac = omega arith

from_str-to_string_example : from_str (to_string guest) ≡ some guest
from_str-to_string_example = from_str-to_string guest guest-IsMac
