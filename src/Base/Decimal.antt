-- ===== src/Base/Decimal.antt =====
-- `to_string` of an unsigned integer and `str::parse` of one, as the standard library documents
-- them: digits with no leading zero; one or more digits after at most one plus sign, in range.
use Prim.Native.Nat.{ℕ, zero, suc, ◌+◌, ◌-◌, ◌*◌, ◌/◌, ◌%◌, ◌≤◌, ◌<◌}
use mathlib.Core.Path.{◌≡◌, refl}
use mathlib.Core.Logic.{◌≢◌}
use mathlib.Core.Bool.{Bool, true, ◌&&◌}
use mathlib.Core.List.{[], ◌∷◌}
use mathlib.Core.Option.{Option, none, some}
use native.Mathlib.Omega.{arith}
use hephaestus.Base.Tests.{◌==◌, leb, if◌then◌else◌}
use hephaestus.Base.Lists.{All}
use hephaestus.Base.Text.{Bytes, codes, lacks, trim, trim_start, trim_end, trim_end-cons}

abbrev pub is_digit : ℕ → Bool
is_digit c = leb b'0' c && leb c b'9'

-- The digits of `n` in front of `out`, with fuel.
digits : ℕ → ℕ → Bytes → Bytes
digits zero n out = out
digits (suc f) n out =
    let rest = digits f (n / 10) ((b'0' + n % 10) ∷ out) in if n == 0 then out else rest

unfoldable pub format : ℕ → Bytes
unfolding digits
format n = if n == 0 then b'0' ∷ [] else digits n n []

scan : ℕ → Bytes → ℕ → Option ℕ
scan bound [] n = some n
scan bound (c ∷ s) n =
    if is_digit c
    then (if leb (n * 10 + (c - b'0')) bound then scan bound s (n * 10 + (c - b'0')) else none)
    else none

scan_all : ℕ → Bytes → Option ℕ
unfolding scan
scan_all bound [] = none
scan_all bound (c ∷ s) = scan bound (c ∷ s) 0

unfoldable pub parse : ℕ → Bytes → Option ℕ
unfolding scan_all
parse bound [] = none
parse bound (c ∷ s) = if c == b'+' then scan_all bound s else scan_all bound (c ∷ s)

-- Reading the digits that `digits` writes gives the number back.
scan-digits :
    (bound f n : ℕ) (out : Bytes)
    → n ≤ f
    → n ≤ bound
    → scan bound (digits f n out) 0 ≡ scan bound out n
unfolding digits
scan-digits bound zero n out h b = ground arith
scan-digits bound (suc f) n out h b =
    ground (arith, scan-digits bound f (n / 10) ((b'0' + n % 10) ∷ out), scan_last bound n out)
  where
    scan_last :
        (bound n : ℕ) (out : Bytes)
        → n ≤ bound
        → scan bound ((b'0' + n % 10) ∷ out) (n / 10) ≡ scan bound out n
    scan_last bound n out b = unfold scan in ground arith

abbrev pub IsDigit : ℕ → Type 0
IsDigit c = (b'0' ≤ c) × (c ≤ b'9')

digits-IsDigit : (f n : ℕ) (out : Bytes) → All IsDigit out → All IsDigit (digits f n out)
unfolding digits
digits-IsDigit zero n out h = h
digits-IsDigit (suc f) n out h =
    ground
      (arith, digits-IsDigit f (n / 10) ((b'0' + n % 10) ∷ out) ((omega arith, omega arith), h))

pub format-IsDigit : (n : ℕ) → All IsDigit (format n)
unfolding format
format-IsDigit n = ground (arith, digits-IsDigit n n [] tt)

digits-ne-nil : (f n : ℕ) (out : Bytes) → out ≢ [] → digits f n out ≢ []
unfolding digits
digits-ne-nil zero n out h = h
digits-ne-nil (suc f) n out h =
    ground (arith, digits-ne-nil f (n / 10) ((b'0' + n % 10) ∷ out) (λ e. cc))

pub format-ne-nil : (n : ℕ) → format n ≢ []
unfolding format
format-ne-nil zero = λ e. cc
format-ne-nil (suc n) =
    unfold digits in
    ground (arith, digits-ne-nil n (suc n / 10) ((b'0' + suc n % 10) ∷ []) (λ e. cc))

parse_digits : (bound : ℕ) (s : Bytes) → s ≢ [] → All IsDigit s → parse bound s ≡ scan bound s 0
unfolding parse
parse_digits bound [] h d = absurd (h refl)
parse_digits bound (c ∷ s) h d = ground arith

-- Every number in range is read back from its print.
pub parse-format : (bound n : ℕ) → n ≤ bound → parse bound (format n) ≡ some n
parse-format bound n h =
    rw (parse_digits bound (format n) (format-ne-nil n) (format-IsDigit n))
      (unfold format scan in ground (arith, scan-digits bound n n []))

pub trim_end-digits : (s : Bytes) → All IsDigit s → trim_end s ≡ s
trim_end-digits [] d = refl
trim_end-digits (c ∷ []) d = ground arith
trim_end-digits (c ∷ e ∷ s) d = trim_end-cons c (e ∷ s) (λ q. cc) (trim_end-digits (e ∷ s) d.1)

pub trim-digits : (s : Bytes) → All IsDigit s → trim s ≡ s
trim-digits [] d = refl
trim-digits (c ∷ s) d =
    let start : trim_start (c ∷ s) ≡ c ∷ s = ground arith in rw (start) (trim_end-digits (c ∷ s) d)

pub lacks-digits : (c : ℕ) (s : Bytes) → All IsDigit s → c < b'0' → lacks c s ≡ true
unfolding lacks
lacks-digits c [] d h = refl
lacks-digits c (x ∷ s) d h = ground (arith, lacks-digits c s)

leading_zero_and_plus : parse 255 (codes "+07") ≡ some 7
unfolding parse
leading_zero_and_plus = refl

too_large : parse 255 (codes "256") ≡ none
unfolding parse
too_large = refl

printed : format 61002 ≡ codes "61002"
unfolding format
printed = refl

scan-le : (bound : ℕ) (s : Bytes) (n r : ℕ) → n ≤ bound → scan bound s n ≡ some r → r ≤ bound
unfolding scan
scan-le bound [] n r h e = ground arith
scan-le bound (c ∷ s) n r h e = ground (arith, scan-le bound s (n * 10 + (c - b'0')) r)

scan_all-le : (bound : ℕ) (s : Bytes) (r : ℕ) → scan_all bound s ≡ some r → r ≤ bound
unfolding scan_all
scan_all-le bound [] r e = cc
scan_all-le bound (c ∷ s) r e = scan-le bound (c ∷ s) 0 r (omega arith) e

-- What is parsed is in range.
pub parse-le : (bound : ℕ) (s : Bytes) (r : ℕ) → parse bound s ≡ some r → r ≤ bound
unfolding parse
parse-le bound [] r e = cc
parse-le bound (c ∷ s) r e = ground (arith, scan_all-le bound s r, scan_all-le bound (c ∷ s) r)
