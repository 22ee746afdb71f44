-- ===== src/Base/Text.antt =====
-- Text as a list of byte values: what the program uses of Rust's `str`. White space is ASCII's.
use Prim.Native.Char.{code}
use Prim.Native.String.{String}
use Prim.Native.Nat.{ℕ}
use mathlib.Core.Path.{◌≡◌, refl}
use mathlib.Core.Logic.{◌↔◌, ◌≢◌}
use mathlib.Core.Bool.{Bool, true, false, ◌&&◌, ◌||◌}
use mathlib.Core.List.{List, [], ◌∷◌, ◌++◌}
use mathlib.Core.Option.{Option, none, some}
use native.Mathlib.Omega.{arith}
use hephaestus.Base.Tests.{◌==◌, leb, if◌then◌else◌}

abbrev pub Bytes : Type 0
Bytes = List ℕ

abbrev pub codes : String → Bytes
codes String.[] = []
codes (String.◌∷◌ c s) = code c ∷ codes s

unfoldable pub bytes_eq : Bytes → Bytes → Bool
bytes_eq [] [] = true
bytes_eq [] (y ∷ ys) = false
bytes_eq (x ∷ xs) [] = false
bytes_eq (x ∷ xs) (y ∷ ys) = x == y && bytes_eq xs ys

pub bytes_eq_iff : (xs ys : Bytes) → (bytes_eq xs ys ≡ true) ↔ (xs ≡ ys)
unfolding bytes_eq
bytes_eq_iff [] [] = (λ _. refl, λ _. refl)
bytes_eq_iff [] (y ∷ ys) = (λ h. cc, λ h. cc)
bytes_eq_iff (x ∷ xs) [] = (λ h. cc, λ h. cc)
bytes_eq_iff (x ∷ xs) (y ∷ ys) =
    (λ h. ground (arith, bytes_eq_iff xs ys), λ h. ground (arith, bytes_eq_iff xs ys))

pub bytes_eq_refl : (xs : Bytes) → bytes_eq xs xs ≡ true
bytes_eq_refl xs = (bytes_eq_iff xs xs).1 refl

-- `char::is_ascii_whitespace` and the vertical tab, as `str::trim` removes them.
abbrev pub is_space : ℕ → Bool
is_space c = c == 32 || leb 9 c && leb c 13

abbrev pub trim_start : Bytes → Bytes
trim_start [] = []
trim_start (c ∷ s) = if is_space c then trim_start s else c ∷ s

-- The text without the white space at its end.
abbrev pub trim_end : Bytes → Bytes
trim_end [] = []
trim_end (c ∷ s) = elim (trim_end s) [ [] ↦ if is_space c then [] else c ∷ [] | d ∷ r ↦ c ∷ d ∷ r ]

abbrev pub trim : Bytes → Bytes
trim s = trim_end (trim_start s)

-- `split_once`: at the first occurrence of the separator.
abbrev pub split_once : ℕ → Bytes → Option (Bytes × Bytes)
split_once sep [] = none
split_once sep (c ∷ s) = elim (split_once sep s) [
  | none ↦ if c == sep then some ([], s) else none
  | some (a, b) ↦ if c == sep then some ([], s) else some (c ∷ a, b)
]

abbrev pub strip_prefix : Bytes → Bytes → Option Bytes
strip_prefix [] s = some s
strip_prefix (p ∷ ps) [] = none
strip_prefix (p ∷ ps) (c ∷ s) = if p == c then strip_prefix ps s else none

abbrev pub starts_with : Bytes → Bytes → Bool
starts_with [] s = true
starts_with (p ∷ ps) [] = false
starts_with (p ∷ ps) (c ∷ s) = p == c && starts_with ps s

-- The pieces between the occurrences of a separator: one more than there are separators.
abbrev pub cons_first : ℕ → List Bytes → List Bytes
cons_first c [] = (c ∷ []) ∷ []
cons_first c (p ∷ ps) = (c ∷ p) ∷ ps

unfoldable pub split : ℕ → Bytes → List Bytes
split sep [] = [] ∷ []
split sep (c ∷ s) = let rest = split sep s in if c == sep then [] ∷ rest else cons_first c rest

abbrev pub newline : ℕ
newline = 10

-- `str::lines`, whose callers trim each line: the text after the last newline counts if it is not
-- empty, and an empty one is skipped by every caller.
unfoldable pub lines : Bytes → List Bytes
unfolding split
lines s = split newline s

unfoldable pub lacks : ℕ → Bytes → Bool
lacks c [] = true
lacks c (d ∷ s) = if d == c then false else lacks c s

-- The first piece ends where the first separator stands.
pub split-append :
    (sep : ℕ) (p s : Bytes) → lacks sep p ≡ true → split sep (p ++ sep ∷ s) ≡ p ∷ split sep s
unfolding split lacks
split-append sep [] s h = ground arith
split-append sep (c ∷ p) s h = ground (arith, split-append sep p s)

pub split_once-append :
    (sep : ℕ) (p s : Bytes) → lacks sep p ≡ true → split_once sep (p ++ sep ∷ s) ≡ some (p, s)
unfolding lacks
split_once-append sep [] s h = ground arith
split_once-append sep (c ∷ p) s h = ground (arith, split_once-append sep p s)

pub lacks-append :
    (c : ℕ) (p s : Bytes) → lacks c p ≡ true → lacks c s ≡ true → lacks c (p ++ s) ≡ true
unfolding lacks
lacks-append c [] s h k = k
lacks-append c (d ∷ p) s h k = ground (arith, lacks-append c p s)

pub trim_end-cons : (c : ℕ) (s : Bytes) → s ≢ [] → trim_end s ≡ s → trim_end (c ∷ s) ≡ c ∷ s
trim_end-cons c [] n e = absurd (n refl)
trim_end-cons c (d ∷ s) n e = rw (e, trim_end)

-- What ends in a byte that is no white space is not shortened at its end.
pub trim_end-append : (p s : Bytes) → s ≢ [] → trim_end s ≡ s → trim_end (p ++ s) ≡ p ++ s
trim_end-append [] s n e = e
trim_end-append (c ∷ p) s n e =
    trim_end-cons c (p ++ s) (append-ne-nil p s n) (trim_end-append p s n e)
  where
    append-ne-nil : (p s : Bytes) → s ≢ [] → p ++ s ≢ []
    append-ne-nil [] s n = n
    append-ne-nil (c ∷ p) s n = λ e. cc

pub lacks-cons : (c d : ℕ) (s : Bytes) → d ≢ c → lacks c s ≡ true → lacks c (d ∷ s) ≡ true
unfolding lacks
lacks-cons c d s n h = ground arith
