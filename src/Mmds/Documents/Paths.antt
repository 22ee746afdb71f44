-- ===== src/Mmds/Documents/Paths.antt =====
-- The loop over the slashes of a path, against one pass.
use hephaestus.Base.{
  ℕ, zero, suc, ◌≤◌, ◌<◌, ◌≡◌, refl, ◌∙◌, inl, inr, Bool-cases, arith, true, false, ◌&&◌, ◌==◌,
  if◌then◌else◌, [], ◌∷◌, length,
}
use hephaestus.Base.Text.{Bytes}
use hephaestus.Mmds.Documents.{slash, replace_pair, contains_pair, squeeze, raw_path, sanitize_path}

-- Each run of slashes, made one slash.
pub collapse : Bytes → Bytes
collapse [] = []
collapse (x ∷ []) = x ∷ []
collapse (x ∷ y ∷ s) =
    let rest = collapse (y ∷ s) in if x == slash && y == slash then rest else x ∷ rest

abbrev pass : Bytes → Bytes
pass s = replace_pair slash slash slash s

collapse-contains : (s : Bytes) → contains_pair slash slash s ≡ false → collapse s ≡ s
unfolding contains_pair collapse
collapse-contains [] e = refl
collapse-contains (x ∷ []) e = refl
collapse-contains (x ∷ y ∷ s) e = ground (arith, collapse-contains (y ∷ s))

collapse-behind : (c : ℕ) (s : Bytes) → collapse (c ∷ pass s) ≡ collapse (c ∷ s)
unfolding collapse replace_pair
collapse-behind c [] = refl
collapse-behind c (x ∷ []) = refl
collapse-behind c (x ∷ y ∷ s) = ground (arith, collapse-behind slash s, collapse-behind x (y ∷ s))

collapse-pass : (s : Bytes) → collapse (pass s) ≡ collapse s
unfolding collapse replace_pair
collapse-pass [] = refl
collapse-pass (x ∷ []) = refl
collapse-pass (x ∷ y ∷ s) = ground (arith, collapse-behind slash s, collapse-behind x (y ∷ s))

pass-shorter :
    (s : Bytes)
    → (length (pass s) ≤ length s)
      × (contains_pair slash slash s ≡ true → length (pass s) < length s)
unfolding replace_pair contains_pair
pass-shorter [] = (omega arith, λ e. cc)
pass-shorter (x ∷ []) = (omega arith, λ e. cc)
pass-shorter (x ∷ y ∷ s) =
    let (same, less) = pass-shorter (y ∷ s) in
    (ground (arith, (pass-shorter s).0, same), λ e. ground (arith, e, (pass-shorter s).0, less))

squeeze-collapse : (f : ℕ) (s : Bytes) → length s ≤ f → squeeze f s ≡ collapse s
unfolding squeeze
squeeze-collapse zero [] h = unfold collapse in refl
squeeze-collapse zero (c ∷ s) h = absurd (omega arith)
squeeze-collapse (suc f) s h = elim (Bool-cases (contains_pair slash slash s)) [
  | inl e ↦
      let shorter : length (pass s) ≤ f = omega (arith, h, (pass-shorter s).1 e) in
      let again : squeeze (suc f) s ≡ squeeze f (pass s) = ground (arith, e) in
      again ∙ (squeeze-collapse f (pass s) shorter ∙ collapse-pass s)
  | inr e ↦ ground (arith, e, collapse-contains s e)
]

-- The loop over double slashes ends, and what it leaves is the path up to its question mark with each
-- run of slashes made one slash, in a single pass.
pub sanitize_path-collapse : (path : Bytes) → sanitize_path path ≡ collapse (raw_path path)
unfolding sanitize_path
sanitize_path-collapse path =
    squeeze-collapse (length (raw_path path)) (raw_path path) (omega arith)
