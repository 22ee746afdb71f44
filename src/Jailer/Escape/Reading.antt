-- ===== src/Jailer/Escape/Reading.antt =====
-- What a reader of the generated files gets back.
use hephaestus.Base.{
  ℕ, zero, suc, ◌==◌, ◌≡◌, ◌≢◌, refl, sym, subst, arith, true, if◌then◌else◌, Option, none, some,
  [], ◌∷◌, ◌++◌,
}
use hephaestus.Base.Text.{Bytes, codes, lacks, starts_with}
use hephaestus.Jailer.Escape.{
  replace, quote, backslash, scheme_escape, ampersand, less_than, greater_than, xml_escape,
}

-- The text of a string of the profile language, after its opening quote, and what follows its
-- closing quote. A backslash stands before a byte that is meant as it is.
pub read_string : Bytes → Option (Bytes × Bytes)
read_string [] = none
read_string (c ∷ []) = if c == quote then some ([], []) else none
read_string (c ∷ d ∷ s) =
    let short = read_string s in
    let rest = read_string (d ∷ s) in
    if c == quote
    then some ([], d ∷ s)
    else if c == backslash
    then elim short [ none ↦ none | some (t, r) ↦ some (d ∷ t, r) ]
    else elim rest [ none ↦ none | some (t, r) ↦ some (c ∷ t, r) ]

-- Both passes at once.
scheme_escape-cons :
    (c : ℕ) (s : Bytes)
    → scheme_escape (c ∷ s) ≡ (
        if c == backslash
        then backslash ∷ backslash ∷ scheme_escape s
        else if c == quote
        then backslash ∷ quote ∷ scheme_escape s
        else c ∷ scheme_escape s)
unfolding scheme_escape replace
scheme_escape-cons c s = ground arith

read_string-plain :
    (c : ℕ) (s t r : Bytes)
    → c ≢ quote
    → c ≢ backslash
    → read_string s ≡ some (t, r)
    → read_string (c ∷ s) ≡ some (c ∷ t, r)
unfolding read_string
read_string-plain c [] t r q b e = cc
read_string-plain c (d ∷ s) t r q b e = ground arith

read_string-escaped :
    (c : ℕ) (s t r : Bytes)
    → read_string s ≡ some (t, r)
    → read_string (backslash ∷ c ∷ s) ≡ some (c ∷ t, r)
unfolding read_string
read_string-escaped c s t r e = ground arith

read_string-closed : (s : Bytes) → read_string (quote ∷ s) ≡ some ([], s)
unfolding read_string
read_string-closed [] = refl
read_string-closed (c ∷ s) = refl

-- An escaped text between quotes is read back as it was, and what follows its closing quote is left
-- over: no text, whatever bytes it has, ends its string early or runs on after it.
pub read_string-scheme_escape :
    (s rest : Bytes) → read_string (scheme_escape s ++ quote ∷ rest) ≡ some (s, rest)
unfolding scheme_escape replace
read_string-scheme_escape [] rest = read_string-closed rest
read_string-scheme_escape (c ∷ s) rest =
    let again = read_string-scheme_escape s rest in
    subst (λ t. read_string (t ++ quote ∷ rest) ≡ some (c ∷ s, rest)) (sym (scheme_escape-cons c s))
      (ground (
        arith,
        again,
        read_string-plain c (scheme_escape s ++ quote ∷ rest) s rest,
        read_string-escaped c (scheme_escape s ++ quote ∷ rest) s rest,
      ))

-- A text with its entity references replaced by what they stand for; `n` bytes are yet to be
-- skipped.
pub read_xml : (n : ℕ) → Bytes → Bytes
read_xml n [] = []
read_xml (suc n) (c ∷ s) = read_xml n s
read_xml zero (c ∷ s) =
    let plain = read_xml 0 s in
    let three = read_xml 3 s in
    let four = read_xml 4 s in
    if c == ampersand
    then (if starts_with (codes "amp;") s
        then ampersand ∷ four
        else if starts_with (codes "lt;") s
        then less_than ∷ three
        else if starts_with (codes "gt;") s
        then greater_than ∷ three
        else c ∷ plain)
    else c ∷ plain

-- The three passes at once.
xml_escape-cons :
    (c : ℕ) (s : Bytes)
    → xml_escape (c ∷ s) ≡ (
        if c == ampersand
        then codes "&amp;" ++ xml_escape s
        else if c == less_than
        then codes "&lt;" ++ xml_escape s
        else if c == greater_than
        then codes "&gt;" ++ xml_escape s
        else c ∷ xml_escape s)
unfolding xml_escape replace
xml_escape-cons c s = ground arith

read_xml-cons :
    (c : ℕ) (s t : Bytes)
    → read_xml 0 t ≡ s
    → read_xml 0 (
        if c == ampersand
        then codes "&amp;" ++ t
        else if c == less_than
        then codes "&lt;" ++ t
        else if c == greater_than
        then codes "&gt;" ++ t
        else c ∷ t)
      ≡ c ∷ s
unfolding read_xml
read_xml-cons c s t e = ground arith

read_xml-escape : (s : Bytes) → read_xml 0 (xml_escape s) ≡ s
unfolding xml_escape replace read_xml
read_xml-escape [] = refl
read_xml-escape (c ∷ s) =
    subst (λ t. read_xml 0 t ≡ c ∷ s) (sym (xml_escape-cons c s))
      (read_xml-cons c s (xml_escape s) (read_xml-escape s))

xml_escape-lacks :
    (s : Bytes)
    → (lacks less_than (xml_escape s) ≡ true) × (lacks greater_than (xml_escape s) ≡ true)
unfolding xml_escape replace lacks
xml_escape-lacks [] = (refl, refl)
xml_escape-lacks (c ∷ s) = ground (arith, xml_escape-cons c s, xml_escape-lacks s)

-- An escaped text has no angle bracket, so it cannot open or close a tag, and reading its entity
-- references gives the text back.
pub read_xml-xml_escape :
    (s : Bytes)
    → (lacks less_than (xml_escape s) ≡ true)
      × (lacks greater_than (xml_escape s) ≡ true)
      × (read_xml 0 (xml_escape s) ≡ s)
read_xml-xml_escape s = ((xml_escape-lacks s).0, (xml_escape-lacks s).1, read_xml-escape s)
