-- ===== src/Jailer/Escape.antt =====
-- The escapes of the jailer's two generated files: `scheme_escape` of profile.rs for the sandbox
-- profile, and `xml_escape` of main.rs for the launchd plist.
pub mod Reading
use hephaestus.Base.{ℕ, ◌==◌, Bool, true, false, if◌then◌else◌, List, [], ◌∷◌, ◌++◌}
use hephaestus.Base.Text.{Bytes, codes}

-- `str::replace` of a single ASCII character.
unfoldable pub replace : ℕ → Bytes → Bytes → Bytes
replace c by [] = []
replace c by (x ∷ s) = let rest = replace c by s in if x == c then by ++ rest else x ∷ rest

abbrev pub quote : ℕ
quote = 34

abbrev pub backslash : ℕ
backslash = 92

unfoldable pub scheme_escape : Bytes → Bytes
unfolding replace
scheme_escape s =
    replace quote (backslash ∷ quote ∷ []) (replace backslash (backslash ∷ backslash ∷ []) s)

abbrev pub ampersand : ℕ
ampersand = 38

abbrev pub less_than : ℕ
less_than = 60

abbrev pub greater_than : ℕ
greater_than = 62

unfoldable pub xml_escape : Bytes → Bytes
unfolding replace
xml_escape s =
    replace greater_than (codes "&gt;")
      (replace less_than (codes "&lt;") (replace ampersand (codes "&amp;") s))
