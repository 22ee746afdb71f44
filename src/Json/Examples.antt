-- ===== src/Json/Examples.antt =====
-- Patches of a small document.
use hephaestus.Base.{◌≡◌, refl, Option, none, some}
use hephaestus.Base.Text.{Bytes, codes}
use hephaestus.Json.{Value, null, text, object, Fields, end, field, get, merge_json, merge_fields}
use hephaestus.Json.Merge.{IsMap, patched, get-merge_fields}

abbrev document : Fields
document = field (codes "a") (text (codes "1")) (field (codes "b") (text (codes "2")) end)

abbrev patch : Fields
patch = field (codes "a") null (field (codes "c") (text (codes "3")) end)

applied :
    merge_json (object document) (object patch)
    ≡ object (field (codes "b") (text (codes "2")) (field (codes "c") (text (codes "3")) end))
unfolding merge_json hephaestus.Json.insert hephaestus.Json.remove hephaestus.Base.Text.bytes_eq get
applied = refl

-- A null below a key that the document does not have is kept.
kept_null :
    merge_json (object end) (object (field (codes "a") (object (field (codes "b") null end)) end))
    ≡ object (field (codes "a") (object (field (codes "b") null end)) end)
unfolding merge_json hephaestus.Json.insert get
kept_null = refl

patch-IsMap : IsMap patch
unfolding get hephaestus.Base.Text.bytes_eq
patch-IsMap = (refl, (refl, tt))

get-merge_fields_example :
    get (codes "c") (merge_fields document patch)
    ≡ patched (get (codes "c") patch) (get (codes "c") document)
get-merge_fields_example = get-merge_fields (codes "c") document patch patch-IsMap
