-- ===== src/Json/Merge.antt =====
-- What `merge_json` of src/hephaestus-firecracker/src/backend.rs does to each key of an object.
use hephaestus.Base.{◌≡◌, refl, Option, none, some, if◌then◌else◌, arith, Bool-cases, inl, inr}
use hephaestus.Base.Text.{Bytes, bytes_eq, bytes_eq_iff}
use hephaestus.Json.{
  Value, null, boolean, number, text, array, object, Fields, end, field, get, insert, remove,
  or_null, merge_json, merge_fields,
}

get-insert :
    (k j : Bytes) (v : Value) (m : Fields)
    → get k (insert j v m) ≡ (if bytes_eq j k then some v else get k m)
unfolding get insert
get-insert k j v end = refl
get-insert k j v (field i w m) =
    ground (arith, bytes_eq_iff i j, bytes_eq_iff i k, bytes_eq_iff j k, get-insert k j v m)

get-remove :
    (k j : Bytes) (m : Fields) → get k (remove j m) ≡ (if bytes_eq j k then none else get k m)
unfolding get remove
get-remove k j end = ground arith
get-remove k j (field i w m) =
    ground (arith, bytes_eq_iff i j, bytes_eq_iff i k, bytes_eq_iff j k, get-remove k j m)

-- One member of a patch, applied to the value that its key has.
pub merged : Value → Option Value → Option Value
merged null old = none
merged v old = some (merge_json (or_null old) v)

-- One member of a patch, applied to an object.
put_member : Bytes → Value → Fields → Fields
put_member j null dst = remove j dst
put_member j v dst = insert j (merge_json (or_null (get j dst)) v) dst

merge_fields-field :
    (j : Bytes) (v : Value) (rest dst : Fields)
    → merge_fields dst (field j v rest) ≡ merge_fields (put_member j v dst) rest
unfolding put_member merge_fields
merge_fields-field j null rest dst = refl
merge_fields-field j (boolean _) rest dst = refl
merge_fields-field j (number _) rest dst = refl
merge_fields-field j (text _) rest dst = refl
merge_fields-field j (array _) rest dst = refl
merge_fields-field j (object _) rest dst = refl

get-put_member :
    (k j : Bytes) (v : Value) (dst : Fields)
    → get k (put_member j v dst) ≡ (if bytes_eq j k then merged v (get j dst) else get k dst)
unfolding put_member merged
get-put_member k j null dst = get-remove k j dst
get-put_member k j (boolean b) dst = get-insert k j _ dst
get-put_member k j (number b) dst = get-insert k j _ dst
get-put_member k j (text b) dst = get-insert k j _ dst
get-put_member k j (array b) dst = get-insert k j _ dst
get-put_member k j (object b) dst = get-insert k j _ dst

-- No key stands twice, as in every map of serde_json.
abbrev pub IsMap : Fields → Type 0
IsMap end = Unit {0}
IsMap (field k v m) = (get k m ≡ none) × IsMap m

-- What a patch leaves under a key.
abbrev pub patched : Option Value → Option Value → Option Value
patched none old = old
patched (some v) old = merged v old

patched_once :
    (k j : Bytes) (v : Value) (rest dst : Fields)
    → get j rest ≡ none
    → patched (get k rest) (if bytes_eq j k then merged v (get j dst) else get k dst)
      ≡ patched (if bytes_eq j k then some v else get k rest) (get k dst)
patched_once k j v rest dst n = elim (Bool-cases (bytes_eq j k)) [
  | inl e ↦
      let same : j ≡ k = (bytes_eq_iff j k).0 e in
      let none_left : get k rest ≡ none = cc in rw (e, none_left, same) refl
  | inr e ↦ rw (e) refl
]

-- A patch of an object, in which no key stands twice, key by key: a key that the patch does not
-- have keeps its value; one that the patch has as null is gone; any other has its old value, or
-- null if it had none, merged with the patch's.
pub get-merge_fields :
    (k : Bytes) (dst patch : Fields)
    → IsMap patch
    → get k (merge_fields dst patch) ≡ patched (get k patch) (get k dst)
unfolding get
get-merge_fields k dst end d = unfold merge_fields in refl
get-merge_fields k dst (field j v rest) d =
    rw
      (
        merge_fields-field j v rest dst,
        get-merge_fields k (put_member j v dst) rest d.1,
        get-put_member k j v dst,
      )
      (patched_once k j v rest dst d.0)
