-- ===== src/Json.antt =====
-- The JSON documents that the metadata service holds, with serde_json's documented constructors
-- and map operations, and `merge_json` of src/hephaestus-firecracker/src/backend.rs.
pub mod Merge
mod Examples
use hephaestus.Base.{
  ℕ, Bool, true, false, ◌||◌, ◌&&◌, Option, none, some, if◌then◌else◌, ltb, ◌==◌, [], ◌∷◌,
}
use hephaestus.Base.Text.{Bytes, bytes_eq}

-- A number is kept as its text: nothing here computes with one.
mutual
  pub data Value : Type 0 where
    null : Value
    boolean : Bool → Value
    number : Bytes → Value
    text : Bytes → Value
    array : Items → Value
    object : Fields → Value

  pub data Items : Type 0 where
    nil : Items
    item : Value → Items → Items

  pub data Fields : Type 0 where
    end : Fields
    field : Bytes → Value → Fields → Fields

-- The order of a map's keys: bytewise.
unfoldable pub bytes_lt : Bytes → Bytes → Bool
bytes_lt xs [] = false
bytes_lt [] (y ∷ ys) = true
bytes_lt (x ∷ xs) (y ∷ ys) = ltb x y || (x == y && bytes_lt xs ys)

unfoldable pub get : Bytes → Fields → Option Value
get k end = none
get k (field j v m) = if bytes_eq j k then some v else get k m

unfoldable pub insert : Bytes → Value → Fields → Fields
unfolding bytes_lt
insert k v end = field k v end
insert k v (field j w m) =
    if bytes_eq j k
    then field k v m
    else if bytes_lt k j
    then field k v (field j w m)
    else field j w (insert k v m)

unfoldable pub remove : Bytes → Fields → Fields
remove k end = end
remove k (field j v m) = if bytes_eq j k then remove k m else field j v (remove k m)

unfoldable pub get_item : ℕ → Items → Option Value
get_item i nil = none
get_item ℕ.zero (item v vs) = some v
get_item (ℕ.suc i) (item v vs) = get_item i vs

-- What `entry(key).or_insert(Value::Null)` refers to.
abbrev pub or_null : Option Value → Value
or_null none = null
or_null (some v) = v

unfoldable mutual
  pub merge_json : Value → Value → Value
  merge_json (object dst) (object patch) = object (merge_fields dst patch)
  merge_json dst patch = patch

  pub merge_fields : Fields → Fields → Fields
  merge_fields dst end = dst
  merge_fields dst (field k null rest) = merge_fields (remove k dst) rest
  merge_fields dst (field k v rest) =
      merge_fields (insert k (merge_json (or_null (get k dst)) v) dst) rest
