-- ===== src/Mmds/Documents.antt =====
-- What a path of the metadata service names, and the response to a request: `lookup`, `sanitize_path`,
-- `format_imds` and `render_raw_http`.
pub mod Paths
use hephaestus.Base.{
  ℕ, zero, suc, ◌+◌, ◌-◌, ◌*◌, ◌^◌, Bool, true, false, not, ◌&&◌, ◌||◌, Option, none, some,
  unwrap_or, if◌then◌else◌, ◌==◌, ltb, leb, List, [], ◌∷◌, ◌++◌, length, any, map,
}
use hephaestus.Base.Text.{
  Bytes, codes, bytes_eq, split, lines, split_once, starts_with, is_space, newline,
}
use hephaestus.Base.Decimal.{format, parse}
use hephaestus.Json.{
  Value, null, boolean, number, text, array, object, Items, Fields, end, field, get, get_item,
  bytes_lt,
}

abbrev pub slash : ℕ
slash = 47

abbrev pub tilde : ℕ
tilde = 126

-- `str::replace` of two ASCII characters by one.
unfoldable pub replace_pair : (a b by : ℕ) → Bytes → Bytes
replace_pair a b by [] = []
replace_pair a b by (x ∷ []) = x ∷ []
replace_pair a b by (x ∷ y ∷ s) =
    let behind = replace_pair a b by s in
    let next = replace_pair a b by (y ∷ s) in if x == a && y == b then by ∷ behind else x ∷ next

unfoldable pub contains_pair : (a b : ℕ) → Bytes → Bool
contains_pair a b [] = false
contains_pair a b (x ∷ []) = false
contains_pair a b (x ∷ y ∷ s) =
    let rest = contains_pair a b (y ∷ s) in if x == a && y == b then true else rest

-- The loop that replaces double slashes, with fuel.
unfoldable pub squeeze : ℕ → Bytes → Bytes
unfolding replace_pair contains_pair
squeeze zero s = s
squeeze (suc f) s =
    let rest = squeeze f (replace_pair slash slash slash s) in
    if contains_pair slash slash s then rest else s

abbrev pub or_root : Bytes → Bytes
or_root [] = slash ∷ []
or_root (c ∷ s) = c ∷ s

-- The path up to a question mark.
unfoldable pub raw_path : Bytes → Bytes
raw_path path = elim (split_once 63 path) [ none ↦ or_root path | some (p, query) ↦ or_root p ]

unfoldable pub sanitize_path : Bytes → Bytes
unfolding raw_path squeeze
sanitize_path path = squeeze (length (raw_path path)) (raw_path path)

unfoldable pub trim_slashes : Bytes → Bytes
trim_slashes [] = []
trim_slashes (c ∷ s) = if c == slash then trim_slashes s else c ∷ s

-- The text without the slashes at its end.
unfoldable pub trim_last_slashes : Bytes → Bytes
trim_last_slashes [] = []
trim_last_slashes (c ∷ s) = elim (trim_last_slashes s) [
  | [] ↦ if c == slash then [] else c ∷ []
  | d ∷ r ↦ c ∷ d ∷ r
]

-- The escapes of a JSON pointer.
unfoldable pub unescape : Bytes → Bytes
unfolding replace_pair
unescape segment = replace_pair tilde b'0' tilde (replace_pair tilde b'1' slash segment)

unfoldable pub step_into : Value → (key : Bytes) → Option Value
unfolding get get_item parse
step_into (object m) key = get key m
step_into (array items) key = elim (parse (2 ^ 64 - 1) key) [
  | none ↦ none
  | some i ↦ get_item i items
]
step_into null key = none
step_into (boolean b) key = none
step_into (number n) key = none
step_into (text t) key = none

unfoldable pub walk : Value → List Bytes → Option Value
unfolding step_into unescape
walk v [] = some v
walk v (segment ∷ segments) = elim (step_into v (unescape segment)) [
  | none ↦ none
  | some w ↦ walk w segments
]

abbrev pub is_nil : Bytes → Bool
is_nil [] = true
is_nil (_ ∷ _) = false

unfoldable pub lookup : Value → Bytes → Option Value
unfolding walk trim_slashes trim_last_slashes
lookup root path =
    let trimmed = trim_last_slashes (trim_slashes path) in
    if is_nil trimmed then some root else walk root (split slash trimmed)

abbrev pub is_object : Value → Bool
is_object (object m) = true
is_object null = false
is_object (boolean b) = false
is_object (number n) = false
is_object (text t) = false
is_object (array items) = false

unfoldable pub key_lines : Fields → List Bytes
key_lines end = []
key_lines (field k v m) = (if is_object v then k ++ slash ∷ [] else k) ∷ key_lines m

-- `sort`, bytewise.
unfoldable pub insert_sorted : Bytes → List Bytes → List Bytes
insert_sorted k [] = k ∷ []
insert_sorted k (j ∷ js) =
    let rest = insert_sorted k js in if bytes_lt j k then j ∷ rest else k ∷ j ∷ js

unfoldable pub sort : List Bytes → List Bytes
sort [] = []
sort (k ∷ ks) = insert_sorted k (sort ks)

unfoldable pub join_lines : List Bytes → Bytes
join_lines [] = []
join_lines (k ∷ []) = k
join_lines (k ∷ j ∷ js) = k ++ newline ∷ join_lines (j ∷ js)

unfoldable pub format_imds : Fields → Bytes
unfolding key_lines sort join_lines
format_imds m = join_lines (sort (key_lines m))

unfoldable pub word : Bytes → Bytes × Bytes
word [] = ([], [])
word (c ∷ s) = let (w, rest) = word s in if is_space c then ([], c ∷ s) else (c ∷ w, rest)

abbrev pub skip_spaces : Bytes → Bytes
skip_spaces [] = []
skip_spaces (c ∷ s) = if is_space c then skip_spaces s else c ∷ s

abbrev pub first_line : List Bytes → Bytes
first_line [] = []
first_line (l ∷ ls) = l

abbrev pub lower : ℕ → ℕ
lower c = if leb b'A' c && leb c b'Z' then c + 32 else c

unfoldable pub contains : Bytes → Bytes → Bool
contains what [] = is_nil what
contains what (c ∷ s) =
    let rest = contains what s in if starts_with what (c ∷ s) then true else rest

unfoldable pub accepts_json : List Bytes → Bool
unfolding contains
accepts_json ls =
    any
      (λ l.
        let low = map lower l in
        starts_with (codes "accept:") low && contains (codes "application/json") low)
      ls

abbrev pub reason : ℕ → Bytes
reason status =
    if status == 200
    then codes "OK"
    else if status == 404
    then codes "Not Found"
    else codes "Method Not Allowed"

unfoldable pub http_response : (status : ℕ) → (content_type body : Bytes) → Bytes
http_response status content_type body =
    codes "HTTP/1.1 "
    ++ format status
    ++ codes " "
    ++ reason status
    ++ codes "\r\nContent-Type: "
    ++ content_type
    ++ codes "\r\nContent-Length: "
    ++ format (length body)
    ++ codes "\r\nConnection: close\r\n\r\n"
    ++ body

-- `to_vec` is serde's text of a document.
unfoldable pub render_value : (to_vec : Value → Bytes) → (accept_json : Bool) → Value → Bytes
unfolding http_response format_imds
render_value to_vec true v = http_response 200 (codes "application/json") (to_vec v)
render_value to_vec false (text t) = http_response 200 (codes "text/plain") t
render_value to_vec false (object m) = http_response 200 (codes "text/plain") (format_imds m)
render_value to_vec false null = http_response 200 (codes "application/json") (to_vec null)
render_value to_vec false (boolean b) =
    http_response 200 (codes "application/json") (to_vec (boolean b))
render_value to_vec false (number n) =
    http_response 200 (codes "application/json") (to_vec (number n))
render_value to_vec false (array items) =
    http_response 200 (codes "application/json") (to_vec (array items))

-- `lossy` is the standard library's reading of bytes as a text.
unfoldable pub render_raw_http :
    (lossy : Bytes → Bytes) → (to_vec : Value → Bytes) → Bytes → Value → Bytes
unfolding sanitize_path lookup word accepts_json http_response render_value
render_raw_http lossy to_vec request root =
    let ls = lines (lossy request) in
    let (method, rest) = word (skip_spaces (first_line ls)) in
    let target = (word (skip_spaces rest)).0 in
    let path = sanitize_path (if is_nil target then slash ∷ [] else target) in
    if bytes_eq method (codes "GET")
    then elim (lookup root path) [
      | some v ↦ render_value to_vec (accepts_json ls) v
      | none ↦
          http_response 404 (codes "text/plain")
            (codes "The MMDS resource does not exist: " ++ path)
    ]
    else http_response 405 (codes "text/plain") (codes "Method not allowed")
