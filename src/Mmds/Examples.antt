-- ===== src/Mmds/Examples.antt =====
-- A guest's connection, and what is sent to it.
use hephaestus.Base.{ℕ, ◌≡◌, ◌<◌, ◌≤◌, ◌^◌, ◌++◌, refl, arith, some, [], ◌∷◌, length}
use hephaestus.Base.Text.{Bytes, codes, bytes_eq}
use hephaestus.Mmds.{ClientKey, service_mac, checksum, response_frames}
use hephaestus.Mmds.Segments.{IsKey, Carries, response_frames-Carries}
use hephaestus.Json.{Value, text, object, end, field}
use hephaestus.Mmds.Packets.{parse_segment}
use hephaestus.Mmds.Connections.{process}
use hephaestus.Mmds.Totality.{Yields}
use hephaestus.Mmds.Bounds.{After, process-After}
use hephaestus.Mmds.Documents.{sanitize_path, raw_path, lookup, http_response, render_raw_http}
use hephaestus.Mmds.Documents.Paths.{collapse, sanitize_path-collapse}

abbrev guest : ClientKey
guest = record { mac = 170 ∷ 252 ∷ 0 ∷ 0 ∷ 0 ∷ 1 ∷ []; ip = 192 ∷ 168 ∷ 64 ∷ 2 ∷ []; port = 49152 }

guest-IsKey : IsKey guest
guest-IsKey = record { six_bytes = refl; four_bytes = refl }

summed : checksum (1 ∷ 2 ∷ 255 ∷ []) ≡ some 65532
unfolding checksum
summed = refl

response_frames-Carries_example :
    Carries (response_frames guest 11 20 (codes "HTTP/1.1 200 OK")) (codes "HTTP/1.1 200 OK")
response_frames-Carries_example =
    response_frames-Carries guest 11 20 (codes "HTTP/1.1 200 OK") guest-IsKey

-- The first segment of a guest that opens a connection to port 80 of 169.254.169.254.
abbrev syn : Bytes
syn =
    service_mac
    ++ (170 ∷ 252 ∷ 0 ∷ 0 ∷ 0 ∷ 1 ∷ 8 ∷ 0 ∷ [])
    ++ (69 ∷ 0 ∷ 0 ∷ 40 ∷ 0 ∷ 0 ∷ 64 ∷ 0 ∷ 64 ∷ 6 ∷ 0 ∷ 0 ∷ 192 ∷ 168 ∷ 64 ∷ 2 ∷ [])
    ++ (169 ∷ 254 ∷ 169 ∷ 254 ∷ 192 ∷ 0 ∷ 0 ∷ 80 ∷ 0 ∷ 0 ∷ 0 ∷ 9 ∷ 0 ∷ 0 ∷ 0 ∷ 0 ∷ [])
    ++ (80 ∷ 2 ∷ 250 ∷ 240 ∷ 0 ∷ 0 ∷ 0 ∷ 0 ∷ [])

parsed : parse_segment syn ≡ some (some (record { key = guest; seq = 9; flags = 2; payload = [] }))
unfolding parse_segment bytes_eq
parsed = refl

not_found : Bytes → Bytes
not_found request = codes "HTTP/1.1 404 Not Found"

not_found-short : (r : Bytes) → length (not_found r) < 2 ^ 32
unfolding not_found
not_found-short r = omega arith

process-After_example : Yields After (process not_found 1000 7 syn [])
process-After_example =
    process-After not_found not_found-short 1000 7 syn [] (omega arith) (omega arith, tt)

squeezed : sanitize_path (codes "/latest///meta-data//?x=1") ≡ codes "/latest/meta-data/"
unfolding sanitize_path
squeezed = refl

sanitize_path-collapse_example : sanitize_path (codes "a//b") ≡ collapse (raw_path (codes "a//b"))
sanitize_path-collapse_example = sanitize_path-collapse (codes "a//b")

abbrev document : Value
document = object (
    field (codes "latest")
      (object (field (codes "b") (object end) (field (codes "a") (text (codes "x")) end))) end)

found : lookup document (codes "/latest/a/") ≡ some (text (codes "x"))
unfolding lookup hephaestus.Base.Text.split bytes_eq
found = refl

listed :
    render_raw_http (λ s. s) (λ v. []) (codes "GET /latest HTTP/1.1\r\n\r\n") document
    ≡ http_response 200 (codes "text/plain") (codes "a\nb/")
unfolding render_raw_http hephaestus.Base.Text.split hephaestus.Base.Text.lines bytes_eq
    hephaestus.Mmds.Documents.insert_sorted hephaestus.Json.bytes_lt
listed = refl
