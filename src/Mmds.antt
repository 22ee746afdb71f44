-- ===== src/Mmds.antt =====
-- The metadata responder of src/hephaestus-firecracker/src/host_mmds.rs, and here the frames that the host
-- sends to a guest that asks 169.254.169.254 over vmnet. A panic of the source is `none`.
pub mod Segments
pub mod Packets
pub mod Connections
pub mod Totality
pub mod Limits
pub mod Bounds
pub mod Documents
mod Examples
use hephaestus.Base.{
  ℕ, zero, suc, ◌+◌, ◌-◌, ◌*◌, ◌/◌, ◌%◌, ◌^◌, Bool, Option, none, some, if◌then◌else◌, ◌==◌, ltb,
  List, [], ◌∷◌, ◌++◌, length, take, drop,
}
use hephaestus.Base.Text.{Bytes}

pub record ClientKey : Type 0 where
  pub mac : Bytes
  pub ip : Bytes
  pub port : ℕ

abbrev pub link_local_addr : Bytes
link_local_addr = 169 ∷ 254 ∷ 169 ∷ 254 ∷ []

abbrev pub service_mac : Bytes
service_mac = 2 ∷ 72 ∷ 80 ∷ 77 ∷ 68 ∷ 83 ∷ []

abbrev pub flag_fin : ℕ
flag_fin = 1

abbrev pub flag_psh_ack : ℕ
flag_psh_ack = 24

unfoldable pub max_tcp_payload : ℕ
max_tcp_payload = 1200

-- `to_be_bytes`.
abbrev pub be16 : ℕ → Bytes
be16 n = n / 256 % 256 ∷ n % 256 ∷ []

abbrev pub be32 : ℕ → Bytes
be32 n = n / 2 ^ 24 % 256 ∷ n / 2 ^ 16 % 256 ∷ n / 256 % 256 ∷ n % 256 ∷ []

-- The words of two bytes, added in 32 bits; a last byte alone is the high one.
unfoldable pub sum_words : ℕ → Bytes → ℕ
sum_words s [] = s
sum_words s (a ∷ []) = (s + a * 256) % 2 ^ 32
sum_words s (a ∷ b ∷ rest) = sum_words ((s + (a * 256 + b)) % 2 ^ 32) rest

-- The loop that folds the carries, with fuel.
unfoldable pub fold : ℕ → ℕ → ℕ
fold zero s = s
fold (suc f) s = let rest = fold f (s % 2 ^ 16 + s / 2 ^ 16) in if s / 2 ^ 16 == 0 then s else rest

-- `!u16::try_from(sum).expect(..)`.
unfoldable pub complement : ℕ → Option ℕ
complement s = if ltb s (2 ^ 16) then some (2 ^ 16 - 1 - s) else none

unfoldable pub checksum : Bytes → Option ℕ
unfolding sum_words fold complement
checksum bytes = complement (fold 2 (sum_words 0 bytes))

unfoldable pub len_u16 : ℕ → Option ℕ
len_u16 n = if ltb n (2 ^ 16) then some n else none

-- The headers, with the checksum that stands in them.
unfoldable pub ip_header : ClientKey → (len sum : ℕ) → Bytes
ip_header key len sum =
    69 ∷ 0 ∷ (be16 len ++ 0 ∷ 0 ∷ 64 ∷ 0 ∷ 64 ∷ 6 ∷ (be16 sum ++ (link_local_addr ++ key.ip)))

unfoldable pub tcp_header : ClientKey → (seq ack flags sum : ℕ) → Bytes
tcp_header key seq ack flags sum =
    be16 80
    ++ (be16 key.port
        ++ (be32 seq ++ (be32 ack ++ 80 ∷ flags ∷ (be16 64240 ++ (be16 sum ++ 0 ∷ 0 ∷ [])))))

unfoldable pub pseudo : ClientKey → (len : ℕ) → (segment : Bytes) → Bytes
pseudo key len segment = link_local_addr ++ (key.ip ++ 0 ∷ 6 ∷ (be16 len ++ segment))

-- Destination, source and EtherType of a frame, and its IP header.
unfoldable pub frame_header : ClientKey → (len sum : ℕ) → Bytes
unfolding ip_header
frame_header key len sum = key.mac ++ (service_mac ++ 8 ∷ 0 ∷ ip_header key len sum)

unfoldable pub build_tcp_frame : ClientKey → (seq ack flags : ℕ) → Bytes → Option Bytes
unfolding len_u16 checksum ip_header tcp_header pseudo frame_header
build_tcp_frame key seq ack flags payload = elim (len_u16 (40 + length payload)) [
  | none ↦ none
  | some ip_len ↦ elim (checksum (ip_header key ip_len 0)) [
    | none ↦ none
    | some ip_sum ↦
        elim (checksum
          (pseudo key (20 + length payload) (tcp_header key seq ack flags 0 ++ payload))) [
            | none ↦ none
            | some tcp_sum ↦ some (
                frame_header key ip_len ip_sum ++ (tcp_header key seq ack flags tcp_sum ++ payload))
          ]
  ]
]

-- `slice::chunks`, with fuel.
unfoldable pub chunks : ℕ → Bytes → List Bytes
chunks zero bytes = []
chunks (suc f) [] = []
chunks (suc f) (b ∷ bytes) =
    take max_tcp_payload (b ∷ bytes) ∷ chunks f (drop max_tcp_payload (b ∷ bytes))

unfoldable pub chunk_flags : List Bytes → ℕ
chunk_flags [] = flag_psh_ack + flag_fin
chunk_flags (c ∷ cs) = flag_psh_ack

-- The loop over the chunks.
unfoldable pub frames_of : ClientKey → (seq ack : ℕ) → List Bytes → Option (List Bytes)
unfolding build_tcp_frame chunk_flags
frames_of key seq ack [] = some []
frames_of key seq ack (c ∷ cs) = elim (build_tcp_frame key seq ack (chunk_flags cs) c) [
  | none ↦ none
  | some frame ↦ elim (frames_of key ((seq + length c) % 2 ^ 32) ack cs) [
    | none ↦ none
    | some frames ↦ some (frame ∷ frames)
  ]
]

unfoldable pub response_frames : ClientKey → (first_seq ack : ℕ) → Bytes → Option (List Bytes)
unfolding chunks frames_of
response_frames key first_seq ack response =
    frames_of key first_seq ack (chunks (length response) response)
