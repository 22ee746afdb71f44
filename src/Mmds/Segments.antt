-- ===== src/Mmds/Segments.antt =====
-- The frames of a response: they are always built, and together they carry it.
use hephaestus.Base.{
  ℕ, zero, suc, ◌+◌, ◌-◌, ◌*◌, ◌%◌, ◌^◌, ◌≤◌, ◌<◌, ◌≡◌, refl, Option, some, List, [], ◌∷◌, ◌++◌,
  All, length, drop, arith, length-append, take-append-drop, drop_exact, length-take, length-drop,
  append_assoc,
}
use hephaestus.Base.Text.{Bytes}
use hephaestus.Mmds.{
  ClientKey, sum_words, fold, complement, checksum, len_u16, ip_header, tcp_header, pseudo,
  frame_header, build_tcp_frame, chunks, frames_of, response_frames, max_tcp_payload, chunk_flags,
}

sum_words-lt : (s : ℕ) (bytes : Bytes) → s < 2 ^ 32 → sum_words s bytes < 2 ^ 32
unfolding sum_words
sum_words-lt s [] h = h
sum_words-lt s (a ∷ []) h = omega arith
sum_words-lt s (a ∷ b ∷ rest) h = sum_words-lt ((s + (a * 256 + b)) % 2 ^ 32) rest (omega arith)

-- Two rounds fold the carries of any sum of 32 bits.
fold-lt : (s : ℕ) → s < 2 ^ 32 → fold 2 s < 2 ^ 16
unfolding fold
fold-lt s h = ground arith

-- Any bytes have a checksum, a number of 16 bits: folding the carries never leaves a sum that is
-- too large for the conversion.
pub checksum-lt : (bytes : Bytes) → (c : ℕ) × (checksum bytes ≡ some c) × (c < 2 ^ 16)
unfolding checksum
checksum-lt bytes =
    let small = fold-lt (sum_words 0 bytes) (sum_words-lt 0 bytes (omega arith)) in
    (2 ^ 16 - 1 - fold 2 (sum_words 0 bytes), unfold complement in ground arith, omega arith)

-- The arrays of the source: six bytes and four.
pub record IsKey (key : ClientKey) : Type 0 where
  pub six_bytes : length key.mac ≡ 6
  pub four_bytes : length key.ip ≡ 4

abbrev pub header_length : ℕ
header_length = 54

frame_header-length :
    (key : ClientKey) (len sum : ℕ) → IsKey key → length (frame_header key len sum) ≡ 34
unfolding frame_header ip_header
frame_header-length key len sum k =
    rw (length-append key.mac _, k.six_bytes) (omega (arith, k.four_bytes))

headers-length :
    (key : ClientKey) (len sum seq ack flags tcp_sum : ℕ)
    → IsKey key
    → length (frame_header key len sum ++ tcp_header key seq ack flags tcp_sum) ≡ 54
unfolding tcp_header
headers-length key len sum seq ack flags tcp_sum k =
    rw (length-append (frame_header key len sum) _, frame_header-length key len sum k) refl

-- A payload of less than 65496 bytes, so that the length of the packet has 16 bits, gives a frame:
-- 54 bytes of headers, then the payload.
pub build_tcp_frame-some :
    (key : ClientKey) (seq ack flags : ℕ) (payload : Bytes)
    → IsKey key
    → length payload < 65496
    → (header : Bytes) × (build_tcp_frame key seq ack flags payload ≡ some (header ++ payload))
      × (length header ≡ 54)
unfolding build_tcp_frame len_u16
build_tcp_frame-some key seq ack flags payload k h =
    let (a, p, _) = checksum-lt (ip_header key (40 + length payload) 0) in
    let (b, q, _) =
      checksum-lt (pseudo key (20 + length payload) (tcp_header key seq ack flags 0 ++ payload)) in
    (
      frame_header key (40 + length payload) a ++ tcp_header key seq ack flags b,
      ground (
        arith,
        append_assoc (frame_header key (40 + length payload) a) (tcp_header key seq ack flags b)
            payload,
      ),
      headers-length key (40 + length payload) a seq ack flags b k,
    )

-- `concat`.
pub joined : List Bytes → Bytes
joined [] = []
joined (f ∷ fs) = f ++ joined fs

-- What the frames carry after their headers, put together.
abbrev pub carried : List Bytes → Bytes
carried [] = []
carried (f ∷ fs) = drop 54 f ++ carried fs

rest-length :
    (f b : ℕ) (bytes : Bytes)
    → length (b ∷ bytes) ≤ suc f
    → length (drop max_tcp_payload (b ∷ bytes)) ≤ f
unfolding max_tcp_payload
rest-length f b bytes h = omega (arith, length-drop max_tcp_payload (b ∷ bytes))

chunks-joined :
    (fuel : ℕ) (bytes : Bytes) → length bytes ≤ fuel → joined (chunks fuel bytes) ≡ bytes
unfolding chunks joined
chunks-joined zero [] h = refl
chunks-joined zero (b ∷ bytes) h = absurd (omega arith)
chunks-joined (suc f) [] h = refl
chunks-joined (suc f) (b ∷ bytes) h =
    rw (chunks-joined f (drop max_tcp_payload (b ∷ bytes)) (rest-length f b bytes h))
      (take-append-drop max_tcp_payload (b ∷ bytes))

chunks-short : (fuel : ℕ) (bytes : Bytes) → All (λ c. length c ≤ 1200) (chunks fuel bytes)
unfolding chunks max_tcp_payload
chunks-short zero bytes = tt
chunks-short (suc f) [] = tt
chunks-short (suc f) (b ∷ bytes) = (
  omega (arith, length-take max_tcp_payload (b ∷ bytes)),
  chunks-short f (drop max_tcp_payload (b ∷ bytes)),
)

-- The frames of a list of short payloads.
abbrev pub Carries : Option (List Bytes) → Bytes → Type 0
Carries frames bytes =
    (fs : List Bytes) × (frames ≡ some fs) × (carried fs ≡ bytes) × All (λ f. length f ≤ 1254) fs

drop-header : (header c : Bytes) → length header ≡ 54 → drop 54 (header ++ c) ≡ c
drop-header header c len = rw (← len) (drop_exact header c)

frames_of-Carries :
    (key : ClientKey) (seq ack : ℕ) (cs : List Bytes)
    → IsKey key
    → All (λ c. length c ≤ 1200) cs
    → Carries (frames_of key seq ack cs) (joined cs)
unfolding frames_of joined
frames_of-Carries key seq ack [] k short = ([], refl, refl, tt)
frames_of-Carries key seq ack (c ∷ cs) k short =
    let (header, e, len) =
      build_tcp_frame-some key seq ack (chunk_flags cs) c k (omega (arith, short.0)) in
    let (fs, e', carry, small) =
      frames_of-Carries key ((seq + length c) % 2 ^ 32) ack cs k short.1 in
    (
      (header ++ c) ∷ fs,
      ground (arith, e, e'),
      rw (drop-header header c len, carry) refl,
      (omega (arith, length-append header c, len, short.0), small),
    )

-- A response is always sent: no frame's length and no checksum panics, whatever the response. What the
-- frames carry after their headers of 54 bytes is the response, in order, and no frame is longer than
-- its header with one full payload.
pub response_frames-Carries :
    (key : ClientKey) (first_seq ack : ℕ) (response : Bytes)
    → IsKey key
    → Carries (response_frames key first_seq ack response) response
unfolding response_frames
response_frames-Carries key first_seq ack response k =
    rw (chunks-joined (length response) response (omega arith)) at (
      frames_of-Carries key first_seq ack (chunks (length response) response) k
        (chunks-short (length response) response))
