-- ===== src/Mmds/Totality.antt =====
-- Computations that do not panic, and that the parsing of frames is one of them.
use hephaestus.Base.{
  ℕ, zero, suc, ◌+◌, ◌-◌, ◌*◌, ◌/◌, ◌%◌, ◌≤◌, ◌<◌, ◌≡◌, refl, sym, subst, arith, Bool, true, false,
  ◌&&◌, ◌||◌, ◌==◌, ltb, leb, Option, none, some, unwrap_or, if◌then◌else◌, [], ◌∷◌, ◌++◌, length,
  take, drop, length-take, length-drop,
}
use hephaestus.Base.Text.{Bytes, bytes_eq}
use hephaestus.Mmds.{ClientKey, build_tcp_frame, response_frames, link_local_addr}
use hephaestus.Mmds.Segments.{IsKey, build_tcp_frame-some, response_frames-Carries}
use hephaestus.Mmds.Connections.{one_frame}
use hephaestus.Mmds.Packets.{
  ◌>>=◌, byte_at, slice, read_u16, read_u32, reads_as, process_arp, arp_answer, Segment,
  payload_part, tcp_part, address_part, ip_part, parse_segment,
}

-- There is a result, and it has the property.
pub data Yields {A : Type 0} (P : A → Type 0) : Option A → Type 0 where
  yields : (a : A) → P a → Yields P (some a)

pub bind-Yields :
    {A B : Type 0} (Q : A → Type 0) (P : B → Type 0) (o : Option A) (f : A → Option B)
    → Yields Q o
    → ((a : A) → Q a → Yields P (f a))
    → Yields P (o >>= f)
bind-Yields Q P o f (yields a q) r = r a q

pub if-Yields :
    {A : Type 0} (P : A → Type 0) (b : Bool) (x y : Option A)
    → (b ≡ true → Yields P x)
    → (b ≡ false → Yields P y)
    → Yields P (if b then x else y)
if-Yields P true x y p q = p refl
if-Yields P false x y p q = q refl

abbrev pub Any : {A : Type 0} → A → Type 0
Any a = Unit {0}

byte_at-Yields : (bytes : Bytes) (i : ℕ) → i < length bytes → Yields Any (byte_at bytes i)
unfolding byte_at
byte_at-Yields [] i h = absurd (omega arith)
byte_at-Yields (b ∷ bytes) zero h = yields b tt
byte_at-Yields (b ∷ bytes) (suc i) h = byte_at-Yields bytes i (omega arith)

slice-Yields :
    (bytes : Bytes) (from to : ℕ)
    → from ≤ to
    → to ≤ length bytes
    → Yields (λ s. length s ≡ to - from) (slice bytes from to)
unfolding slice
slice-Yields bytes from to l u =
    if-Yields (λ s. length s ≡ to - from) (leb from to && leb to (length bytes))
      (some (take (to - from) (drop from bytes))) none
      (λ e.
        yields (take (to - from) (drop from bytes))
          (omega (arith, length-take (to - from) (drop from bytes), length-drop from bytes)))
      (λ e. ground (arith, e, l, u))

slice-Any :
    (bytes : Bytes) (from to : ℕ) → from ≤ to → to ≤ length bytes → Yields Any (slice bytes from to)
slice-Any bytes from to l u = go (slice-Yields bytes from to l u)
  where
    go : {o : Option Bytes} → Yields (λ s. length s ≡ to - from) o → Yields Any o
    go (yields s e) = yields s tt

-- What is known of a frame that is not passed over.
abbrev pub Parsed : Option Segment → Type 0
Parsed none = Unit {0}
Parsed (some seg) = IsKey seg.key × (length seg.payload ≤ 65536)

passed : Yields Parsed (some none)
passed = yields none tt

payload_part-Yields :
    (frame ip : Bytes) (ihl total flags header : ℕ)
    → length ip ≡ 4
    → length frame ≤ 65536
    → 20 ≤ ihl
    → ihl + 20 ≤ total
    → 14 + total ≤ length frame
    → Yields Parsed (payload_part frame ip ihl total flags header)
unfolding payload_part
payload_part-Yields frame ip ihl total flags header four l u t f =
    let segment : Bytes → Bytes → Option (Option Segment) = λ mac payload. some (
      some (record {
        key = record { mac = mac; ip = ip; port = unwrap_or (read_u16 frame (14 + ihl)) 0 };
        seq = unwrap_or (read_u32 frame (14 + ihl + 4)) 0;
        flags = flags;
        payload = payload;
      })) in
    if-Yields Parsed (ltb header 20 || ltb (14 + total) (14 + ihl + header)) (some none)
      (slice frame (14 + ihl + header) (14 + total) >>= λ payload.
        slice frame 6 12 >>= λ mac. segment mac payload)
      (λ _. passed)
      (λ fits.
        bind-Yields (λ s. length s ≡ 14 + total - (14 + ihl + header)) Parsed
          (slice frame (14 + ihl + header) (14 + total))
          (λ payload. slice frame 6 12 >>= λ mac. segment mac payload)
          (slice-Yields frame (14 + ihl + header) (14 + total) (ground (arith, fits)) f)
          (λ payload e.
            bind-Yields (λ s. length s ≡ 6) Parsed (slice frame 6 12) (λ mac. segment mac payload)
              (slice-Yields frame 6 12 (omega arith) (omega arith))
              (λ mac six. yields _ (record { six_bytes = six; four_bytes = four }, omega arith))))

tcp_part-Yields :
    (frame ip : Bytes) (ihl total : ℕ)
    → length ip ≡ 4
    → length frame ≤ 65536
    → 20 ≤ ihl
    → ihl + 20 ≤ total
    → 14 + total ≤ length frame
    → Yields Parsed (tcp_part frame ip ihl total)
unfolding tcp_part
tcp_part-Yields frame ip ihl total four l u t f =
    let last = λ (offset flags : ℕ). payload_part frame ip ihl total flags (offset / 16 * 4) in
    if-Yields Parsed (reads_as (read_u16 frame (14 + ihl + 2)) 80)
      (byte_at frame (14 + ihl + 12) >>= λ offset.
        byte_at frame (14 + ihl + 13) >>= λ flags. last offset flags)
      (some none)
      (λ _.
        bind-Yields Any Parsed (byte_at frame (14 + ihl + 12))
          (λ offset. byte_at frame (14 + ihl + 13) >>= λ flags. last offset flags)
          (byte_at-Yields frame (14 + ihl + 12) (omega arith))
          (λ offset _.
            bind-Yields Any Parsed (byte_at frame (14 + ihl + 13)) (λ flags. last offset flags)
              (byte_at-Yields frame (14 + ihl + 13) (omega arith))
              (λ flags _.
                payload_part-Yields frame ip ihl total flags (offset / 16 * 4) four l u t f)))
      (λ _. passed)

address_part-Yields :
    (frame : Bytes) (ihl total : ℕ)
    → length frame ≤ 65536
    → 20 ≤ ihl
    → ihl + 20 ≤ total
    → 14 + total ≤ length frame
    → Yields Parsed (address_part frame ihl total)
unfolding address_part
address_part-Yields frame ihl total l u t f =
    let last = λ (ip target : Bytes).
      if bytes_eq target link_local_addr then tcp_part frame ip ihl total else some none in
    bind-Yields (λ s. length s ≡ 4) Parsed (slice frame 26 30)
      (λ ip. slice frame 30 34 >>= λ target. last ip target)
      (slice-Yields frame 26 30 (omega arith) (omega arith))
      (λ ip four.
        bind-Yields Any Parsed (slice frame 30 34) (λ target. last ip target)
          (slice-Any frame 30 34 (omega arith) (omega arith))
          (λ target _.
            if-Yields Parsed (bytes_eq target link_local_addr) (tcp_part frame ip ihl total)
              (some none) (λ _. tcp_part-Yields frame ip ihl total four l u t f) (λ _. passed)))

ip_part-Yields :
    (frame : Bytes) (ihl total : ℕ) → length frame ≤ 65536 → Yields Parsed (ip_part frame ihl total)
unfolding ip_part
ip_part-Yields frame ihl total l =
    if-Yields Parsed (ltb ihl 20 || ltb (length frame) (14 + ihl + 20)) (some none)
      (if ltb total (ihl + 20) || ltb (length frame) (14 + total)
        then some none
        else address_part frame ihl total)
      (λ _. passed)
      (λ a.
        if-Yields Parsed (ltb total (ihl + 20) || ltb (length frame) (14 + total)) (some none)
          (address_part frame ihl total) (λ _. passed)
          (λ b.
            address_part-Yields frame ihl total l (ground (arith, a)) (ground (arith, b))
              (ground (arith, b))))

-- A frame that fits the buffer is parsed or passed over.
pub parse_segment-Yields :
    (frame : Bytes) → length frame ≤ 65536 → Yields Parsed (parse_segment frame)
unfolding parse_segment
parse_segment-Yields frame l =
    let last = λ (version protocol : ℕ).
      if version / 16 == 4 && protocol == 6
      then ip_part frame (version % 16 * 4) (unwrap_or (read_u16 frame 16) 0)
      else some none in
    if-Yields Parsed (ltb (length frame) 54) (some none)
      (byte_at frame 14 >>= λ version. byte_at frame 23 >>= λ protocol. last version protocol)
      (λ _. passed)
      (λ long.
        bind-Yields Any Parsed (byte_at frame 14)
          (λ version. byte_at frame 23 >>= λ protocol. last version protocol)
          (byte_at-Yields frame 14 (ground (arith, long)))
          (λ version _.
            bind-Yields Any Parsed (byte_at frame 23) (λ protocol. last version protocol)
              (byte_at-Yields frame 23 (ground (arith, long)))
              (λ protocol _.
                if-Yields Parsed (version / 16 == 4 && protocol == 6)
                  (ip_part frame (version % 16 * 4) (unwrap_or (read_u16 frame 16) 0)) (some none)
                  (λ _. ip_part-Yields frame (version % 16 * 4) (unwrap_or (read_u16 frame 16) 0) l)
                  (λ _. passed))))

pub process_arp-Yields : (frame : Bytes) → Yields Any (process_arp frame)
unfolding process_arp
process_arp-Yields frame =
    let e =
      λ (hlen plen : ℕ) (target mac ip : Bytes). some (arp_answer frame hlen plen target mac ip) in
    let d = λ (hlen plen : ℕ) (target mac : Bytes).
      slice frame 28 32 >>= λ ip. e hlen plen target mac ip in
    let c =
      λ (hlen plen : ℕ) (target : Bytes). slice frame 22 28 >>= λ mac. d hlen plen target mac in
    let b = λ (hlen plen : ℕ). slice frame 38 42 >>= λ target. c hlen plen target in
    let a = λ (hlen : ℕ). byte_at frame 19 >>= λ plen. b hlen plen in
    if-Yields Any (ltb (length frame) 42) (some none) (byte_at frame 18 >>= λ hlen. a hlen)
      (λ _. yields none tt)
      (λ long.
        let enough : 42 ≤ length frame = ground (arith, long) in
        bind-Yields Any Any (byte_at frame 18) a (byte_at-Yields frame 18 (omega arith)) (λ x _.
          bind-Yields Any Any (byte_at frame 19) (b x) (byte_at-Yields frame 19 (omega arith))
            (λ y _.
              bind-Yields Any Any (slice frame 38 42) (c x y)
                (slice-Any frame 38 42 (omega arith) (omega arith))
                (λ z _.
                  bind-Yields Any Any (slice frame 22 28) (d x y z)
                    (slice-Any frame 22 28 (omega arith) (omega arith))
                    (λ w _.
                      bind-Yields Any Any (slice frame 28 32) (e x y z w)
                        (slice-Any frame 28 32 (omega arith) (omega arith))
                        (λ v _. yields (arp_answer frame x y z w v) tt))))))

pub build_tcp_frame-Yields :
    (key : ClientKey) (seq ack flags : ℕ)
    → IsKey key
    → Yields Any (one_frame (build_tcp_frame key seq ack flags []))
build_tcp_frame-Yields key seq ack flags k =
    let (header, e, _) = build_tcp_frame-some key seq ack flags [] k (omega arith) in
    subst (λ o. Yields Any (one_frame o)) (sym e) (yields ((header ++ []) ∷ []) tt)

pub response_frames-Yields :
    (key : ClientKey) (seq ack : ℕ) (response : Bytes)
    → IsKey key
    → Yields Any (response_frames key seq ack response)
response_frames-Yields key seq ack response k =
    let (frames, e, _, _) = response_frames-Carries key seq ack response k in
    subst (Yields Any) (sym e) (yields frames tt)
