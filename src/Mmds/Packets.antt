-- ===== src/Mmds/Packets.antt =====
-- The frames that the metadata responder takes from the guest: `process_arp`, the checks of
-- `process_ipv4`, and the reading of bytes. An index out of range would panic, and is `none`.
use hephaestus.Base.{
  ℕ, ◌+◌, ◌-◌, ◌*◌, ◌/◌, ◌%◌, ◌^◌, Bool, false, ◌&&◌, ◌||◌, Option, none, some, unwrap_or,
  if◌then◌else◌, ◌==◌, ltb, leb, [], ◌∷◌, ◌++◌, length, take, drop, get_elem?,
}
use hephaestus.Base.Text.{Bytes, bytes_eq}
use hephaestus.Mmds.{ClientKey, link_local_addr, service_mac, be16}

infixl 5 ◌>>=◌
abbrev pub ◌>>=◌ : {A B : Type 0} → Option A → (A → Option B) → Option B
none >>= f = none
some a >>= f = f a

-- `frame[i]` and `frame[a..b]`.
unfoldable pub byte_at : Bytes → ℕ → Option ℕ
byte_at bytes i = get_elem? bytes i

unfoldable pub slice : Bytes → (from to : ℕ) → Option Bytes
slice bytes from to =
    if leb from to && leb to (length bytes) then some (take (to - from) (drop from bytes)) else none

unfoldable pub read_u16 : Bytes → ℕ → Option ℕ
unfolding byte_at
read_u16 bytes i = do a ← byte_at bytes i; b ← byte_at bytes (i + 1); some (a * 256 + b)

unfoldable pub read_u32 : Bytes → ℕ → Option ℕ
unfolding byte_at
read_u32 bytes i = do
  a ← byte_at bytes i
  b ← byte_at bytes (i + 1)
  c ← byte_at bytes (i + 2)
  d ← byte_at bytes (i + 3)
  some (a * 2 ^ 24 + b * 2 ^ 16 + c * 256 + d)

abbrev pub reads_as : Option ℕ → ℕ → Bool
reads_as none n = false
reads_as (some m) n = m == n

abbrev pub ethertype_ipv4 : ℕ
ethertype_ipv4 = 2048

abbrev pub ethertype_arp : ℕ
ethertype_arp = 2054

-- The reply to a request for the hardware address of the service.
unfoldable pub arp_reply : (mac ip : Bytes) → Bytes
arp_reply mac ip =
    mac
    ++ service_mac
    ++ be16 ethertype_arp
    ++ be16 1
    ++ be16 ethertype_ipv4
    ++ (6 ∷ 4 ∷ [])
    ++ be16 2
    ++ service_mac
    ++ link_local_addr
    ++ mac
    ++ ip

-- A frame that asks for nothing is passed over.
unfoldable pub arp_answer : Bytes → (hlen plen : ℕ) → (target mac ip : Bytes) → Option Bytes
unfolding read_u16 arp_reply
arp_answer frame hlen plen target mac ip =
    if reads_as (read_u16 frame 14) 1
      && reads_as (read_u16 frame 16) ethertype_ipv4
      && hlen == 6
      && plen == 4
      && reads_as (read_u16 frame 20) 1
      && bytes_eq target link_local_addr
    then some (arp_reply mac ip)
    else none

unfoldable pub process_arp : Bytes → Option (Option Bytes)
unfolding slice byte_at arp_answer
process_arp frame = if ltb (length frame) 42 then some none else (do
  hlen ← byte_at frame 18
  plen ← byte_at frame 19
  target ← slice frame 38 42
  mac ← slice frame 22 28
  ip ← slice frame 28 32
  some (arp_answer frame hlen plen target mac ip))

-- A TCP segment for the service.
pub record Segment : Type 0 where
  pub key : ClientKey
  pub seq : ℕ
  pub flags : ℕ
  pub payload : Bytes

-- The payload behind a TCP header of `header` bytes.
unfoldable pub payload_part :
    Bytes → (ip : Bytes) → (ihl total flags header : ℕ) → Option (Option Segment)
unfolding slice read_u16 read_u32
payload_part frame ip ihl total flags header =
    if ltb header 20 || ltb (14 + total) (14 + ihl + header) then some none else (do
      payload ← slice frame (14 + ihl + header) (14 + total)
      mac ← slice frame 6 12
      some (
          some (record {
            key = record { mac = mac; ip = ip; port = unwrap_or (read_u16 frame (14 + ihl)) 0 };
            seq = unwrap_or (read_u32 frame (14 + ihl + 4)) 0;
            flags = flags;
            payload = payload;
          })))

-- The TCP part of a packet whose IP header has `ihl` bytes and whose length is `total`.
unfoldable pub tcp_part : Bytes → (ip : Bytes) → (ihl total : ℕ) → Option (Option Segment)
unfolding read_u16 byte_at payload_part
tcp_part frame ip ihl total =
    if reads_as (read_u16 frame (14 + ihl + 2)) 80
    then (do
      offset ← byte_at frame (14 + ihl + 12)
      flags ← byte_at frame (14 + ihl + 13)
      payload_part frame ip ihl total flags (offset / 16 * 4))
    else some none

-- The part behind the checks of the lengths.
unfoldable pub address_part : Bytes → (ihl total : ℕ) → Option (Option Segment)
unfolding slice tcp_part
address_part frame ihl total = do
  ip ← slice frame 26 30
  target ← slice frame 30 34
  if bytes_eq target link_local_addr then tcp_part frame ip ihl total else some none

unfoldable pub ip_part : Bytes → (ihl total : ℕ) → Option (Option Segment)
unfolding address_part
ip_part frame ihl total =
    if ltb ihl 20 || ltb (length frame) (14 + ihl + 20)
    then some none
    else if ltb total (ihl + 20) || ltb (length frame) (14 + total)
    then some none
    else address_part frame ihl total

unfoldable pub parse_segment : Bytes → Option (Option Segment)
unfolding byte_at ip_part read_u16
parse_segment frame = if ltb (length frame) 54 then some none else (do
  version ← byte_at frame 14
  protocol ← byte_at frame 23
  if version / 16 == 4 && protocol == 6
      then ip_part frame (version % 16 * 4) (unwrap_or (read_u16 frame 16) 0)
      else some none)
