-- ===== src/Mmds/Connections.antt =====
-- The connections of the metadata responder: the rest of `process_ipv4`, and `process`.
use hephaestus.Base.{
  ℕ, ◌+◌, ◌-◌, ◌/◌, ◌%◌, ◌^◌, Bool, true, false, not, ◌&&◌, Option, none, some, is_some, unwrap_or,
  if◌then◌else◌, ◌==◌, ltb, leb, List, [], ◌∷◌, ◌++◌, length, bit_xor,
}
use hephaestus.Base.Text.{Bytes, bytes_eq, starts_with}
use hephaestus.Mmds.{ClientKey, build_tcp_frame, response_frames}
use hephaestus.Mmds.Packets.{
  ◌>>=◌, read_u16, read_u32, reads_as, ethertype_ipv4, ethertype_arp, process_arp, Segment,
  parse_segment,
}

-- `last_seen` is a time in milliseconds.
pub record Connection : Type 0 where
  pub client_next : ℕ
  pub server_first : ℕ
  pub request : Bytes
  pub response : Option Bytes
  pub last_seen : ℕ

abbrev pub Connections : Type 0
Connections = List (ClientKey × Connection)

abbrev pub key_eq : ClientKey → ClientKey → Bool
key_eq a b = bytes_eq a.mac b.mac && (bytes_eq a.ip b.ip && a.port == b.port)

unfoldable pub find_connection : ClientKey → Connections → Option Connection
find_connection key [] = none
find_connection key ((k, c) ∷ cs) = if key_eq k key then some c else find_connection key cs

-- `HashMap::insert`.
unfoldable pub put_connection : ClientKey → Connection → Connections → Connections
put_connection key c [] = (key, c) ∷ []
put_connection key c ((k, d) ∷ cs) =
    if key_eq k key then (k, c) ∷ cs else (k, d) ∷ put_connection key c cs

-- `HashMap::retain` of the connections of the last 30 seconds.
unfoldable pub retain : (now : ℕ) → Connections → Connections
retain now [] = []
retain now ((k, c) ∷ cs) =
    let rest = retain now cs in if ltb (now - c.last_seen) 30000 then (k, c) ∷ rest else rest

abbrev pub has_fin : ℕ → Bool
has_fin flags = flags % 2 == 1

abbrev pub has_syn : ℕ → Bool
has_syn flags = flags / 2 % 2 == 1

-- `wrapping_add` of 32 bits.
abbrev pub wrapping_add : ℕ → ℕ → ℕ
wrapping_add a b = (a + b) % 2 ^ 32

unfoldable pub len_u32 : ℕ → Option ℕ
len_u32 n = if ltb n (2 ^ 32) then some n else none

unfoldable pub initial_sequence : (nanos : ℕ) → ClientKey → ℕ
unfolding read_u32
initial_sequence nanos key = bit_xor (bit_xor nanos (unwrap_or (read_u32 key.ip 0) 0)) key.port

abbrev pub max_connections : ℕ
max_connections = 1024

abbrev pub max_request : ℕ
max_request = 65536

-- `windows(4).any(..)`.
unfoldable pub is_complete : Bytes → Bool
is_complete [] = false
is_complete (c ∷ s) =
    let rest = is_complete s in if starts_with (13 ∷ 10 ∷ 13 ∷ 10 ∷ []) (c ∷ s) then true else rest

abbrev pub is_nil : Bytes → Bool
is_nil [] = true
is_nil (_ ∷ _) = false

-- A payload that comes in its turn is kept; one that would make the request too long is `none`.
unfoldable pub take_payload : Segment → (len : ℕ) → Connection → Option Connection
take_payload seg len c =
    if not (is_nil seg.payload) && seg.seq == c.client_next
    then (if ltb max_request (length c.request + length seg.payload)
        then none
        else some (record c {
          request = c.request ++ seg.payload;
          client_next = wrapping_add c.client_next len;
        }))
    else some c

unfoldable pub take_fin : Segment → (len : ℕ) → Connection → Connection
take_fin seg len c =
    if has_fin seg.flags && wrapping_add seg.seq len == c.client_next
    then record c { client_next = wrapping_add c.client_next 1 }
    else c

abbrev pub one_frame : Option Bytes → Option (List Bytes)
one_frame none = none
one_frame (some f) = some (f ∷ [])

-- What is sent again on a connection that has been answered.
unfoldable pub replay : Segment → Connection → Bytes → Option (List Bytes)
unfolding response_frames build_tcp_frame len_u32
replay seg c response =
    if not (is_nil seg.payload)
    then response_frames seg.key (wrapping_add c.server_first 1) c.client_next response
    else if has_fin seg.flags
    then (do
      len ← len_u32 (length response)
      one_frame (
          build_tcp_frame seg.key
            (wrapping_add (wrapping_add (wrapping_add c.server_first 1) len) 1) c.client_next 16
            []))
    else some []

-- `render` makes the response of the document at hand.
module _ (render : Bytes → Bytes) where
  unfoldable pub reply : Segment → Connection → Option (List Bytes × Connection)
  unfolding replay is_complete
  reply seg c = elim c.response [
    | some response ↦ (do frames ← replay seg c response; some (frames, c))
    | none ↦
        if is_complete c.request
        then (do
          frames ←
              response_frames seg.key (wrapping_add c.server_first 1) c.client_next
                (render c.request)
          some (frames, record c { response = some (render c.request) }))
        else (do
          frames ←
              one_frame
                (build_tcp_frame seg.key (wrapping_add c.server_first 1) c.client_next 16 [])
          some (frames, c))
  ]

  unfoldable pub converse : (now : ℕ) → Segment → Connection → Option (List Bytes × Connection)
  unfolding take_payload take_fin reply len_u32
  converse now seg c = do
    len ← len_u32 (length seg.payload)
    let seen = record c { last_seen = now }
    elim (take_payload seg len seen) [
      | none ↦ some ([], seen)
      | some c' ↦ reply seg (take_fin seg len c')
    ]

  unfoldable pub open_connection :
      (now nanos : ℕ) → Segment → Connections → Option (List Bytes × Connections)
  unfolding find_connection put_connection initial_sequence build_tcp_frame
  open_connection now nanos seg cs =
      if not (is_some (find_connection seg.key cs)) && leb max_connections (length cs)
      then some ([], cs)
      else (do
        let first = initial_sequence nanos seg.key
        frames ← one_frame (build_tcp_frame seg.key first (wrapping_add seg.seq 1) 18 [])
        some (
          frames,
          put_connection seg.key
              (record {
                client_next = wrapping_add seg.seq 1;
                server_first = first;
                request = [];
                response = none;
                last_seen = now;
              })
              cs,
        ))

  unfoldable pub process_segment :
      (now nanos : ℕ) → Segment → Connections → Option (List Bytes × Connections)
  unfolding retain open_connection converse find_connection put_connection
  process_segment now nanos seg connections =
      let cs = retain now connections in
      if has_syn seg.flags
      then open_connection now nanos seg cs
      else elim (find_connection seg.key cs) [
        | none ↦ some ([], cs)
        | some c ↦ (do
          answer ← converse now seg c
          some (answer.0, put_connection seg.key answer.1 cs))
      ]

  unfoldable pub process_ipv4 :
      (now nanos : ℕ) → Bytes → Connections → Option (List Bytes × Connections)
  unfolding parse_segment process_segment
  process_ipv4 now nanos frame cs = do
    parsed ← parse_segment frame
    elim parsed [ none ↦ some ([], cs) | some seg ↦ process_segment now nanos seg cs ]

  unfoldable pub process : (now nanos : ℕ) → Bytes → Connections → Option (List Bytes × Connections)
  unfolding process_ipv4 process_arp read_u16
  process now nanos frame cs =
      if ltb (length frame) 14
      then some ([], cs)
      else if reads_as (read_u16 frame 12) ethertype_arp
      then (do answer ← process_arp frame; some (elim answer [ none ↦ [] | some f ↦ f ∷ [] ], cs))
      else if reads_as (read_u16 frame 12) ethertype_ipv4
      then process_ipv4 now nanos frame cs
      else some ([], cs)
