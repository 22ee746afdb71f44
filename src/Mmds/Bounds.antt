-- ===== src/Mmds/Bounds.antt =====
-- The responder never panics, and keeps its limits.
use hephaestus.Base.{
  ℕ, ◌^◌, ◌≤◌, ◌<◌, ◌≡◌, refl, arith, not, ◌&&◌, ltb, leb, Option, none, some, is_some,
  if◌then◌else◌, List, [], ◌∷◌, length,
}
use hephaestus.Base.Text.{Bytes}
use hephaestus.Mmds.{build_tcp_frame, response_frames}
use hephaestus.Mmds.Segments.{IsKey}
use hephaestus.Mmds.Packets.{
  ◌>>=◌, Segment, parse_segment, process_arp, read_u16, reads_as, ethertype_arp, ethertype_ipv4,
}
use hephaestus.Mmds.Connections.{
  Connection, Connections, find_connection, put_connection, retain, has_fin, has_syn, wrapping_add,
  len_u32, initial_sequence, is_complete, is_nil, take_payload, take_fin, one_frame, replay, reply,
  converse, open_connection, process_segment, process_ipv4, process,
}
use hephaestus.Mmds.Totality.{
  Yields, yields, Any, Parsed, bind-Yields, if-Yields, parse_segment-Yields, process_arp-Yields,
  build_tcp_frame-Yields, response_frames-Yields,
}
use hephaestus.Mmds.Limits.{
  Fits, IsBounded, retain-IsBounded, put_connection-Entry, put_connection-length,
  find_connection-Fits, take_payload-Fits, take_fin-Fits,
}

-- An answer with a connection that fits.
abbrev pub Answer : List Bytes × Connection → Type 0
Answer a = Fits a.1

abbrev pub After : List Bytes × Connections → Type 0
After a = IsBounded a.1

-- The frames of an answer do not matter here.
answer_with :
    {A : Type 0} (P : List Bytes × A → Type 0) (frames : Option (List Bytes)) (a : A)
    → ((fs : List Bytes) → P (fs, a))
    → Yields Any frames
    → Yields P (frames >>= λ fs. some (fs, a))
answer_with P frames a p y =
    bind-Yields Any P frames (λ fs. some (fs, a)) y (λ fs _. yields (fs, a) (p fs))

len_u32-Yields : (n : ℕ) → n < 2 ^ 32 → Yields Any (len_u32 n)
unfolding len_u32
len_u32-Yields n h =
    if-Yields Any (ltb n (2 ^ 32)) (some n) none (λ _. yields n tt)
      (λ e. absurd (ground (arith, e, h)))

replay-Yields :
    (seg : Segment) (c : Connection) (response : Bytes)
    → IsKey seg.key
    → length response < 2 ^ 32
    → Yields Any (replay seg c response)
unfolding replay
replay-Yields seg c response k h =
    let frame = λ (len : ℕ). one_frame (
      build_tcp_frame seg.key (wrapping_add (wrapping_add (wrapping_add c.server_first 1) len) 1)
        c.client_next 16 []) in
    let ended = len_u32 (length response) >>= frame in
    if-Yields Any (not (is_nil seg.payload))
      (response_frames seg.key (wrapping_add c.server_first 1) c.client_next response)
      (if has_fin seg.flags then ended else some [])
      (λ _. response_frames-Yields seg.key (wrapping_add c.server_first 1) c.client_next response k)
      (λ _.
        if-Yields Any (has_fin seg.flags) ended (some [])
          (λ _.
            bind-Yields Any Any (len_u32 (length response)) frame
              (len_u32-Yields (length response) h)
              (λ len _.
                build_tcp_frame-Yields seg.key
                  (wrapping_add (wrapping_add (wrapping_add c.server_first 1) len) 1) c.client_next
                  16 k))
          (λ _. yields [] tt))

module _ (render : Bytes → Bytes) (short : (r : Bytes) → length (render r) < 2 ^ 32) where
  reply-Answer :
      (seg : Segment) (c : Connection) → IsKey seg.key → Fits c → Yields Answer (reply render seg c)
  unfolding reply
  reply-Answer seg c k f = go c.response refl
    where
      answered : Connection
      answered = record c { response = some (render c.request) }

      first : Option (List Bytes)
      first =
          response_frames seg.key (wrapping_add c.server_first 1) c.client_next (render c.request)

      acked : Option (List Bytes)
      acked =
          one_frame (build_tcp_frame seg.key (wrapping_add c.server_first 1) c.client_next 16 [])

      go :
          (o : Option Bytes)
          → c.response ≡ o
          → Yields Answer (elim o as (λ _. Option (List Bytes × Connection)) [
            | some response ↦ replay seg c response >>= λ fs. some (fs, c)
            | none ↦
                if is_complete c.request
                then (first >>= λ fs. some (fs, answered))
                else (acked >>= λ fs. some (fs, c))
          ])
      go (some response) e =
          answer_with Answer (replay seg c response) c (λ _. f)
            (replay-Yields seg c response k (ground (arith, f.1, e)))
      go none e =
          if-Yields Answer (is_complete c.request) (first >>= λ fs. some (fs, answered))
            (acked >>= λ fs. some (fs, c))
            (λ _.
              answer_with Answer first answered (λ _. (f.0, short c.request))
                (response_frames-Yields seg.key (wrapping_add c.server_first 1) c.client_next
                  (render c.request) k))
            (λ _.
              answer_with Answer acked c (λ _. f)
                (build_tcp_frame-Yields seg.key (wrapping_add c.server_first 1) c.client_next 16 k))

  converse-Answer :
      (now : ℕ) (seg : Segment) (c : Connection)
      → IsKey seg.key
      → length seg.payload ≤ 65536
      → Fits c
      → Yields Answer (converse render now seg c)
  unfolding converse
  converse-Answer now seg c k p f =
      bind-Yields Any Answer (len_u32 (length seg.payload)) next
        (len_u32-Yields (length seg.payload) (omega arith))
        (λ len _. go len (take_payload seg len seen) refl)
    where
      seen : Connection
      seen = record c { last_seen = now }

      next : ℕ → Option (List Bytes × Connection)
      next len = elim (take_payload seg len seen) [
        | none ↦ some ([], seen)
        | some c' ↦ reply render seg (take_fin seg len c')
      ]

      go :
          (len : ℕ) (o : Option Connection)
          → take_payload seg len seen ≡ o
          → Yields Answer (elim o as (λ _. Option (List Bytes × Connection)) [
            | none ↦ some ([], seen)
            | some c' ↦ reply render seg (take_fin seg len c')
          ])
      go len none e = yields ([], seen) f
      go len (some d) e =
          reply-Answer seg (take_fin seg len d) k
            (take_fin-Fits seg len d (take_payload-Fits seg len seen d f e))

  open-After :
      (now nanos : ℕ) (seg : Segment) (cs : Connections)
      → IsKey seg.key
      → IsBounded cs
      → Yields After (open_connection render now nanos seg cs)
  unfolding open_connection
  open-After now nanos seg cs k b =
      let first = initial_sequence nanos seg.key in
      let fresh : Connection = record {
        client_next = wrapping_add seg.seq 1;
        server_first = first;
        request = [];
        response = none;
        last_seen = now;
      } in
      let after = put_connection seg.key fresh cs in
      let frames = one_frame (build_tcp_frame seg.key first (wrapping_add seg.seq 1) 18 []) in
      let full = not (is_some (find_connection seg.key cs)) && leb 1024 (length cs) in
      if-Yields After full (some ([], cs)) (frames >>= λ fs. some (fs, after))
        (λ _. yields ([], cs) b)
        (λ e.
          answer_with After frames after
            (λ _. (
              ground (arith, b.0, e, put_connection-length seg.key fresh cs),
              put_connection-Entry seg.key fresh cs k (omega arith, omega arith) b.1,
            ))
            (build_tcp_frame-Yields seg.key first (wrapping_add seg.seq 1) 18 k))

  process_segment-After :
      (now nanos : ℕ) (seg : Segment) (cs : Connections)
      → IsKey seg.key
      → length seg.payload ≤ 65536
      → IsBounded cs
      → Yields After (process_segment render now nanos seg cs)
  unfolding process_segment
  process_segment-After now nanos seg connections k p b =
      if-Yields After (has_syn seg.flags) (open_connection render now nanos seg cs)
        (known (find_connection seg.key cs)) (λ _. open-After now nanos seg cs k bounded)
        (λ _. go (find_connection seg.key cs) refl)
    where
      cs : Connections
      cs = retain now connections

      bounded : IsBounded cs
      bounded = let (l, a) = retain-IsBounded now connections b.1 in (omega (arith, l, b.0), a)

      kept : List Bytes × Connection → Option (List Bytes × Connections)
      kept answer = some (answer.0, put_connection seg.key answer.1 cs)

      known : Option Connection → Option (List Bytes × Connections)
      known none = some ([], cs)
      known (some c) = converse render now seg c >>= kept

      go : (o : Option Connection) → find_connection seg.key cs ≡ o → Yields After (known o)
      go none e = yields ([], cs) bounded
      go (some c) e =
          bind-Yields Answer After (converse render now seg c) kept
            (converse-Answer now seg c k p (find_connection-Fits seg.key c cs bounded.1 e))
            (λ a f.
              yields (a.0, put_connection seg.key a.1 cs)
                (
                  ground (arith, bounded.0, e, put_connection-length seg.key a.1 cs),
                  put_connection-Entry seg.key a.1 cs k f bounded.1,
                ))

  process_ipv4-After :
      (now nanos : ℕ) (frame : Bytes) (cs : Connections)
      → length frame ≤ 65536
      → IsBounded cs
      → Yields After (process_ipv4 render now nanos frame cs)
  unfolding process_ipv4
  process_ipv4-After now nanos frame cs l b =
      bind-Yields Parsed After (parse_segment frame) next (parse_segment-Yields frame l) go
    where
      next : Option Segment → Option (List Bytes × Connections)
      next none = some ([], cs)
      next (some seg) = process_segment render now nanos seg cs

      go : (o : Option Segment) → Parsed o → Yields After (next o)
      go none p = yields ([], cs) b
      go (some seg) p = process_segment-After now nanos seg cs p.0 p.1 b

  -- No frame of the guest, however it is made, makes the responder panic, if it is at most 65536 bytes
  -- long as the buffer is, and if no response that is rendered has 4 GiB. There are never more than 1024
  -- connections, and no request that is kept is longer than 64 KiB.
  pub process-After :
      (now nanos : ℕ) (frame : Bytes) (cs : Connections)
      → length frame ≤ 65536
      → IsBounded cs
      → Yields After (process render now nanos frame cs)
  unfolding process
  process-After now nanos frame cs l b =
      let answered = λ (o : Option Bytes).
        some (elim o as (λ _. List Bytes) [ none ↦ [] | some f ↦ f ∷ [] ], cs) in
      let arp = process_arp frame >>= answered in
      let ip =
        if reads_as (read_u16 frame 12) ethertype_ipv4
        then process_ipv4 render now nanos frame cs
        else some ([], cs) in
      let long = if reads_as (read_u16 frame 12) ethertype_arp then arp else ip in
      if-Yields After (ltb (length frame) 14) (some ([], cs)) long (λ _. yields ([], cs) b)
        (λ _.
          if-Yields After (reads_as (read_u16 frame 12) ethertype_arp) arp ip
            (λ _.
              bind-Yields Any After (process_arp frame) answered (process_arp-Yields frame)
                (λ o _. yields _ b))
            (λ _.
              if-Yields After (reads_as (read_u16 frame 12) ethertype_ipv4)
                (process_ipv4 render now nanos frame cs) (some ([], cs))
                (λ _. process_ipv4-After now nanos frame cs l b) (λ _. yields ([], cs) b)))
