-- ===== src/Mmds/Limits.antt =====
-- The limits of the connections, and the operations that keep them.
use hephaestus.Base.{
  ℕ, ◌+◌, ◌^◌, ◌≤◌, ◌<◌, ◌≡◌, refl, arith, some, is_some, unwrap_or, if◌then◌else◌, [], ◌∷◌, length,
  length-append, All,
}
use hephaestus.Mmds.{ClientKey}
use hephaestus.Mmds.Segments.{IsKey}
use hephaestus.Mmds.Packets.{Segment}
use hephaestus.Mmds.Connections.{
  Connection, Connections, find_connection, put_connection, retain, take_payload, take_fin,
}

-- A request within its limit, and a response whose length is a `u32`.
abbrev pub Fits : Connection → Type 0
Fits c = (length c.request ≤ 65536) × (length (unwrap_or c.response []) < 2 ^ 32)

abbrev pub Entry : ClientKey × Connection → Type 0
Entry e = IsKey e.0 × Fits e.1

-- At most 1024 connections, each of which fits.
abbrev pub IsBounded : Connections → Type 0
IsBounded cs = (length cs ≤ 1024) × All Entry cs

pub retain-IsBounded :
    (now : ℕ) (cs : Connections)
    → All Entry cs
    → (length (retain now cs) ≤ length cs) × All Entry (retain now cs)
unfolding retain
retain-IsBounded now [] a = (omega arith, tt)
retain-IsBounded now ((k, c) ∷ cs) a = ground (arith, retain-IsBounded now cs)

pub put_connection-Entry :
    (key : ClientKey) (c : Connection) (cs : Connections)
    → IsKey key
    → Fits c
    → All Entry cs
    → All Entry (put_connection key c cs)
unfolding put_connection
put_connection-Entry key c [] k f a = ((k, f), tt)
put_connection-Entry key c ((l, d) ∷ cs) k f a = ground (arith, put_connection-Entry key c cs)

pub put_connection-length :
    (key : ClientKey) (c : Connection) (cs : Connections)
    → length (put_connection key c cs)
      ≡ (if is_some (find_connection key cs) then length cs else length cs + 1)
unfolding put_connection find_connection
put_connection-length key c [] = refl
put_connection-length key c ((l, d) ∷ cs) = ground (arith, put_connection-length key c cs)

pub find_connection-Fits :
    (key : ClientKey) (c : Connection) (cs : Connections)
    → All Entry cs
    → find_connection key cs ≡ some c
    → Fits c
unfolding find_connection
find_connection-Fits key c [] a e = cc
find_connection-Fits key c ((l, d) ∷ cs) a e = ground (arith, find_connection-Fits key c cs)

pub take_payload-Fits :
    (seg : Segment) (len : ℕ) (c d : Connection) → Fits c → take_payload seg len c ≡ some d → Fits d
unfolding take_payload
take_payload-Fits seg len c d f e = ground (arith, length-append c.request seg.payload)

pub take_fin-Fits : (seg : Segment) (len : ℕ) (c : Connection) → Fits c → Fits (take_fin seg len c)
unfolding take_fin
take_fin-Fits seg len c f = ground arith
