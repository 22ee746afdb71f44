-- ===== src/Agent/Heads.antt =====
-- What the shim forwards of a client's request.
use hephaestus.Base.{
  ◌+◌, ◌≤◌, subst, ◌<◌, ◌≡◌, ◌≢◌, refl, true, Option, none, some, List, [], ◌∷◌, ◌++◌, length,
  length-append, All, arith,
}
use hephaestus.Base.Text.{Bytes}
use hephaestus.Mmds.Connections.{is_complete}
use hephaestus.Agent.Metadata.{
  Read, got, at_end, timed_out, broken, max_head, read_loop, or_default, read_http_request_head,
}

-- One read fills a buffer of 512 bytes at most.
abbrev pub Fits : Read → Type 0
Fits (got s) = length s ≤ 512
Fits at_end = Unit
Fits timed_out = Unit
Fits broken = Unit

read_loop-bound :
    (request : Bytes) (reads : List Read) (r : Bytes)
    → length request < max_head
    → All Fits reads
    → read_loop request reads ≡ some r
    → length r < max_head + 512
unfolding read_loop
read_loop-bound request [] r h f e = ground arith
read_loop-bound request (at_end ∷ reads) r h f e = ground arith
read_loop-bound request (timed_out ∷ reads) r h f e = ground arith
read_loop-bound request (broken ∷ reads) r h f e = ground arith
read_loop-bound request (got [] ∷ reads) r h f e = ground arith
read_loop-bound request (got (c ∷ s) ∷ reads) r h (g, f) e =
    ground (arith, length-append request (c ∷ s), read_loop-bound (request ++ c ∷ s) reads r)

or_default-bounds :
    (q : Bytes)
    → length q < max_head + 512
    → (or_default q ≢ []) × (length (or_default q) < max_head + 512)
unfolding or_default
or_default-bounds [] h = (λ e. cc, omega arith)
or_default-bounds (c ∷ q) h = (λ e. cc, h)

forwarded-bounds :
    (o : Option Bytes) (r : Bytes)
    → ((q : Bytes) → o ≡ some q → length q < max_head + 512)
    → elim o [ none ↦ none | some request ↦ some (or_default request) ] ≡ some r
    → (r ≢ []) × (length r < max_head + 512)
forwarded-bounds none r h e = absurd (ground arith)
forwarded-bounds (some q) r h e =
    let same : or_default q ≡ r = cc e in
    subst (λ x. (x ≢ []) × (length x < max_head + 512)) same (or_default-bounds q (h q refl))

whole_head :
    (s : Bytes) (later : List Read)
    → is_complete s ≡ true
    → read_http_request_head (got s ∷ later) ≡ some s
unfolding read_http_request_head read_loop or_default
whole_head [] later e = unfold is_complete in absurd (ground arith)
whole_head (c ∷ s) later e = ground arith

-- What is forwarded is never empty and shorter than the limit and one buffer, however a client
-- sends, where one read brings 512 bytes at most; and of a client that sends its head whole in one
-- read just that read is forwarded.
pub read_http_request_head-bounds :
    (reads : List Read)
    → All Fits reads
    → ((r : Bytes) → read_http_request_head reads ≡ some r → (r ≢ []) × (length r < max_head + 512))
      × ((s : Bytes) (later : List Read)
          → is_complete s ≡ true
          → read_http_request_head (got s ∷ later) ≡ some s)
unfolding read_http_request_head
read_http_request_head-bounds reads f = (
  λ r e.
      forwarded-bounds (read_loop [] reads) r (λ q g. read_loop-bound [] reads q (omega arith) f g)
        e,
  whole_head,
)
