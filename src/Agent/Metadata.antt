-- ===== src/Agent/Metadata.antt =====
-- The metadata parts of the agent: the shim that forwards link-local HTTP requests, and the checks
-- that test commands make.
use hephaestus.Base.{
  ℕ, ◌*◌, Bool, false, not, ◌||◌, Option, none, some, if◌then◌else◌, ◌==◌, List, [], ◌∷◌, ◌++◌, leb,
  length, any, max_u32,
}
use Prim.Native.String.{String}
use hephaestus.Base.Text.{Bytes, codes, bytes_eq, split_once}
use hephaestus.Base.Decimal.{parse}
use hephaestus.Base.Checked.{Result, ok, err, ◌>>=◌, ◌>>◌, guard, ok_or}
use hephaestus.Mmds.Documents.{contains}
use hephaestus.Mmds.Connections.{is_complete}
use hephaestus.Agent.{
  AgentError, no_response, no_match, missing_part, bad_port, echo_failed, echo_mismatch,
}

-- What the kernel and the host answer: the host's metadata port to a request, the link-local
-- address to a first and a second attempt, the payload and the success of an echo, and the
-- replacement of what is not UTF-8.
pub record Peers : Type 0 where
  pub mmds_vsock : (request : Bytes) → Option Bytes
  pub linklocal_first : Option Bytes
  pub linklocal_again : Option Bytes
  pub echo_payload : (port size : ℕ) → Option Bytes
  pub echo_sent : Bool
  pub lossy : Bytes → Bytes

abbrev is_text : String → Bytes → Bool
is_text s w = bytes_eq w (codes s)

-- `split_ascii_whitespace`: the words between blanks, without empty ones.
abbrev is_blank : ℕ → Bool
is_blank c = c == 32 || (c == 9 || (c == 10 || (c == 12 || c == 13)))

abbrev flush : Bytes → List Bytes → List Bytes
flush [] ws = ws
flush (c ∷ s) ws = (c ∷ s) ∷ ws

unfoldable pub words_from : Bytes → Bytes → List Bytes
words_from word [] = flush word []
words_from word (c ∷ s) =
    if is_blank c then flush word (words_from [] s) else words_from (word ++ c ∷ []) s

unfoldable pub is_off : Bytes → Bool
is_off w =
    is_text "hephaestus.mmds=0" w
    || is_text "hephaestus.mmds=off" w
    || is_text "hephaestus.mmds=false" w
    || is_text "hephaestus.mmds_shim=0" w
    || is_text "hephaestus.mmds_shim=off" w
    || is_text "hephaestus.mmds_shim=false" w

disabled_by : Option Bytes → Bool
disabled_by none = false
disabled_by (some v) = is_text "0" v || is_text "false" v || is_text "off" v || is_text "no" v

-- The variable HEPHAESTUS_MMDS_SHIM, and the kernel's command line, empty if it cannot be read.
unfoldable pub mmds_linklocal_enabled : Option Bytes → Bytes → Bool
unfolding disabled_by words_from is_off
mmds_linklocal_enabled variable cmdline =
    if disabled_by variable then false else not (any is_off (words_from [] cmdline))

-- What one `read` on a client gives: some bytes, its end, a time-out, or another error.
pub data Read : Type 0 where
  got : Bytes → Read
  at_end timed_out broken : Read

abbrev pub max_head : ℕ
max_head = 16 * 1024

abbrev pub default_request : Bytes
default_request = codes "GET / HTTP/1.1\r\nHost: 169.254.169.254\r\nConnection: close\r\n\r\n"

-- The reading loop. A list that ends is a client that has closed; so is a read of nothing.
unfoldable pub read_loop : Bytes → List Read → Option Bytes
read_loop request [] = some request
read_loop request (at_end ∷ reads) = some request
read_loop request (timed_out ∷ reads) = some request
read_loop request (broken ∷ reads) = none
read_loop request (got [] ∷ reads) = some request
read_loop request (got (c ∷ s) ∷ reads) =
    let more = request ++ c ∷ s in
    let rest = read_loop more reads in
    if is_complete more || leb max_head (length more) then some more else rest

unfoldable pub or_default : Bytes → Bytes
or_default [] = default_request
or_default (c ∷ s) = c ∷ s

unfoldable pub read_http_request_head : List Read → Option Bytes
read_http_request_head reads = elim (read_loop [] reads) [
  | none ↦ none
  | some request ↦ some (or_default request)
]

-- What is written back to a client, if the shim gets that far.
unfoldable pub handle_mmds_linklocal_client : Peers → List Read → Option Bytes
unfolding read_http_request_head
handle_mmds_linklocal_client p reads = elim (read_http_request_head reads) [
  | none ↦ none
  | some request ↦ p.mmds_vsock request
]

abbrev mmds_request : Bytes
mmds_request =
    codes "GET / HTTP/1.1\r\nHost: mmds\r\nAccept: application/json\r\nConnection: close\r\n\r\n"

unfoldable pub test_mmds_vsock : Peers → Bytes → Result AgentError (Unit {0})
test_mmds_vsock p needle = ok_or (p.mmds_vsock mmds_request) no_response >>= λ response.
    guard (contains needle (p.lossy response)) no_match

-- A second attempt is made where the first fails.
attempted : Option Bytes → Option Bytes → Option Bytes
attempted (some response) again = some response
attempted none again = again

unfoldable pub test_mmds_linklocal : Peers → Bytes → Result AgentError (Unit {0})
unfolding attempted
test_mmds_linklocal p needle =
    ok_or (attempted p.linklocal_first p.linklocal_again) no_response >>= λ response.
    guard (contains needle response) no_match

unfoldable pub test_vsock_echo : Peers → ℕ → Bytes → Result AgentError (Unit {0})
test_vsock_echo p port expected =
    ok_or (p.echo_payload port (length expected)) echo_failed >>= λ payload.
    guard (bytes_eq payload expected) echo_mismatch >> guard p.echo_sent echo_failed

-- `splitn(3, ' ')`: the needle up to the first blank, the port up to the second, and the token.
unfoldable pub suite_parts : Bytes → Result AgentError (Bytes × ℕ × Bytes)
suite_parts args = elim (split_once 32 args) [
  | none ↦ err missing_part
  | some (needle, rest) ↦ elim (split_once 32 rest) [
    | none ↦ elim (parse max_u32 rest) [ none ↦ err bad_port | some port ↦ err missing_part ]
    | some (digits, token) ↦ elim (parse max_u32 digits) [
      | none ↦ err bad_port
      | some port ↦ ok (needle, port, token)
    ]
  ]
]

unfoldable pub test_vsock_suite : Peers → Bytes → Result AgentError (Unit {0})
unfolding suite_parts test_mmds_vsock test_mmds_linklocal test_vsock_echo
test_vsock_suite p args = suite_parts args >>= λ (needle, port, token).
    test_mmds_vsock p needle >> (test_mmds_linklocal p needle >> test_vsock_echo p port token)
