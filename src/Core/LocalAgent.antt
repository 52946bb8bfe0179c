-- ===== src/Core/LocalAgent.antt =====
-- The probe of a local instrumentation endpoint
-- (crates/fidelity-core/src/capability/local_agent.rs). The network is what it answers: whether the
-- calls on the socket succeed, and the events of the reads in their order.
pub mod Reading
use Prim.Native.String.{String}
use fidelity.Common.{
  ℕ, ◌+◌, ◌-◌, Bool, true, false, not, ◌&&◌, ◌||◌, Option, none, some, List, [], ◌∷◌, ◌++◌, any,
  length, take, is_some, ltb, leb, ◌==◌, if◌then◌else◌, ◌>>=◌,
}
use fidelity.Common.Text.{Text, literal}
use fidelity.Common.Chars.{Chars, same_chars, starts_with, trim, find, split_once_at, split_at}
use fidelity.Common.Utf8.{from_utf8}
use fidelity.Types.Evidence.{BoundedText}
use fidelity.Types.Evidence
use fidelity.Core.Facts
use fidelity.Core.Facts.{Observation, LocalAgentState}

abbrev pub frida_port : ℕ
frida_port = 27042

abbrev pub max_response_bytes : ℕ
max_response_bytes = 1024

-- The answer of RFC 6455 to the key of the request.
abbrev pub accept_key : Chars
accept_key = literal "s3pPLMBiTxaQ9kYGzzhZRbK+xOo="

abbrev pub header_end : Chars
header_end = 13 ∷ 10 ∷ 13 ∷ 10 ∷ []

-- The kinds of an input error that the probe tells apart, and the text of the error.
pub data ErrorKind : Type 0 where
  connection_refused timed_out would_block interrupted other_error : ErrorKind

pub record IoError : Type 0 where
  pub kind : ErrorKind
  pub message : Text

-- An address of version 4 by its first byte, or of version 6 as a number.
pub data Address : Type 0 where
  v4 : ℕ → Address
  v6 : ℕ → Address

-- `IpAddr::is_loopback`
unfoldable pub is_loopback : Address → Bool
is_loopback (v4 first) = first == 127
is_loopback (v6 number) = number == 1

-- What one read gives: bytes, of which none means that the other side closed, or an error.
pub data Event : Type 0 where
  received : List ℕ → Event
  failed : IoError → Event

-- What the network answers to the probe.
pub record Network : Type 0 where
  pub connect : Option IoError
  pub set_read_timeout : Option IoError
  pub set_write_timeout : Option IoError
  pub write_all : Option IoError
  pub reads : List Event

-- `Observation::failed`
observation_failed : Text → Observation LocalAgentState
observation_failed detail = Facts.failed (Evidence.new detail)

unfoldable pub connection_failure : IoError → Observation LocalAgentState
unfolding observation_failed
connection_failure error = elim (error.kind) [
  | connection_refused ↦ Facts.fact Facts.no_agent
  | timed_out ↦ observation_failed (literal "the loopback connection reached its deadline")
  | would_block ↦ observation_failed (literal "the loopback connection failed: " ++ error.message)
  | interrupted ↦ observation_failed (literal "the loopback connection failed: " ++ error.message)
  | other_error ↦ observation_failed (literal "the loopback connection failed: " ++ error.message)
]

-- `str::split` at a carriage return and a line feed, with the line that is being read.
unfoldable pub crlf_from : Chars → Chars → List Chars
crlf_from line [] = line ∷ []
crlf_from line (c ∷ []) = (line ++ c ∷ []) ∷ []
crlf_from line (c ∷ d ∷ text) =
    let ended = line ∷ crlf_from [] text in
    let longer = crlf_from (line ++ c ∷ []) (d ∷ text) in
    if c == 13 && d == 10 then ended else longer

-- `eq_ignore_ascii_case`
abbrev pub to_lower : ℕ → ℕ
to_lower c = if leb 65 c && leb c 90 then c + 32 else c

unfoldable pub same_ignoring_case : Chars → Chars → Bool
same_ignoring_case [] [] = true
same_ignoring_case [] (d ∷ ds) = false
same_ignoring_case (c ∷ cs) [] = false
same_ignoring_case (c ∷ cs) (d ∷ ds) = to_lower c == to_lower d && same_ignoring_case cs ds

-- The variables of the loop over the headers.
pub record Headers : Type 0 where
  pub upgrade : Bool
  pub connection : Bool
  pub accept : Bool

take_header : Option (Chars × Chars) → Headers → Headers
take_header none h = h
take_header (some halves) h =
    let name = halves.0 in
    let value = trim halves.1 in
    if same_ignoring_case name (literal "upgrade") && same_ignoring_case value (literal "websocket")
    then record h { upgrade = true }
    else if same_ignoring_case name (literal "connection")
        && any (λ token. same_ignoring_case (trim token) (literal "upgrade")) (split_at value b',')
    then record h { connection = true }
    else if same_ignoring_case name (literal "sec-websocket-accept") && same_chars value accept_key
    then record h { accept = true }
    else h

unfoldable pub take_headers : List Chars → Headers → Headers
unfolding take_header
take_headers [] h = h
take_headers (line ∷ lines) h = take_headers lines (take_header (split_once_at line (b':' ∷ [])) h)

all_seen : Headers → Bool
all_seen h = h.upgrade && h.connection && h.accept

-- The status line, and the headers behind it.
judge : List Chars → Bool
unfolding all_seen
judge [] = false
judge (status ∷ lines) =
    starts_with status (literal "HTTP/1.1 101 ")
    && all_seen
        (take_headers lines (record { upgrade = false; connection = false; accept = false }))

judge_text : Option (Chars × Chars) → Bool
unfolding judge
judge_text none = false
judge_text (some halves) = judge (crlf_from [] halves.0)

decoded : Option Chars → Bool
unfolding judge_text
decoded none = false
decoded (some text) = judge_text (find text header_end)

unfoldable pub is_frida_websocket_response : List ℕ → Bool
unfolding decoded
is_frida_websocket_response response = decoded (from_utf8 response)

-- How the loop over the reads ends. `unanswered` is a socket that has not answered yet.
pub data Read : Type 0 where
  response : List ℕ → Read
  refused : Text → Read
  unanswered : Read

-- What an error that is no interruption comes to.
read_error : IoError → Read → Read
read_error error retry = elim (error.kind) [
  | interrupted ↦ retry
  | timed_out ↦ refused (literal "the loopback protocol read reached its deadline")
  | would_block ↦ refused (literal "the loopback protocol read reached its deadline")
  | connection_refused ↦ refused (literal "the loopback protocol read failed: " ++ error.message)
  | other_error ↦ refused (literal "the loopback protocol read failed: " ++ error.message)
]

-- A read takes no more than the room that is left.
unfoldable pub read_loop : List Event → List ℕ → Read
unfolding read_error
read_loop [] so_far = if ltb (length so_far) max_response_bytes then unanswered else response so_far
read_loop (received [] ∷ events) so_far = response so_far
read_loop (received (b ∷ bytes) ∷ events) so_far =
    let longer = so_far ++ take (max_response_bytes - length so_far) (b ∷ bytes) in
    let more = read_loop events longer in
    if ltb (length so_far) max_response_bytes
    then if is_some (find longer header_end) then response longer else more
    else response so_far
read_loop (failed error ∷ events) so_far =
    let retry = read_loop events so_far in
    if ltb (length so_far) max_response_bytes then read_error error retry else response so_far

unfoldable pub verdict : Read → Option (Observation LocalAgentState)
unfolding observation_failed
verdict unanswered = none
verdict (refused detail) = some (observation_failed detail)
verdict (response bytes) = some (
    if is_frida_websocket_response bytes
    then Facts.fact (
        Facts.agent_present
          (Evidence.new (literal "a Frida-compatible WebSocket endpoint answered on loopback")))
    else Facts.fact Facts.no_agent)

or_failed :
    Option IoError
    → Text
    → Option (Observation LocalAgentState)
    → Option (Observation LocalAgentState)
unfolding observation_failed
or_failed none detail next = next
or_failed (some error) detail next = some (observation_failed (detail ++ error.message))

or_connection_failure :
    Option IoError → Option (Observation LocalAgentState) → Option (Observation LocalAgentState)
or_connection_failure none next = next
or_connection_failure (some error) next = some (connection_failure error)

-- `none` where the socket has not answered.
unfoldable pub probe_address : Network → Address → Option (Observation LocalAgentState)
unfolding or_failed or_connection_failure observation_failed
probe_address network address =
    if not (is_loopback address)
    then some (observation_failed (literal "the local-agent probe refused a non-loopback address"))
    else or_connection_failure network.connect (
        or_failed network.set_read_timeout (literal "the loopback read deadline failed: ") (
          or_failed network.set_write_timeout (literal "the loopback write deadline failed: ") (
            or_failed network.write_all (literal "the loopback protocol write failed: ")
              (verdict (read_loop network.reads [])))))

unfoldable pub local_agent_state : Network → Option (Observation LocalAgentState)
local_agent_state network = probe_address network (v4 127)
