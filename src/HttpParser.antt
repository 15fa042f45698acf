-- ===== src/HttpParser.antt =====
-- src/http_optimized.c: the parser that is a state machine. include/http_optimized.h: its states.
-- A call gets the whole buffer again, and the parser goes on at its position. malloc succeeds.
pub mod Ends
pub mod Crlf
pub mod Bounds
pub mod Batch
mod Tests
use x_server.Prelude.{
  ℕ, zero, suc, ◌+◌, ◌-◌, ◌*◌, ◌%◌, ◌^◌, Bool, true, false, not, ◌&&◌, ◌||◌, Option, none, some,
  List, [], ◌∷◌, ◌++◌, ◌==◌, ltb, leb, if◌then◌else◌, length, get_or, take, drop,
}
use x_server.Text.{Bytes, codes, strcasecmp_eq, starts_with, split_at}
use x_server.Text.Scan.{strtol, Number}
use x_server.Http.Method.{Method, unknown, parse_method}
use x_server.Http.Header.{Header}

-- http_parse_state_t
pub data State : Type 0 where
  start method uri version header_name header_value header_end body complete error : State

-- http_parser_t, and the fields of its request that it fills. A text of a field is the bytes before
-- its NUL.
pub record Parser : Type 0 where
  pub state : State
  pub pos : ℕ
  pub line_start : ℕ
  pub method_buffer : Bytes
  pub uri_buffer : Bytes
  pub version_buffer : Bytes
  pub header_name_buffer : Bytes
  pub header_value_buffer : Bytes
  pub request_method : Method
  pub path : Bytes
  pub query_string : Option Bytes
  pub headers : List Header
  pub request_body : Option Bytes
  pub has_content_length : Bool
  pub content_length : ℕ
  pub chunked_transfer : Bool

-- http_parser_create, and http_parser_reset on any parser. HTTP_GET is the 0 of memset.
unfoldable pub http_parser_create : Parser
http_parser_create = record {
  state = start;
  pos = 0;
  line_start = 0;
  method_buffer = [];
  uri_buffer = [];
  version_buffer = [];
  header_name_buffer = [];
  header_value_buffer = [];
  request_method = Method.get;
  path = [];
  query_string = none;
  headers = [];
  request_body = none;
  has_content_length = false;
  content_length = 0;
  chunked_transfer = false;
}

-- `char` is signed, so that a byte from 128 on is below 0x20.
unfoldable pub is_http_token_char : ℕ → Bool
is_http_token_char c = leb 0x21 c && leb c 0x7E

unfoldable pub is_http_header_value_char : ℕ → Bool
is_http_header_value_char c = leb 0x20 c && leb c 0x7E

abbrev pub fail : Parser → Parser
fail p = record p { state = error }

abbrev pub advance : Parser → Parser
advance p = record p { pos = p.pos + 1 }

-- The bytes from `line_start` to `pos`.
abbrev pub line : Bytes → Parser → Bytes
line buffer p = take (p.pos - p.line_start) (drop p.line_start buffer)

-- The next part begins behind the byte at `pos`.
abbrev pub next_part : State → Parser → Parser
next_part s p = record p { state = s; pos = p.pos + 1; line_start = p.pos + 1 }

unfoldable pub parse_method_byte : Bytes → ℕ → Parser → Parser
parse_method_byte buffer c p =
    if c == b' '
    then (if leb 32 (p.pos - p.line_start)
        then fail p
        else next_part uri (record p { method_buffer = line buffer p }))
    else if not (is_http_token_char c)
    then fail p
    else advance p

unfoldable pub parse_start_byte : Bytes → ℕ → Parser → Parser
parse_start_byte buffer c p =
    if c == b' ' || c == b'\t' || c == b'\r' || c == b'\n'
    then advance p
    else parse_method_byte buffer c (record p { state = method; line_start = p.pos })

unfoldable pub parse_uri_byte : Bytes → ℕ → Parser → Parser
parse_uri_byte buffer c p =
    if c == b' '
    then (if leb 2048 (p.pos - p.line_start)
        then fail p
        else next_part version (record p { uri_buffer = line buffer p }))
    else if not (is_http_header_value_char c)
    then fail p
    else advance p

-- The path before the first `?`, and the query behind it.
unfoldable pub set_path : Parser → Parser
set_path p = elim (split_at b'?' p.uri_buffer) [
  | none ↦ record p { path = p.uri_buffer }
  | some (path, query) ↦ record p { path = path; query_string = some query }
]

abbrev pub is_unknown : Method → Bool
is_unknown unknown = true
is_unknown _ = false

-- The end of the version, whose text has been copied.
unfoldable pub end_version : Parser → Parser
end_version p =
    let q = record p { request_method = parse_method p.method_buffer } in
    if not (starts_with p.version_buffer (codes "HTTP/"))
    then fail p
    else if is_unknown (parse_method p.method_buffer)
    then fail q
    else next_part header_name (set_path q)

unfoldable pub parse_version_byte : Bytes → ℕ → Parser → Parser
parse_version_byte buffer c p =
    if c == b'\r' || c == b'\n'
    then (if leb 16 (p.pos - p.line_start)
        then fail p
        else end_version (record p { version_buffer = line buffer p }))
    else if not (is_http_token_char c)
    then fail p
    else advance p

-- Past a line end: two bytes for CR LF, if both are in the buffer, else one.
unfoldable pub skip_line_end : Bytes → ℕ → Parser → Parser
skip_line_end buffer c p =
    if c == b'\r' && ltb (p.pos + 1) (length buffer) && get_or buffer (p.pos + 1) 0 == b'\n'
    then record p { pos = p.pos + 2 }
    else record p { pos = p.pos + 1 }

unfoldable pub parse_header_name_byte : Bytes → ℕ → Parser → Parser
parse_header_name_byte buffer c p =
    if c == b'\r' || c == b'\n'
    then record (skip_line_end buffer c p) { state = header_end }
    else if c == b':'
    then (if leb 256 (p.pos - p.line_start)
        then fail p
        else next_part header_value (record p { header_name_buffer = line buffer p }))
    else if not (is_http_token_char c)
    then fail p
    else advance p

-- strtoul (s, NULL, 10) on 64 bits.
unfoldable pub strtoul : Bytes → ℕ
strtoul s =
    let n = strtol s in
    if leb (2 ^ 64) n.magnitude
    then 2 ^ 64 - 1
    else if n.negative
    then (2 ^ 64 - n.magnitude) % 2 ^ 64
    else n.magnitude

-- A header is added while there is room, and read if it frames the body.
unfoldable pub add_header : Parser → Parser
add_header p =
    let name = p.header_name_buffer in
    let value = p.header_value_buffer in
    let q = record p { headers = p.headers ++ record { name = name; value = value } ∷ [] } in
    if leb 100 (length p.headers)
    then p
    else if strcasecmp_eq name (codes "Content-Length")
    then record q { has_content_length = true; content_length = strtoul value }
    else if strcasecmp_eq name (codes "Transfer-Encoding")
    then record q {
      chunked_transfer = if strcasecmp_eq value (codes "chunked") then true else q.chunked_transfer;
    }
    else q

unfoldable pub parse_header_value_byte : Bytes → ℕ → Parser → Parser
parse_header_value_byte buffer c p =
    let q =
      skip_line_end buffer c (add_header (record p { header_value_buffer = line buffer p })) in
    if c == b'\r' || c == b'\n'
    then (if leb 4096 (p.pos - p.line_start)
        then fail p
        else record q { state = header_name; line_start = q.pos })
    else if not (is_http_header_value_char c)
    then fail p
    else advance p

unfoldable pub parse_header_end : Parser → Parser
parse_header_end p =
    if p.has_content_length && ltb 0 p.content_length
    then record p { state = body }
    else if p.chunked_transfer
    then record p { state = body }
    else record p { state = complete }

-- `none` is the return of 0 from inside the loop: the body has not arrived.
unfoldable pub parse_body : Bytes → Parser → Option Parser
parse_body buffer p =
    let n = p.content_length in
    if not p.has_content_length
    then some (record p { state = complete })
    else if ltb (length buffer - p.pos) n
    then none
    else some (record p {
      state = complete;
      request_body = some (take n (drop p.pos buffer));
      pos = p.pos + n;
    })

-- One turn of the loop.
unfoldable pub parse_turn : Bytes → ℕ → Parser → Option Parser
parse_turn buffer c p = elim (p.state) [
  | start ↦ some (parse_start_byte buffer c p)
  | method ↦ some (parse_method_byte buffer c p)
  | uri ↦ some (parse_uri_byte buffer c p)
  | version ↦ some (parse_version_byte buffer c p)
  | header_name ↦ some (parse_header_name_byte buffer c p)
  | header_value ↦ some (parse_header_value_byte buffer c p)
  | header_end ↦ some (parse_header_end p)
  | body ↦ parse_body buffer p
  | _ ↦ some (fail p)
]

abbrev pub is_final : State → Bool
is_final complete = true
is_final error = true
is_final _ = false

-- How the loop ends; without fuel in the model alone.
pub data Ending : Type 0 where
  no_fuel : Ending
  ended : Parser → Ending

unfoldable pub parse_loop : ℕ → Bytes → Parser → Ending
parse_loop zero buffer p = no_fuel
parse_loop (suc n) buffer p =
    if leb (length buffer) p.pos || is_final p.state
    then ended p
    else elim (parse_turn buffer (get_or buffer p.pos 0) p) [
      | none ↦ ended p
      | some q ↦ parse_loop n buffer q
    ]

-- -1, 0 or the position.
pub data Result : Type 0 where
  failed need_more : Result
  parsed : ℕ → Result

abbrev pub result_of : Parser → Result
result_of p = elim (p.state) [ error ↦ failed | complete ↦ parsed p.pos | _ ↦ need_more ]

-- The turns of the loop are fewer than three for each byte and three more.
abbrev pub enough : Bytes → ℕ
enough buffer = 3 * length buffer + 3

abbrev pub end_of : Parser → Ending → Parser × Result
end_of p no_fuel = (p, need_more)
end_of p (ended q) = (q, result_of q)

unfoldable pub http_parser_parse : Parser → Bytes → Parser × Result
http_parser_parse p buffer = end_of p (parse_loop (enough buffer) buffer p)
