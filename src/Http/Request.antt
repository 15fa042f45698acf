-- ===== src/Http/Request.antt =====
-- src/http.c: parse_http_request_from_buffer. src/include/http.h: http_request_t.
pub mod Fuel
pub mod Accepted
use x_server.Prelude.{
  ℕ, zero, suc, ◌+◌, ◌-◌, ◌*◌, ◌^◌, Bool, true, false, not, ◌&&◌, ◌||◌, Option, none, some, List,
  [], ◌∷◌, ◌++◌, ◌==◌, ltb, leb, if◌then◌else◌, length, take, drop, get_or,
}
use x_server.Text.{Bytes, codes, c_string, strcmp_eq, starts_with, split_at, isalpha, isdigit}
use x_server.Text.Scan.{strtok, strtol, out_of_range, Number}
use x_server.Http.Method.{Method, unknown, parse_method}
use x_server.Http.Line.{max_line_length, read_line_from_buffer}
use x_server.Http.Path.{max_uri_length, normalize_path}
use x_server.Http.Header.{
  Header, Outcome, skip, stop, parse_header_line, get_header_value, all_bytes,
}

-- The request. A missing query or body is the NULL of the source; body_length is the body's length.
pub record Request : Type 0 where
  pub method : Method
  pub path : Bytes
  pub query_string : Option Bytes
  pub version : Bytes
  pub headers : List Header
  pub body : Option Bytes

-- The return values -1 and -2, and 0 with the request.
pub data Parsed : Type 0 where
  bad more : Parsed
  done : Request → Parsed

-- MAX_REQUEST_SIZE and MAX_BODY_SIZE
abbrev pub max_request_size : ℕ
max_request_size = 65536

abbrev pub max_body_size : ℕ
max_body_size = 10 * 1024 * 1024

pub record RequestLine : Type 0 where
  pub method_str : Bytes
  pub uri : Bytes
  pub version : Bytes

abbrev pub is_blank : ℕ → Bool
is_blank c = c == b' '

abbrev pub is_blank_or_end : ℕ → Bool
is_blank_or_end c = c == b' ' || (c == b'\r' || c == b'\n')

-- The three tokens of the request line.
unfoldable pub split_request_line : Bytes → Option RequestLine
split_request_line line = elim (strtok is_blank (c_string line)) [
  | none ↦ none
  | some (m, after_m) ↦ elim (strtok is_blank after_m) [
    | none ↦ none
    | some (u, after_u) ↦ elim (strtok is_blank_or_end after_u) [
      | none ↦ none
      | some (v, _) ↦ some (record { method_str = m; uri = u; version = v })
    ]
  ]
]

-- `HTTP/d.d`
unfoldable pub is_version_format : Bytes → Bool
is_version_format v =
    starts_with v (codes "HTTP/")
    && length v == 8
    && isdigit (get_or v 5 0)
    && get_or v 6 0 == b'.'
    && isdigit (get_or v 7 0)

-- No byte below a blank (or from 128 on, where `char` is negative), and no DEL.
unfoldable pub is_uri_byte : ℕ → Bool
is_uri_byte c = leb 0x20 c && leb c 0x7E

-- The checks on the request line, in their order; `false` is the return of -1.
unfoldable pub check_request_line : RequestLine → Bool
check_request_line r =
    if ltb 16 (length r.method_str)
    then false
    else if not (all_bytes isalpha r.method_str)
    then false
    else if not (is_version_format r.version)
    then false
    else if not (strcmp_eq r.version (codes "HTTP/1.0") || strcmp_eq r.version (codes "HTTP/1.1"))
    then false
    else if ltb max_uri_length (length r.uri)
    then false
    else all_bytes is_uri_byte r.uri

-- The path before the first `?`, and the query behind it.
abbrev pub split_uri : Bytes → Bytes × Option Bytes
split_uri uri = elim (split_at b'?' uri) [
  | none ↦ (uri, none)
  | some (path, query) ↦ (path, some query)
]

-- How the header loop ends: with the headers, `total_size` and the unread bytes; with a request that
-- is too large; or, in the model alone, without fuel.
pub data Section : Type 0 where
  too_large out_of_fuel : Section
  section : List Header → ℕ → Bytes → Section

-- One turn of the loop recurs with the header list and the unread bytes that it leaves.
unfoldable pub read_headers : ℕ → List Header → ℕ → Bytes → Section
read_headers zero hs total rest = out_of_fuel
read_headers (suc fuel) hs total rest = elim (read_line_from_buffer max_line_length rest) [
  | none ↦ section hs total rest
  | some (line, rest') ↦
      let total' = total + length line in
      let skipped = read_headers fuel hs total' rest' in
      if length line == 0
      then section hs total rest'
      else if ltb max_request_size total'
      then too_large
      else elim (parse_header_line hs line) [
        | skip ↦ skipped
        | stop ↦ section hs total' rest'
        | Outcome.take h ↦ read_headers fuel (hs ++ (h ∷ [])) total' rest'
      ]
]

-- The value of a Content-Length header; `none` is the return of -1 for its format, range or sign.
unfoldable pub content_length_value : Bytes → Option ℕ
content_length_value s =
    let n = strtol s in
    if out_of_range n
    then none
    else if n.count == 0
    then none
    else if ltb 0 (length n.rest)
    then none
    else if n.negative && ltb 0 n.magnitude
    then none
    else some n.magnitude

-- The body of `n` bytes at the head of the unread bytes.
unfoldable pub take_body : Request → ℕ → Bytes → ℕ → Parsed
take_body r total rest n =
    if ltb max_body_size n
    then bad
    else if ltb (max_request_size - total) n
    then bad
    else if n == 0
    then done r
    else if leb n (length rest)
    then done (record r { body = some (take n rest) })
    else more

unfoldable pub finish_body : Request → ℕ → Bytes → Option Bytes → Parsed
finish_body r total rest none = done r
finish_body r total rest (some s) = elim (content_length_value s) [
  | none ↦ bad
  | some n ↦ take_body r total rest n
]

-- What follows the headers. Any Transfer-Encoding is refused, `chunked` too.
unfoldable pub parse_body : Request → ℕ → Bytes → Parsed
parse_body r total rest = elim (get_header_value r.headers (codes "Transfer-Encoding")) [
  | some _ ↦ bad
  | none ↦ finish_body r total rest (get_header_value r.headers (codes "Content-Length"))
]

unfoldable pub parse_section : Request → Section → Parsed
parse_section r too_large = bad
parse_section r out_of_fuel = bad
parse_section r (section hs total rest) = parse_body (record r { headers = hs }) total rest

abbrev pub is_unknown : Method → Bool
is_unknown unknown = true
is_unknown _ = false

unfoldable pub parse_with_line : RequestLine → ℕ → Bytes → Parsed
parse_with_line r total rest =
    let method = parse_method r.method_str in
    let (uri, query) = split_uri r.uri in
    if not (check_request_line r)
    then bad
    else if is_unknown method
    then bad
    else elim (normalize_path uri) [
      | none ↦ bad
      | some path ↦
          parse_section
            (record {
              method = method;
              path = path;
              query_string = query;
              version = r.version;
              headers = [];
              body = none;
            })
            (read_headers (suc (length rest)) [] total rest)
    ]

unfoldable pub parse_http_request_from_buffer : Bytes → Parsed
parse_http_request_from_buffer buffer = elim (read_line_from_buffer max_line_length buffer) [
  | none ↦ bad
  | some (line, rest) ↦ if length line == 0 then bad else elim (split_request_line line) [
    | none ↦ bad
    | some r ↦ parse_with_line r (length line) rest
  ]
]
