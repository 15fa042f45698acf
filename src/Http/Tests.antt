-- ===== src/Http/Tests.antt =====
-- Runs and instances of the theorems on the request parser.
use x_server.Prelude.{
  ◌<◌, ◌≡◌, ◌⊎◌, ◌≢◌, refl, Option, none, some, List, [], ◌∷◌, ◌++◌, arith, length, All,
}
use x_server.Text.{
  Bytes, codes, c_string, contains, starts_with, split_at, strcmp_eq, strcasecmp_eq, tolower,
  isspace, isalpha, isdigit, is_below_space,
}
use x_server.Text.Scan.{strtok, strtol}
use x_server.Http.Method.{get, post, parse_method, http_method_str, unknown, parse_method_roundtrip}
use x_server.Http.Line.{read_line_from_buffer}
use x_server.Http.Line.Laws.{IsLineByte, read_line_roundtrip, read_line-progress}
use x_server.Http.Path.{normalize_path, normalize_decoded, decode, has_control, has_drive, squeeze}
use x_server.Http.Path.Canonical.{IsCanonical, ends_in, normalize_path-canonical}
use x_server.Http.Path.Words.{is_word, normalize_path_joins}
use x_server.Http.Header.{
  Header, Outcome, parse_header_line, check_header, trim_end, trim_start, trim_tail, all_bytes,
  is_name_byte, is_value_byte, is_listed, has_header, get_header_value,
}
use x_server.Http.Request.{
  Request, Parsed, done, out_of_fuel, read_headers, parse_http_request_from_buffer,
  split_request_line, parse_with_line, check_request_line, is_version_format, is_uri_byte,
  parse_section, parse_body, finish_body, content_length_value, take_body,
}
use x_server.Http.Request.Fuel.{read_headers_total}
use x_server.Http.Request.Accepted.{IsAccepted, parse_http_request-IsAccepted}

-- To run the path cleaner, and the whole parser.
run_path : Bytes → Option Bytes
unfolding normalize_path normalize_decoded decode c_string contains starts_with has_control
    has_drive squeeze
run_path p = normalize_path p

run_header : List Header → Bytes → Outcome
unfolding parse_header_line c_string check_header trim_end trim_start trim_tail all_bytes
    is_name_byte is_value_byte split_at isspace is_listed has_header strcasecmp_eq is_below_space
    tolower
run_header hs line = parse_header_line hs line

run_parser : Bytes → Parsed
unfolding run_path run_header parse_http_request_from_buffer split_request_line parse_with_line
    check_request_line is_version_format is_uri_byte parse_section parse_body finish_body
    content_length_value take_body read_headers read_line_from_buffer parse_method get_header_value
    strtok strtol strcmp_eq isalpha isdigit
run_parser b = parse_http_request_from_buffer b

clean_test : normalize_path (codes "/a//b/./c%20d") ≡ some (codes "/a/b/c d")
unfolding run_path
clean_test = refl

encoded_dot_test : normalize_path (codes "/%2E./x") ≡ none
unfolding run_path
encoded_dot_test = refl

-- Cleaning twice is not cleaning once.
double_slash_test :
    (normalize_path (codes "/.//x") ≡ some (codes "//x"))
    × (normalize_path (codes "//x") ≡ some (codes "/x"))
unfolding run_path
double_slash_test = (refl, refl)

-- An encoded NUL ends the path.
nul_test : normalize_path (codes "/a%00.html") ≡ some (codes "/a")
unfolding run_path
nul_test = refl

-- DEL passes.
del_test : normalize_path (codes "/%7f") ≡ some (b'/' ∷ 127 ∷ [])
unfolding run_path
del_test = refl

abbrev post_text : Bytes
post_text =
    codes "POST /api/v1/x?id=7 HTTP/1.1"
    ++ (b'\r' ∷ b'\n' ∷ codes "Host: a.b"
        ++ (b'\r' ∷ b'\n' ∷ codes "content-length: 5"
            ++ (b'\r' ∷ b'\n' ∷ b'\r' ∷ b'\n' ∷ codes "hello, world")))

abbrev post_request : Request
post_request = record {
  method = post;
  path = codes "/api/v1/x";
  query_string = some (codes "id=7");
  version = codes "HTTP/1.1";
  headers =
      record { name = codes "Host"; value = codes "a.b" }
      ∷ record { name = codes "content-length"; value = codes "5" }
      ∷ [];
  body = some (codes "hello");
}

post_test : parse_http_request_from_buffer post_text ≡ done post_request
unfolding run_parser
post_test = refl

-- The parser asks for more only where a body is short: a request that is cut inside its headers is
-- accepted as it stands.
cut_test :
    parse_http_request_from_buffer (codes "GET / HTTP/1.1")
    ≡ done (record {
      method = get;
      path = codes "/";
      query_string = none;
      version = codes "HTTP/1.1";
      headers = [];
      body = none;
    })
unfolding run_parser
cut_test = refl

parse_http_request_example : IsAccepted post_request
parse_http_request_example = parse_http_request-IsAccepted post_text {q = post_request} post_test

abbrev index_path : Bytes
index_path = codes "/js/main.js"

index_path-IsCanonical : IsCanonical index_path
unfolding run_path ends_in
index_path-IsCanonical = record {
  rooted = refl;
  no_escape = refl;
  no_controls = refl;
  no_double = refl;
  no_dot_slash = refl;
  no_dots_backslash = refl;
  no_end_slash = refl;
  no_end_dot = refl;
  fits = omega arith;
}

normalize_path-canonical_example : normalize_path index_path ≡ some index_path
normalize_path-canonical_example = normalize_path-canonical index_path index_path-IsCanonical

normalize_path_joins_example : normalize_path (codes "/a./b") ≡ some (codes "/ab")
unfolding is_word
normalize_path_joins_example = normalize_path_joins (codes "a") (codes "b") refl refl (omega arith)

abbrev host : Header
host = record { name = codes "Host"; value = codes "a.b" }

read_headers_total_example : read_headers 9 [] 14 (codes "Host: a") ≢ out_of_fuel
read_headers_total_example = read_headers_total 9 [] 14 (codes "Host: a") (omega arith)

read_line_roundtrip_example :
    read_line_from_buffer 8192 (codes "Host: a" ++ b'\r' ∷ b'\n' ∷ codes "x")
    ≡ some (codes "Host: a", codes "x")
read_line_roundtrip_example =
    read_line_roundtrip (codes "Host: a") (codes "x") 8192 (ground arith) (omega arith)

read_line-progress_example :
    (line : Bytes) × (rest' : Bytes) × (read_line_from_buffer 8192 (codes "ab")
      ≡ some (line, rest'))
    × All IsLineByte line
    × (length line < 8192)
    × (length rest' < 2)
read_line-progress_example = read_line-progress 8192 b'a' (codes "b") (omega arith)

parse_method_roundtrip_example :
    (parse_method (http_method_str get) ≡ get)
    × ((parse_method (codes "PUT") ≡ unknown)
        ⊎ (http_method_str (parse_method (codes "PUT")) ≡ codes "PUT"))
parse_method_roundtrip_example = parse_method_roundtrip get (codes "PUT")
