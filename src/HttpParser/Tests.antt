-- ===== src/HttpParser/Tests.antt =====
-- Runs and instances of the theorems on the state machine.
use x_server.Prelude.{◌≤◌, ◌≡◌, refl, [], ◌∷◌, ◌++◌, arith, length}
use x_server.Text.{Bytes, codes, starts_with, strcmp_eq, strcasecmp_eq, tolower, split_at}
use x_server.Text.Scan.{strtol}
use x_server.Http.Method.{parse_method}
use x_server.HttpParser.{
  Parser, version, complete, Result, parsed, need_more, result_of, http_parser_create,
  is_http_token_char, is_http_header_value_char, parse_method_byte, parse_start_byte,
  parse_uri_byte, set_path, end_version, parse_version_byte, skip_line_end, parse_header_name_byte,
  strtoul, add_header, parse_header_value_byte, parse_header_end, parse_body, parse_turn,
  parse_loop, enough, ended, http_parser_parse,
}
use x_server.HttpParser.Batch.{
  Batch, batched, Fits, http_parser_parse_batch, http_parser_parse_batch-Fits,
}
use x_server.HttpParser.Ends.{Stops, http_parser_parse-ends}
use x_server.HttpParser.Bounds.{IsBounded, http_parser_parse-IsBounded}
use x_server.HttpParser.Crlf.{AtLineEnd, http_parser_parse-crlf}

-- To run the parser.
run : Bytes → Parser × Result
unfolding http_parser_create is_http_token_char is_http_header_value_char parse_method_byte
    parse_start_byte parse_uri_byte set_path end_version parse_version_byte skip_line_end
    parse_header_name_byte strtoul strtol add_header parse_header_value_byte parse_header_end
    parse_body parse_turn parse_loop http_parser_parse starts_with strcmp_eq strcasecmp_eq tolower
    split_at parse_method
run buffer = http_parser_parse http_parser_create buffer

abbrev crlf_text : Bytes
crlf_text =
    codes "GET /x HTTP/1.1" ++ b'\r' ∷ b'\n' ∷ codes "Host: a" ++ b'\r' ∷ b'\n' ∷ b'\r' ∷ b'\n' ∷ []

-- The header is not read.
crlf_test : ((run crlf_text).1 ≡ parsed 17) × ((run crlf_text).0.headers ≡ [])
unfolding run
crlf_test = (refl, refl)

-- With bare line feeds it is, and the request is complete only once a byte follows it.
abbrev lf_text : Bytes
lf_text = codes "GET /x HTTP/1.1" ++ b'\n' ∷ codes "Host: a" ++ b'\n' ∷ b'\n' ∷ []

lf_test :
    ((run lf_text).1 ≡ need_more)
    × ((run (lf_text ++ codes "G")).1 ≡ parsed 25)
    × (length (run lf_text).0.headers ≡ 1)
unfolding run
lf_test = (refl, refl, refl)

abbrev at_cr : Parser
at_cr = record http_parser_create {
  state = version;
  pos = 15;
  line_start = 7;
  method_buffer = codes "GET";
  uri_buffer = codes "/x";
}

at_cr-AtLineEnd : AtLineEnd crlf_text at_cr
unfolding run
at_cr-AtLineEnd = record {
  state = refl;
  cr = refl;
  lf = refl;
  more = omega arith;
  short = omega arith;
  http = refl;
  known = refl;
  no_length = refl;
  not_chunked = refl;
}

http_parser_parse-crlf_example :
    (q : Parser) × (http_parser_parse at_cr crlf_text ≡ (q, parsed 17))
    × (q.state ≡ complete)
    × (q.headers ≡ at_cr.headers)
http_parser_parse-crlf_example = http_parser_parse-crlf crlf_text at_cr at_cr-AtLineEnd

http_parser_parse-ends_example :
    (q : Parser) × (parse_loop (enough crlf_text) crlf_text at_cr ≡ ended q)
    × (http_parser_parse at_cr crlf_text ≡ (q, result_of q))
    × (q.pos ≤ length crlf_text)
    × (15 ≤ q.pos)
    × Stops crlf_text q
http_parser_parse-ends_example = http_parser_parse-ends crlf_text at_cr (omega arith)

http_parser_create-IsBounded : IsBounded http_parser_create
unfolding http_parser_create
http_parser_create-IsBounded = record {
  method = omega arith;
  uri = omega arith;
  version = omega arith;
  name = omega arith;
  value = omega arith;
  headers = omega arith;
}

http_parser_parse-IsBounded_example : IsBounded (http_parser_parse http_parser_create crlf_text).0
http_parser_parse-IsBounded_example =
    http_parser_parse-IsBounded crlf_text http_parser_create http_parser_create-IsBounded

http_parser_parse_batch-Fits_example :
    (s : Batch) × (http_parser_parse_batch lf_text 4 ≡ batched s) × Fits lf_text 4 s
http_parser_parse_batch-Fits_example = http_parser_parse_batch-Fits lf_text 4
