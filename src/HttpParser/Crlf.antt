-- ===== src/HttpParser/Crlf.antt =====
-- A request line that ends in CR LF.
use x_server.Prelude.{
  ℕ, suc, ◌+◌, ◌-◌, ◌*◌, ◌<◌, ◌≡◌, refl, ap, ◌∙◌, true, false, some, arith, length, get_or,
}
use x_server.Text.{Bytes, codes, starts_with}
use x_server.Http.Method.{parse_method}
use x_server.HttpParser.{
  version, header_name, header_end, complete, Parser, parse_version_byte, set_path, end_version,
  skip_line_end, parse_header_name_byte, parse_header_end, parse_turn, parse_loop, is_final,
  is_unknown, ended, enough, parsed, end_of, http_parser_parse, line,
}

-- A parser at the CR that ends the request line, which is in order; no header has been read.
pub record AtLineEnd (buffer : Bytes) (p : Parser) : Type 0 where
  pub state : p.state ≡ version
  pub cr : get_or buffer p.pos 0 ≡ b'\r'
  pub lf : get_or buffer (p.pos + 1) 0 ≡ b'\n'
  pub more : p.pos + 2 < length buffer
  pub short : p.pos < p.line_start + 16
  pub http : starts_with (line buffer p) (codes "HTTP/") ≡ true
  pub known : is_unknown (parse_method p.method_buffer) ≡ false
  pub no_length : p.has_content_length ≡ false
  pub not_chunked : p.chunked_transfer ≡ false

-- The parser behind the CR, then behind the LF, then at the end.
abbrev behind_cr : Bytes → Parser → Parser
behind_cr buffer p = parse_version_byte buffer b'\r' p

abbrev behind_lf : Bytes → Parser → Parser
behind_lf buffer p = parse_header_name_byte buffer b'\n' (behind_cr buffer p)

cr_turn :
    (buffer : Bytes) (p : Parser)
    → AtLineEnd buffer p
    → ((behind_cr buffer p).state ≡ header_name)
      × ((behind_cr buffer p).pos ≡ p.pos + 1)
      × ((behind_cr buffer p).headers ≡ p.headers)
      × ((behind_cr buffer p).has_content_length ≡ false)
      × ((behind_cr buffer p).chunked_transfer ≡ false)
unfolding parse_version_byte end_version set_path
cr_turn buffer p a = ground (arith, a.short, a.http, a.known, a.no_length, a.not_chunked)

lf_turn :
    (buffer : Bytes) (p : Parser)
    → p.state ≡ header_name
    → p.has_content_length ≡ false
    → p.chunked_transfer ≡ false
    → let q = parse_header_name_byte buffer b'\n' p in
      (q.state ≡ header_end)
      × (q.pos ≡ p.pos + 1)
      × (q.headers ≡ p.headers)
      × (parse_header_end q ≡ record q { state = complete })
unfolding parse_header_name_byte skip_line_end parse_header_end
lf_turn buffer p s h c = ground (arith, h, c)

-- One turn of the loop.
loop_turn :
    (n : ℕ) (buffer : Bytes) (p q : Parser)
    → p.pos < length buffer
    → is_final p.state ≡ false
    → parse_turn buffer (get_or buffer p.pos 0) p ≡ some q
    → parse_loop (suc n) buffer p ≡ parse_loop n buffer q
unfolding parse_loop
loop_turn n buffer p q h f e = ground (arith, f, e)

loop_stops :
    (n : ℕ) (buffer : Bytes) (p : Parser)
    → is_final p.state ≡ true
    → parse_loop (suc n) buffer p ≡ ended p
unfolding parse_loop
loop_stops n buffer p f = ground (arith, f)

-- A request line that ends in CR LF ends the request: the CR ends the version, and the LF behind it
-- counts as the empty line behind the headers. Whatever headers follow, the parser reports a complete
-- request with none of them, which ends behind the LF.
pub http_parser_parse-crlf :
    (buffer : Bytes) (p : Parser)
    → AtLineEnd buffer p
    → (q : Parser) × (http_parser_parse p buffer ≡ (q, parsed (p.pos + 2)))
      × (q.state ≡ complete)
      × (q.headers ≡ p.headers)
unfolding http_parser_parse parse_turn
http_parser_parse-crlf buffer p a =
    let p1 = behind_cr buffer p in
    let p2 = behind_lf buffer p in
    let p3 : Parser = record p2 { state = complete } in
    let (s1, at1, h1, l1, c1) = cr_turn buffer p a in
    let (s2, at2, h2, done) = lf_turn buffer p1 s1 l1 c1 in
    let m = 3 * length buffer - 1 in
    let fuel : enough buffer ≡ suc (suc (suc (suc m))) = omega (arith, a.more) in
    let at : p3.pos ≡ p.pos + 2 = omega (arith, at2, at1) in
    let t1 : parse_loop (suc (suc (suc (suc m)))) buffer p
        ≡ parse_loop (suc (suc (suc m))) buffer p1 =
      loop_turn _ buffer p p1 (omega (arith, a.more)) (ground (arith, a.state))
        (ground (arith, a.state, a.cr)) in
    let t2 : parse_loop (suc (suc (suc m))) buffer p1 ≡ parse_loop (suc (suc m)) buffer p2 =
      loop_turn _ buffer p1 p2 (omega (arith, a.more, at1)) (ground (arith, s1))
        (ground (arith, s1, at1, a.lf)) in
    let t3 : parse_loop (suc (suc m)) buffer p2 ≡ parse_loop (suc m) buffer p3 =
      loop_turn _ buffer p2 p3 (omega (arith, a.more, at1, at2)) (ground (arith, s2))
        (ground (arith, s2, done)) in
    let all : parse_loop (enough buffer) buffer p ≡ ended p3 =
      ap (λ n. parse_loop n buffer p) fuel ∙ (t1 ∙ (t2 ∙ (t3 ∙ loop_stops m buffer p3 refl))) in
    (p3, ap (end_of p) all ∙ ap (λ n. (p3, parsed n)) at, refl, h2 ∙ h1)
