-- ===== src/HttpParser/Bounds.antt =====
-- The buffers of the state machine do not overflow.
use x_server.Prelude.{
  ℕ, zero, suc, ◌-◌, ◌≤◌, ◌<◌, ◌≡◌, ◌⊎◌, refl, sym, ap, subst, inl, inr, false, ◌||◌, Bool-cases,
  Option-cases, some, [], ◌∷◌, leb, arith, length, length-append, length-take_bound, get_or, drop,
}
use x_server.Text.{Bytes}
use x_server.HttpParser.{
  Parser, parse_start_byte, parse_method_byte, parse_uri_byte, parse_version_byte, set_path,
  end_version, skip_line_end, parse_header_name_byte, add_header, parse_header_value_byte,
  parse_header_end, parse_body, parse_turn, parse_loop, is_final, Ending, no_fuel, ended, enough,
  end_of, http_parser_parse, line,
}
use x_server.HttpParser.Ends.{State-cases}

-- Each text fits its array with the NUL, and the headers fit theirs.
pub record IsBounded (p : Parser) : Type 0 where
  pub method : length p.method_buffer < 32
  pub uri : length p.uri_buffer < 2048
  pub version : length p.version_buffer < 16
  pub name : length p.header_name_buffer < 256
  pub value : length p.header_value_buffer < 4096
  pub headers : length p.headers ≤ 100

line_bound : (buffer : Bytes) (p : Parser) → length (line buffer p) ≤ p.pos - p.line_start
line_bound buffer p = length-take_bound (p.pos - p.line_start) (drop p.line_start buffer)

start-IsBounded :
    (buffer : Bytes) (c : ℕ) (p : Parser) → IsBounded p → IsBounded (parse_start_byte buffer c p)
unfolding parse_start_byte parse_method_byte
start-IsBounded buffer c p v =
    ground (arith, v, line_bound buffer (record p { line_start = p.pos }))

method-IsBounded :
    (buffer : Bytes) (c : ℕ) (p : Parser) → IsBounded p → IsBounded (parse_method_byte buffer c p)
unfolding parse_method_byte
method-IsBounded buffer c p v = ground (arith, v, line_bound buffer p)

uri-IsBounded :
    (buffer : Bytes) (c : ℕ) (p : Parser) → IsBounded p → IsBounded (parse_uri_byte buffer c p)
unfolding parse_uri_byte
uri-IsBounded buffer c p v = ground (arith, v, line_bound buffer p)

version-IsBounded :
    (buffer : Bytes) (c : ℕ) (p : Parser) → IsBounded p → IsBounded (parse_version_byte buffer c p)
unfolding parse_version_byte end_version set_path
version-IsBounded buffer c p v = ground (arith, v, line_bound buffer p)

header_name-IsBounded :
    (buffer : Bytes) (c : ℕ) (p : Parser)
    → IsBounded p
    → IsBounded (parse_header_name_byte buffer c p)
unfolding parse_header_name_byte skip_line_end
header_name-IsBounded buffer c p v = ground (arith, v, line_bound buffer p)

header_value-IsBounded :
    (buffer : Bytes) (c : ℕ) (p : Parser)
    → IsBounded p
    → IsBounded (parse_header_value_byte buffer c p)
unfolding parse_header_value_byte skip_line_end add_header
header_value-IsBounded buffer c p v = ground (
  arith,
  v,
  line_bound buffer p,
  length-append p.headers (record { name = p.header_name_buffer; value = line buffer p } ∷ []),
)

header_end-IsBounded : (p : Parser) → IsBounded p → IsBounded (parse_header_end p)
unfolding parse_header_end
header_end-IsBounded p v = ground (arith, v)

body-IsBounded :
    (buffer : Bytes) (p : Parser) {q : Parser}
    → IsBounded p
    → parse_body buffer p ≡ some q
    → IsBounded q
unfolding parse_body
body-IsBounded buffer p v e = ground (arith, v)

parse_turn-IsBounded :
    (buffer : Bytes) (p : Parser) {q : Parser}
    → is_final p.state ≡ false
    → IsBounded p
    → parse_turn buffer (get_or buffer p.pos 0) p ≡ some q
    → IsBounded q
unfolding parse_turn
parse_turn-IsBounded buffer p {q = q} f v e =
    let c = get_or buffer p.pos 0 in
    elim (State-cases p.state f) [
      | inl s ↦
          let same : parse_start_byte buffer c p ≡ q = ground (arith, s, e) in
          subst IsBounded same (start-IsBounded buffer c p v)
      | inr (inl s) ↦
          let same : parse_method_byte buffer c p ≡ q = ground (arith, s, e) in
          subst IsBounded same (method-IsBounded buffer c p v)
      | inr (inr (inl s)) ↦
          let same : parse_uri_byte buffer c p ≡ q = ground (arith, s, e) in
          subst IsBounded same (uri-IsBounded buffer c p v)
      | inr (inr (inr (inl s))) ↦
          let same : parse_version_byte buffer c p ≡ q = ground (arith, s, e) in
          subst IsBounded same (version-IsBounded buffer c p v)
      | inr (inr (inr (inr (inl s)))) ↦
          let same : parse_header_name_byte buffer c p ≡ q = ground (arith, s, e) in
          subst IsBounded same (header_name-IsBounded buffer c p v)
      | inr (inr (inr (inr (inr (inl s))))) ↦
          let same : parse_header_value_byte buffer c p ≡ q = ground (arith, s, e) in
          subst IsBounded same (header_value-IsBounded buffer c p v)
      | inr (inr (inr (inr (inr (inr (inl s)))))) ↦
          let same : parse_header_end p ≡ q = ground (arith, s, e) in
          subst IsBounded same (header_end-IsBounded p v)
      | inr (inr (inr (inr (inr (inr (inr s)))))) ↦ body-IsBounded buffer p v (ground (arith, s, e))
    ]

parse_loop-IsBounded :
    (n : ℕ) (buffer : Bytes) (p : Parser) {q : Parser}
    → IsBounded p
    → parse_loop n buffer p ≡ ended q
    → IsBounded q
unfolding parse_loop
parse_loop-IsBounded zero buffer p v e = absurd cc
parse_loop-IsBounded (suc n) buffer p {q = q} v e =
    elim (Bool-cases (leb (length buffer) p.pos || is_final p.state)) [
      | inl stop ↦ let same : p ≡ q = ground (arith, stop, e) in subst IsBounded same v
      | inr on ↦ elim (Option-cases (parse_turn buffer (get_or buffer p.pos 0) p)) [
        | inl k ↦ let same : p ≡ q = ground (arith, on, k, e) in subst IsBounded same v
        | inr (r, k) ↦
            parse_loop-IsBounded n buffer r (parse_turn-IsBounded buffer p (ground (arith, on)) v k)
              (ground (arith, on, k, e))
      ]
    ]

Ending-cases : (e : Ending) → (e ≡ no_fuel) ⊎ ((q : Parser) × (e ≡ ended q))
Ending-cases no_fuel = inl refl
Ending-cases (ended q) = inr (q, refl)

-- Whatever the bytes, the texts that http_parser_parse copies fit their arrays, and the headers fit
-- theirs.
pub http_parser_parse-IsBounded :
    (buffer : Bytes) (p : Parser) → IsBounded p → IsBounded (http_parser_parse p buffer).0
unfolding http_parser_parse
http_parser_parse-IsBounded buffer p v = elim (Ending-cases (parse_loop (enough buffer) buffer p)) [
  | inl e ↦ subst IsBounded (sym (ap (λ x. (end_of p x).0) e)) v
  | inr (q, e) ↦
      subst IsBounded (sym (ap (λ x. (end_of p x).0) e))
        (parse_loop-IsBounded (enough buffer) buffer p v e)
]
