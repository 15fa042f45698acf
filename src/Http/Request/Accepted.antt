-- ===== src/Http/Request/Accepted.antt =====
-- What holds of every request that the parser accepts.
use x_server.Prelude.{
  ℕ, zero, suc, ◌+◌, ◌≤◌, ◌≡◌, ◌≢◌, refl, inl, inr, false, Option, none, some, List, [], ◌∷◌, ◌++◌,
  ◌==◌, arith, length, Bool-cases, Option-cases, take,
}
use x_server.Text.{Bytes, codes}
use x_server.Http.Method.{Method, unknown, parse_method}
use x_server.Http.Line.{max_line_length, read_line_from_buffer}
use x_server.Http.Line.Laws.{read_line_bounded}
use x_server.Http.Path.{normalize_path}
use x_server.Http.Path.Laws.{IsSafe, normalize_path-IsSafe}
use x_server.Http.Header.{Header, get_header_value}
use x_server.Http.Header.Laws.{IsValid, nil-IsValid, parse_header_line-IsValid}
use x_server.Http.Request.{
  Request, RequestLine, done, Section, section, too_large, out_of_fuel, max_request_size,
  read_headers, content_length_value, take_body, finish_body, parse_body, parse_section,
  parse_with_line, split_request_line, parse_http_request_from_buffer, check_request_line,
  split_uri, is_unknown,
}
use x_server.Http.Request.Fuel.{headers_turn}

-- The body that a Content-Length header announces: none without the header or for the length 0.
abbrev pub Framed : Option Bytes → Option Bytes → Type 0
Framed none body = body ≡ none
Framed (some s) none = content_length_value s ≡ some 0
Framed (some s) (some b) = content_length_value s ≡ some (length b)

pub record IsAccepted (r : Request) : Type 0 where
  pub known_method : r.method ≢ unknown
  pub safe_path : IsSafe r.path
  pub valid_headers : IsValid r.headers
  pub no_transfer : get_header_value r.headers (codes "Transfer-Encoding") ≡ none
  pub framed : Framed (get_header_value r.headers (codes "Content-Length")) r.body

abbrev IsGood : Section → Type 0
IsGood too_large = Unit
IsGood out_of_fuel = Unit
IsGood (section hs total rest) = IsValid hs × (total ≤ max_request_size)

read_headers-IsGood :
    (fuel : ℕ) (hs : List Header) (total : ℕ) (rest : Bytes)
    → IsValid hs
    → total ≤ max_request_size
    → IsGood (read_headers fuel hs total rest)
unfolding read_headers
read_headers-IsGood zero hs total rest v h = tt
read_headers-IsGood (suc fuel) hs total rest v h =
    headers_turn IsGood fuel hs total rest (v, h) tt (λ l r s. (v, h))
      λ l r s b t. (
        read_headers-IsGood fuel hs (total + length l) r v t,
        (v, t),
        λ x e.
            read_headers-IsGood fuel (hs ++ (x ∷ [])) (total + length l) r
              (parse_header_line-IsValid hs l v e) t,
      )

length-take : (n : ℕ) (s : Bytes) → n ≤ length s → length (take n s) ≡ n
length-take zero s h = refl
length-take (suc n) [] h = absurd (omega arith)
length-take (suc n) (c ∷ s) h = omega (arith, length-take n s)

-- The parts of a request that the handling of the body leaves alone.
abbrev SameHead : Request → Request → Type 0
SameHead r q = (q.method ≡ r.method) × (q.path ≡ r.path) × (q.headers ≡ r.headers)

take_body_lem :
    (r : Request) (total : ℕ) (rest : Bytes) (n : ℕ) {q : Request} (s : Bytes)
    → r.body ≡ none
    → content_length_value s ≡ some n
    → take_body r total rest n ≡ done q
    → SameHead r q × Framed (some s) q.body
unfolding take_body
take_body_lem r total rest n s b c e = ground (arith, length-take n rest)

finish_body_lem :
    (r : Request) (total : ℕ) (rest : Bytes) (o : Option Bytes) {q : Request}
    → r.body ≡ none
    → finish_body r total rest o ≡ done q
    → SameHead r q × Framed o q.body
unfolding finish_body
finish_body_lem r total rest none b e = ground arith
finish_body_lem r total rest (some s) b e = elim (Option-cases (content_length_value s)) [
  | inl c ↦ absurd (cc (rw (c, finish_body) at e))
  | inr (n, c) ↦ take_body_lem r total rest n s b c (rw (c, finish_body) at e)
]

-- What is known of a request before its body is read.
abbrev IsHead : Request → Type 0
IsHead r = (r.method ≢ unknown) × IsSafe r.path × (r.body ≡ none)

accept :
    (r q : Request)
    → IsHead r
    → IsValid r.headers
    → get_header_value r.headers (codes "Transfer-Encoding") ≡ none
    → SameHead r q × Framed (get_header_value r.headers (codes "Content-Length")) q.body
    → IsAccepted q
accept r q h v t ((m, p, hs), f) = record {
  known_method = rw m h.0;
  safe_path = rw p h.1;
  valid_headers = rw hs v;
  no_transfer = rw hs t;
  framed = rw hs f;
}

parse_body-IsAccepted :
    (r : Request) (total : ℕ) (rest : Bytes) {q : Request}
    → IsHead r
    → IsValid r.headers
    → parse_body r total rest ≡ done q
    → IsAccepted q
unfolding parse_body
parse_body-IsAccepted r total rest {q} h v e =
    elim (Option-cases (get_header_value r.headers (codes "Transfer-Encoding"))) [
      | inl t ↦ accept r q h v t (finish_body_lem r total rest _ h.2 (rw (t, parse_body) at e))
      | inr (x, t) ↦ absurd (cc (rw (t, parse_body) at e))
    ]

parse_section-IsAccepted :
    (r : Request) (s : Section) {q : Request}
    → IsHead r
    → IsGood s
    → parse_section r s ≡ done q
    → IsAccepted q
unfolding parse_section
parse_section-IsAccepted r too_large h g e = absurd (cc)
parse_section-IsAccepted r out_of_fuel h g e = absurd (cc)
parse_section-IsAccepted r (section hs total rest) h g e =
    parse_body-IsAccepted (record r { headers = hs }) total rest h g.0 e

known : (m : Method) → is_unknown m ≡ false → m ≢ unknown
known m h e = cc (rw e at h)

parse_with_line-IsAccepted :
    (r : RequestLine) (total : ℕ) (rest : Bytes) {q : Request}
    → total ≤ max_request_size
    → parse_with_line r total rest ≡ done q
    → IsAccepted q
unfolding parse_with_line
parse_with_line-IsAccepted r total rest h e = elim (Bool-cases (check_request_line r)) [
  | inl a ↦ elim (Bool-cases (is_unknown (parse_method r.method_str))) [
    | inl m ↦ absurd (cc (rw (a, m, parse_with_line) at e))
    | inr m ↦ elim (Option-cases (normalize_path (split_uri r.uri).0)) [
      | inl n ↦ absurd (cc (rw (a, m, n, parse_with_line) at e))
      | inr (path, n) ↦
          parse_section-IsAccepted _ _ (known _ m, (normalize_path-IsSafe _ n).0, refl)
            (read_headers-IsGood (suc (length rest)) [] total rest nil-IsValid h)
            (rw (a, m, n, parse_with_line) at e)
    ]
  ]
  | inr a ↦ absurd (cc (rw (a, parse_with_line) at e))
]

-- Every request that the parser accepts has a known method, a safe path, at most 100 headers of
-- allowed bytes with no critical one twice, and no Transfer-Encoding; and its body has exactly the
-- length that its Content-Length header says, or is missing where there is none.
pub parse_http_request-IsAccepted :
    (buffer : Bytes) {q : Request} → parse_http_request_from_buffer buffer ≡ done q → IsAccepted q
unfolding parse_http_request_from_buffer
parse_http_request-IsAccepted buffer e =
    elim (Option-cases (read_line_from_buffer max_line_length buffer)) [
      | inl n ↦ absurd (cc (rw (n, parse_http_request_from_buffer) at e))
      | inr ((line, rest), n) ↦ elim (Bool-cases (length line == 0)) [
        | inl z ↦ absurd (cc (rw (n, z, parse_http_request_from_buffer) at e))
        | inr z ↦ elim (Option-cases (split_request_line line)) [
          | inl k ↦ absurd (cc (rw (n, z, k, parse_http_request_from_buffer) at e))
          | inr (r, k) ↦
              parse_with_line-IsAccepted r (length line) rest
                (omega (arith, read_line_bounded max_line_length buffer line rest n))
                (rw (n, z, k, parse_http_request_from_buffer) at e)
        ]
      ]
    ]
