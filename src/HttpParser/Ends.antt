-- ===== src/HttpParser/Ends.antt =====
-- The loop of the state machine ends, inside its buffer.
use x_server.Prelude.{
  ℕ, zero, suc, ◌+◌, ◌-◌, ◌*◌, ◌≤◌, ◌<◌, ◌≡◌, ◌⊎◌, refl, ap, subst, inl, inr, true, false, ◌||◌,
  Bool-cases, Option-cases, none, some, leb, arith, length, get_or,
}
use x_server.Text.{Bytes}
use x_server.Http.Method.{parse_method}
use x_server.HttpParser.{
  State, start, method, uri, version, header_name, header_value, header_end, body, complete, error,
  Parser, parse_start_byte, parse_method_byte, parse_uri_byte, parse_version_byte, set_path,
  end_version, skip_line_end, parse_header_name_byte, add_header, parse_header_value_byte,
  parse_header_end, parse_body, parse_turn, parse_loop, is_final, ended, enough, end_of, result_of,
  http_parser_parse, line,
}

-- The turns that a state may still take at one position.
abbrev pub rank : State → ℕ
rank header_end = 2
rank body = 1
rank complete = 0
rank error = 0
rank _ = 2

abbrev pub turns_left : Bytes → Parser → ℕ
turns_left buffer p = 3 * (length buffer - p.pos) + rank p.state

-- A turn stays in the buffer, does not go back, and leaves fewer turns.
pub record Moves (buffer : Bytes) (p q : Parser) : Type 0 where
  pub inside : q.pos ≤ length buffer
  pub onward : p.pos ≤ q.pos
  pub fewer : turns_left buffer q < turns_left buffer p

method-Moves :
    (buffer : Bytes) (c : ℕ) (p : Parser)
    → p.pos < length buffer
    → p.state ≡ method
    → Moves buffer p (parse_method_byte buffer c p)
unfolding parse_method_byte
method-Moves buffer c p h e = ground (arith, e)

start-Moves :
    (buffer : Bytes) (c : ℕ) (p : Parser)
    → p.pos < length buffer
    → p.state ≡ start
    → Moves buffer p (parse_start_byte buffer c p)
unfolding parse_start_byte parse_method_byte
start-Moves buffer c p h e = ground (arith, e)

uri-Moves :
    (buffer : Bytes) (c : ℕ) (p : Parser)
    → p.pos < length buffer
    → p.state ≡ uri
    → Moves buffer p (parse_uri_byte buffer c p)
unfolding parse_uri_byte
uri-Moves buffer c p h e = ground (arith, e)

set_path-pos : (p : Parser) → (set_path p).pos ≡ p.pos
unfolding set_path
set_path-pos p = ground arith

version-Moves :
    (buffer : Bytes) (c : ℕ) (p : Parser)
    → p.pos < length buffer
    → p.state ≡ version
    → Moves buffer p (parse_version_byte buffer c p)
unfolding parse_version_byte end_version
version-Moves buffer c p h e = ground (
  arith,
  e,
  set_path-pos
      (record p { version_buffer = line buffer p; request_method = parse_method p.method_buffer }),
)

header_name-Moves :
    (buffer : Bytes) (c : ℕ) (p : Parser)
    → p.pos < length buffer
    → p.state ≡ header_name
    → Moves buffer p (parse_header_name_byte buffer c p)
unfolding parse_header_name_byte skip_line_end
header_name-Moves buffer c p h e = ground (arith, e)

add_header-pos : (p : Parser) → (add_header p).pos ≡ p.pos
unfolding add_header
add_header-pos p = ground arith

header_value-Moves :
    (buffer : Bytes) (c : ℕ) (p : Parser)
    → p.pos < length buffer
    → p.state ≡ header_value
    → Moves buffer p (parse_header_value_byte buffer c p)
unfolding parse_header_value_byte skip_line_end
header_value-Moves buffer c p h e =
    ground (arith, e, add_header-pos (record p { header_value_buffer = line buffer p }))

header_end-Moves :
    (buffer : Bytes) (p : Parser)
    → p.pos < length buffer
    → p.state ≡ header_end
    → Moves buffer p (parse_header_end p)
unfolding parse_header_end
header_end-Moves buffer p h e = ground (arith, e)

body-Moves :
    (buffer : Bytes) (p : Parser) {q : Parser}
    → p.pos < length buffer
    → p.state ≡ body
    → parse_body buffer p ≡ some q
    → Moves buffer p q
unfolding parse_body
body-Moves buffer p h e k = ground (arith, e)

pub State-cases :
    (s : State)
    → is_final s ≡ false
    → (s ≡ start)
      ⊎ (s ≡ method)
      ⊎ (s ≡ uri)
      ⊎ (s ≡ version)
      ⊎ (s ≡ header_name)
      ⊎ (s ≡ header_value)
      ⊎ (s ≡ header_end)
      ⊎ (s ≡ body)
State-cases start h = inl refl
State-cases method h = inr (inl refl)
State-cases uri h = inr (inr (inl refl))
State-cases version h = inr (inr (inr (inl refl)))
State-cases header_name h = inr (inr (inr (inr (inl refl))))
State-cases header_value h = inr (inr (inr (inr (inr (inl refl)))))
State-cases header_end h = inr (inr (inr (inr (inr (inr (inl refl))))))
State-cases body h = inr (inr (inr (inr (inr (inr (inr refl))))))
State-cases complete h = absurd cc
State-cases error h = absurd cc

pub parse_turn-Moves :
    (buffer : Bytes) (p : Parser) {q : Parser}
    → p.pos < length buffer
    → is_final p.state ≡ false
    → parse_turn buffer (get_or buffer p.pos 0) p ≡ some q
    → Moves buffer p q
unfolding parse_turn
parse_turn-Moves buffer p {q = q} h f e =
    let c = get_or buffer p.pos 0 in
    elim (State-cases p.state f) [
      | inl s ↦
          let same : parse_start_byte buffer c p ≡ q = ground (arith, s, e) in
          subst (Moves buffer p) same (start-Moves buffer c p h s)
      | inr (inl s) ↦
          let same : parse_method_byte buffer c p ≡ q = ground (arith, s, e) in
          subst (Moves buffer p) same (method-Moves buffer c p h s)
      | inr (inr (inl s)) ↦
          let same : parse_uri_byte buffer c p ≡ q = ground (arith, s, e) in
          subst (Moves buffer p) same (uri-Moves buffer c p h s)
      | inr (inr (inr (inl s))) ↦
          let same : parse_version_byte buffer c p ≡ q = ground (arith, s, e) in
          subst (Moves buffer p) same (version-Moves buffer c p h s)
      | inr (inr (inr (inr (inl s)))) ↦
          let same : parse_header_name_byte buffer c p ≡ q = ground (arith, s, e) in
          subst (Moves buffer p) same (header_name-Moves buffer c p h s)
      | inr (inr (inr (inr (inr (inl s))))) ↦
          let same : parse_header_value_byte buffer c p ≡ q = ground (arith, s, e) in
          subst (Moves buffer p) same (header_value-Moves buffer c p h s)
      | inr (inr (inr (inr (inr (inr (inl s)))))) ↦
          let same : parse_header_end p ≡ q = ground (arith, s, e) in
          subst (Moves buffer p) same (header_end-Moves buffer p h s)
      | inr (inr (inr (inr (inr (inr (inr s)))))) ↦ body-Moves buffer p h s (ground (arith, s, e))
    ]

turn-none :
    (buffer : Bytes) (p : Parser)
    → is_final p.state ≡ false
    → parse_turn buffer (get_or buffer p.pos 0) p ≡ none
    → (p.state ≡ body) × (parse_body buffer p ≡ none)
unfolding parse_turn
turn-none buffer p f e = ground (arith, State-cases p.state f, e)

rank_bound : (s : State) → rank s ≤ 2
rank_bound s = ground arith

-- Why a call ends: it is at the end of the buffer, or done, or the body has not arrived.
abbrev pub Stops : Bytes → Parser → Type 0
Stops buffer q =
    ((leb (length buffer) q.pos || is_final q.state) ≡ true)
    ⊎ ((q.state ≡ body) × (parse_body buffer q ≡ none))

parse_loop-ends :
    (n : ℕ) (buffer : Bytes) (p : Parser)
    → p.pos ≤ length buffer
    → turns_left buffer p < n
    → (q : Parser) × (parse_loop n buffer p ≡ ended q)
      × (q.pos ≤ length buffer)
      × (p.pos ≤ q.pos)
      × Stops buffer q
unfolding parse_loop
parse_loop-ends zero buffer p h k = absurd (omega arith)
parse_loop-ends (suc n) buffer p h k =
    elim (Bool-cases (leb (length buffer) p.pos || is_final p.state)) [
      | inl stop ↦ (p, ground (arith, stop), h, omega arith, inl stop)
      | inr on ↦ elim (Option-cases (parse_turn buffer (get_or buffer p.pos 0) p)) [
        | inl e ↦ (
          p,
          ground (arith, on, e),
          h,
          omega arith,
          inr (turn-none buffer p (ground (arith, on)) e),
        )
        | inr (q, e) ↦
            let m = parse_turn-Moves buffer p (grind (arith, on)) (ground (arith, on)) e in
            let (r, ends, inside, onward, why) =
              parse_loop-ends n buffer q m.inside (omega (arith, m.fewer)) in
            (r, ground (arith, on, e, ends), inside, omega (arith, m.onward), why)
      ]
    ]

-- From a position in the buffer, the loop of http_parser_parse comes to an end: at the end of the
-- buffer, complete or failed, or with a body that has not arrived. It has not gone back and is not
-- past the buffer, so a position that it returns is at most the length of the buffer.
pub http_parser_parse-ends :
    (buffer : Bytes) (p : Parser)
    → p.pos ≤ length buffer
    → (q : Parser) × (parse_loop (enough buffer) buffer p ≡ ended q)
      × (http_parser_parse p buffer ≡ (q, result_of q))
      × (q.pos ≤ length buffer)
      × (p.pos ≤ q.pos)
      × Stops buffer q
unfolding http_parser_parse
http_parser_parse-ends buffer p h =
    let (q, ends, inside, onward, why) =
      parse_loop-ends (enough buffer) buffer p h (omega (arith, rank_bound p.state)) in
    (q, ends, ap (end_of p) ends, inside, onward, why)
