-- ===== src/Http/Request/Fuel.antt =====
-- The header loop ends: its fuel is more than the unread bytes, and each turn takes at least one.
use x_server.Prelude.{
  ℕ, zero, suc, ◌+◌, ◌≤◌, ◌<◌, ◌≡◌, ◌≢◌, refl, ◌⊎◌, inl, inr, List, [], ◌∷◌, ◌++◌, ◌==◌, ltb, arith,
  length, Bool-cases, Option-cases,
}
use x_server.Text.{Bytes}
use x_server.Http.Line.{max_line_length, read_line_from_buffer}
use x_server.Http.Line.Laws.{read_line-shrinks}
use x_server.Http.Header.{Header, Outcome, skip, stop, parse_header_line}
use x_server.Http.Request.{Section, section, too_large, out_of_fuel, read_headers, max_request_size}

pub Outcome-cases : (o : Outcome) → (o ≡ skip) ⊎ (o ≡ stop) ⊎ ((h : Header) × (o ≡ Outcome.take h))
Outcome-cases skip = inl refl
Outcome-cases stop = inr (inl refl)
Outcome-cases (Outcome.take h) = inr (inr (h, refl))

-- The cases of one turn of the loop.
pub headers_turn {ℓ} :
    (P : Section → Type ℓ) (fuel : ℕ) (hs : List Header) (total : ℕ) (rest : Bytes)
    → P (section hs total rest)
    → P too_large
    → ((line rest' : Bytes) → length line + length rest' ≤ length rest → P (section hs total rest'))
    → ((line rest' : Bytes)
        → length line + length rest' ≤ length rest
        → 0 < length line
        → total + length line ≤ max_request_size
        → P (read_headers fuel hs (total + length line) rest')
          × P (section hs (total + length line) rest')
          × ((h : Header)
              → parse_header_line hs line ≡ Outcome.take h
              → P (read_headers fuel (hs ++ (h ∷ [])) (total + length line) rest')))
    → P (read_headers (suc fuel) hs total rest)
unfolding read_headers
headers_turn P fuel hs total rest end large blank step =
    elim (Option-cases (read_line_from_buffer max_line_length rest)) [
      | inl e ↦ rw (e, read_headers) end
      | inr ((line, rest'), e) ↦
          let s = read_line-shrinks max_line_length rest line rest' e in
          elim (Bool-cases (length line == 0)) [
            | inl b ↦ rw (e, b, read_headers) (blank line rest' s)
            | inr b ↦ elim (Bool-cases (ltb max_request_size (total + length line))) [
              | inl l ↦ rw (e, b, l, read_headers) large
              | inr l ↦
                  let (go, out, take) = step line rest' s (ground arith) (ground arith) in
                  elim (Outcome-cases (parse_header_line hs line)) [
                    | inl k ↦ rw (e, b, l, k, read_headers) go
                    | inr (inl k) ↦ rw (e, b, l, k, read_headers) out
                    | inr (inr (h, k)) ↦ rw (e, b, l, k, read_headers) (take h k)
                  ]
            ]
          ]
    ]

-- With more fuel than unread bytes the header loop ends by itself.
pub read_headers_total :
    (fuel : ℕ) (hs : List Header) (total : ℕ) (rest : Bytes)
    → length rest < fuel
    → read_headers fuel hs total rest ≢ out_of_fuel
read_headers_total zero hs total rest h = absurd (omega arith)
read_headers_total (suc fuel) hs total rest h =
    headers_turn (λ s. s ≢ out_of_fuel) fuel hs total rest (λ e. cc) (λ e. cc) (λ l r s e. cc)
      λ l r s b t. (
        read_headers_total fuel hs (total + length l) r (omega arith),
        (λ e. cc),
        λ x _. read_headers_total fuel (hs ++ (x ∷ [])) (total + length l) r (omega arith),
      )
