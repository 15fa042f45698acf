-- ===== src/HttpParser/Batch.antt =====
-- src/http_optimized.c: http_parser_parse_batch.
use x_server.Prelude.{
  ℕ, zero, suc, ◌+◌, ◌≤◌, ◌<◌, ◌≡◌, ◌⊎◌, refl, ap, inl, inr, true, false, ◌||◌, Bool-cases, List,
  [], ◌∷◌, ◌++◌, leb, arith, length, length-append, length-drop, drop,
}
use x_server.Text.{Bytes}
use x_server.HttpParser.{
  Parser, http_parser_create, Result, failed, need_more, parsed, http_parser_parse, result_of,
}
use x_server.HttpParser.Ends.{http_parser_parse-ends}

-- http_batch_result_t: the parsers of the requests, each with its request, and the bytes they take.
pub record Batch : Type 0 where
  pub requests : List Parser
  pub total_bytes : ℕ

-- How the loop ends; without fuel in the model alone.
pub data BatchEnding : Type 0 where
  out_of_fuel : BatchEnding
  batched : Batch → BatchEnding

abbrev add_request : Parser → ℕ → Batch → Batch
add_request p n r = record { requests = r.requests ++ p ∷ []; total_bytes = r.total_bytes + n }

-- A call that fails is tried again one byte further. Each call begins with a parser that is reset.
unfoldable pub batch_loop : ℕ → Bytes → ℕ → ℕ → Batch → BatchEnding
batch_loop zero buffer max_requests pos r = out_of_fuel
batch_loop (suc fuel) buffer max_requests pos r =
    let (p, answer) = http_parser_parse http_parser_create (drop pos buffer) in
    elim (leb (length buffer) pos || leb max_requests (length r.requests)) [
      | true ↦ batched r
      | false ↦ elim answer [
        | failed ↦ batch_loop fuel buffer max_requests (pos + 1) r
        | need_more ↦ batched r
        | parsed zero ↦ batched r
        | parsed (suc n) ↦
            batch_loop fuel buffer max_requests (pos + suc n) (add_request p (suc n) r)
      ]
    ]

unfoldable pub http_parser_parse_batch : Bytes → ℕ → BatchEnding
http_parser_parse_batch buffer max_requests =
    batch_loop (suc (length buffer)) buffer max_requests 0
      (record { requests = []; total_bytes = 0 })

result_bound : (q : Parser) {n : ℕ} → result_of q ≡ parsed n → n ≤ q.pos
result_bound q e = ground (arith, e)

-- A position that a call returns is in its buffer.
parsed_inside :
    (buffer : Bytes) {n : ℕ}
    → (http_parser_parse http_parser_create buffer).1 ≡ parsed n
    → n ≤ length buffer
unfolding http_parser_create
parsed_inside buffer {n = n} e =
    let (q, _, same, inside, _, _) =
      http_parser_parse-ends buffer http_parser_create (omega arith) in
    let r : result_of q ≡ parsed n = cc (ap (λ a. a.1) same, e) in
    omega (arith, inside, result_bound q r)

Result-cases :
    (a : Result)
    → (a ≡ failed) ⊎ (a ≡ need_more) ⊎ (a ≡ parsed 0) ⊎ ((n : ℕ) × (a ≡ parsed (suc n)))
Result-cases failed = inl refl
Result-cases need_more = inr (inl refl)
Result-cases (parsed zero) = inr (inr (inl refl))
Result-cases (parsed (suc n)) = inr (inr (inr (n, refl)))

-- What the loop keeps: the bytes counted are behind it, and no more requests than asked for.
pub record Fits (buffer : Bytes) (max_requests : ℕ) (r : Batch) : Type 0 where
  pub bytes : r.total_bytes ≤ length buffer
  pub requests : length r.requests ≤ max_requests

batch_loop-Fits :
    (fuel : ℕ) (buffer : Bytes) (max_requests pos : ℕ) (r : Batch)
    → pos ≤ length buffer
    → length buffer < pos + fuel
    → r.total_bytes ≤ pos
    → length r.requests ≤ max_requests
    → (s : Batch) × (batch_loop fuel buffer max_requests pos r ≡ batched s)
      × Fits buffer max_requests s
unfolding batch_loop
batch_loop-Fits zero buffer max_requests pos r h k b c = absurd (omega arith)
batch_loop-Fits (suc fuel) buffer max_requests pos r h k b c =
    let done : Fits buffer max_requests r = record { bytes = omega arith; requests = c } in
    elim (Bool-cases (leb (length buffer) pos || leb max_requests (length r.requests))) [
      | inl stop ↦ (r, ground (arith, stop), done)
      | inr on ↦
          let a = http_parser_parse http_parser_create (drop pos buffer) in
          elim (Result-cases a.1) [
            | inl e ↦
                let (s, same, fits) =
                  batch_loop-Fits fuel buffer max_requests (pos + 1) r (grind (arith, on))
                    (omega arith) (omega arith) c in
                (s, rw (batch_loop, on, e) same, fits)
            | inr (inl e) ↦ (r, rw (batch_loop, on, e) refl, done)
            | inr (inr (inl e)) ↦ (r, rw (batch_loop, on, e) refl, done)
            | inr (inr (inr (n, e))) ↦
                let inside : suc n ≤ length (drop pos buffer) = parsed_inside (drop pos buffer) e in
                let (s, same, fits) =
                  batch_loop-Fits fuel buffer max_requests (pos + suc n) (add_request a.0 (suc n) r)
                    (omega (arith, inside, length-drop pos buffer)) (omega arith) (omega arith)
                    (grind (arith, on, length-append r.requests (a.0 ∷ []))) in
                (s, rw (batch_loop, on, e) same, fits)
          ]
    ]

-- The batch parser comes to an end on every buffer. The requests that it gives take no more bytes
-- than the buffer has, and they are no more than were asked for.
pub http_parser_parse_batch-Fits :
    (buffer : Bytes) (max_requests : ℕ)
    → (s : Batch) × (http_parser_parse_batch buffer max_requests ≡ batched s)
      × Fits buffer max_requests s
unfolding http_parser_parse_batch
http_parser_parse_batch-Fits buffer max_requests =
    batch_loop-Fits (suc (length buffer)) buffer max_requests 0 _ (omega arith) (omega arith)
      (omega arith) (omega arith)
