-- ===== src/ThreadPool/Create.antt =====
-- What thread_pool_create gives.
use x_server.Prelude.{
  ℕ, zero, suc, ◌+◌, ◌<◌, ◌≡◌, ◌⊎◌, refl, ap, ◌∙◌, inl, inr, Bool, false, ◌||◌, Bool-cases, none,
  some, [], ◌==◌, arith, length-replicate,
}
use native.Mathlib.Nat.{mod-eq_of_lt}
use x_server.ThreadPool.{Pool, new_pool, thread_pool_create, start_threads}
use x_server.ThreadPool.Ring.{Holds}

module _ {A : Type 0} where
  start_threads_all :
      (n : ℕ) (created : ℕ → Bool) (p : Pool A)
      → (start_threads n created p ≡ none)
        ⊎ (start_threads n created p ≡ some (record p { started = p.started + n }))
  unfolding start_threads
  start_threads_all zero created p = inr (ap (λ k. some (record p { started = k })) (omega arith))
  start_threads_all (suc n) created p = elim (Bool-cases (created p.started)) [
    | inr c ↦ inl (ground arith)
    | inl c ↦ elim (start_threads_all n created (record p { started = p.started + 1 })) [
      | inl h ↦ inl (ground arith)
      | inr h ↦ inr (rw (c) (h ∙ ap (λ k. some (record p { started = k })) (omega arith)))
    ]
  ]

  new_pool-Holds :
      (n size : ℕ) → 0 < size → Holds (record (new_pool {A = A} n size) { started = 0 + n }) []
  new_pool-Holds n size h = record {
    size = length-replicate size none;
    at_head = h;
    fits = omega arith;
    counted = refl;
    at_tail = rw (mod-eq_of_lt h) refl;
    tasks = tt;
  }

  -- A pool that thread_pool_create returns is open and empty, and has all its threads.
  pub thread_pool_create-Holds :
      (thread_count queue_size : ℕ) (ready : Bool) (created : ℕ → Bool) {p : Pool A}
      → thread_pool_create thread_count queue_size ready created ≡ some p
      → Holds p [] × (p.shutdown ≡ false) × (p.started ≡ thread_count) × (p.queue_size ≡ queue_size)
  unfolding thread_pool_create
  thread_pool_create-Holds thread_count queue_size ready created {p} e =
      elim (Bool-cases (thread_count == 0 || queue_size == 0)) [
        | inl z ↦ absurd (ground arith)
        | inr z ↦ elim (Bool-cases ready) [
          | inr r ↦ absurd (ground arith)
          | inl r ↦
              elim (start_threads_all thread_count created (new_pool thread_count queue_size)) [
                | inl h ↦ absurd (ground arith)
                | inr h ↦
                    let same : record (new_pool thread_count queue_size) {
                      started = 0 + thread_count;
                    }
                        ≡ p =
                      ground arith in
                    rw (← same) (
                      new_pool-Holds thread_count queue_size (ground arith),
                      refl,
                      omega arith,
                      refl,
                    )
              ]
        ]
      ]
