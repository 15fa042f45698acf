-- ===== src/ThreadPool/Drain.antt =====
-- A thread that runs alone.
use x_server.Prelude.{
  ℕ, zero, suc, ◌-◌, ◌<◌, ◌≡◌, refl, ap, ◌∙◌, inl, inr, Bool-cases, Option, some, List, [], ◌∷◌,
  ◌++◌, if◌then◌else◌, arith, length, map, append_assoc, append-nil,
}
use x_server.ThreadPool.{Pool, wait, exit, run, thread_worker}
use x_server.ThreadPool.Ring.{Holds, thread_worker-TurnOf}
use x_server.ThreadPool.System.Fifo.{relabel-Holds}

-- How the loop of thread_worker ends if no other thread takes a turn: it waits, or it leaves. Both
-- carry the tasks that it has run.
pub data Ending (A : Type 0) : Type 0 where
  waits leaves : List (Option A) → Pool A → Ending A
  no_fuel : Ending A

module _ {A : Type 0} where
  pub worker_loop : ℕ → Pool A → List (Option A) → Ending A
  worker_loop zero p begun = no_fuel
  worker_loop (suc n) p begun = elim (thread_worker p) [
    | wait ↦ waits begun p
    | exit q ↦ leaves begun q
    | run task q ↦ worker_loop n q (begun ++ task ∷ [])
  ]

  -- With more fuel than tasks, a thread that no other one disturbs runs all waiting tasks in their
  -- order and leaves none. Then it waits, or leaves its loop if the pool is shut down.
  pub worker_loop-drains :
      (fuel : ℕ) (p : Pool A) (xs : List A) (begun : List (Option A))
      → Holds p xs
      → length xs < fuel
      → (q : Pool A) × Holds q []
        × (worker_loop fuel p begun ≡ (
            if p.shutdown then leaves (begun ++ map some xs) q else waits (begun ++ map some xs) q))
  unfolding worker_loop
  worker_loop-drains zero p xs begun h k = absurd (omega arith)
  worker_loop-drains (suc n) p [] begun h k = elim (Bool-cases p.shutdown) [
    | inl off ↦
        let e : thread_worker p ≡ exit (record p { started = p.started - 1 }) =
          thread_worker-TurnOf p [] h
          ∙ ap (λ b. if b then exit (record p { started = p.started - 1 }) else wait) off in
        (
          record p { started = p.started - 1 },
          relabel-Holds p [] p.shutdown (p.started - 1) h,
          rw (append-nil) (ground (arith, e, off)),
        )
    | inr on ↦
        let e : thread_worker p ≡ wait =
          thread_worker-TurnOf p [] h
          ∙ ap (λ b. if b then exit (record p { started = p.started - 1 }) else wait) on in
        (p, h, rw (append-nil) (ground (arith, e, on)))
  ]
  worker_loop-drains (suc n) p (x ∷ xs) begun h k =
      let (q, e, held, same) = thread_worker-TurnOf p (x ∷ xs) h in
      let (r, empty, ends) = worker_loop-drains n q xs (begun ++ some x ∷ []) held (omega arith) in
      (
        r,
        empty,
        rw (worker_loop, e)
            (ends
              ∙ (ap
                    (λ b.
                      if b
                      then leaves ((begun ++ some x ∷ []) ++ map some xs) r
                      else waits ((begun ++ some x ∷ []) ++ map some xs) r)
                    same
                  ∙ rw (append_assoc begun (some x ∷ []) (map some xs)) refl)),
      )
