-- ===== src/ThreadPool/System/Fifo.antt =====
-- The order of the tasks, for every interleaving of callers and threads.
use x_server.Prelude.{
  ℕ, ◌+◌, ◌-◌, ◌≡◌, refl, sym, ap, subst, ◌∙◌, inl, inr, Bool, true, false, ◌⊎◌, Bool-cases, Option,
  none, some, List, [], ◌∷◌, ◌++◌, ◌==◌, arith, length, get_or, map, map-append, All, All-set,
  All-imp, All-get_or, All-replicate, append_assoc, append-nil, length-append,
}
use x_server.ThreadPool.{Pool, Turn, wait, exit, Calls, joining, thread_worker, begin_destroy}
use x_server.ThreadPool.Ring.{
  Holds, TurnOf, add_task, thread_pool_add_refines, thread_worker-TurnOf,
}
use x_server.ThreadPool.Create.{thread_pool_create-Holds}
use x_server.ThreadPool.System.{
  System, Phase, waiting, exited, running, newly_accepted, after_add, after_turn, Step, add, turn,
  finish, close, Reachable, start, step, IsDone, IsValid,
}

module _ {A : Type 0} where
  add_task-cases :
      (capacity : ℕ) (shutdown : Bool) (xs : List A) (task : Option A) (calls : Calls)
      → ((add_task capacity shutdown xs task calls).0 ≡ xs)
        ⊎ ((t : A) × (task ≡ some t)
            × ((add_task capacity shutdown xs task calls).0 ≡ xs ++ t ∷ [])
            × (shutdown ≡ false))
  add_task-cases capacity shutdown xs none calls = inl refl
  add_task-cases capacity shutdown xs (some t) calls = elim (Bool-cases calls.lock) [
    | inr e ↦ inl (ground arith)
    | inl e ↦ elim (Bool-cases (length xs == capacity)) [
      | inl full ↦ inl (ground arith)
      | inr room ↦ elim (Bool-cases shutdown) [
        | inl off ↦ inl (ground arith)
        | inr on ↦ inr (t, refl, ground arith, on)
      ]
    ]
  ]

  same_count : (p q : Pool A) (task : Option A) → q.count ≡ p.count → newly_accepted p q task ≡ []
  same_count p q none e = refl
  same_count p q (some t) e = ground arith

  one_more : (p q : Pool A) (t : A) → q.count ≡ p.count + 1 → newly_accepted p q (some t) ≡ t ∷ []
  one_more p q t e = ground arith

  order-add :
      (s : System A) (q : Pool A) (xs : List A) (task : Option A) (t : A)
      → task ≡ some t
      → Holds s.pool xs
      → Holds q (xs ++ t ∷ [])
      → map some s.accepted ≡ s.begun ++ map some xs
      → map some (s.accepted ++ newly_accepted s.pool q task) ≡ s.begun ++ map some (xs ++ t ∷ [])
  order-add s q xs task t is_t h k o =
      let e : newly_accepted s.pool q task ≡ t ∷ [] =
        ap (newly_accepted s.pool q) is_t
        ∙ one_more s.pool q t (omega (arith, h.counted, k.counted, length-append xs (t ∷ []))) in
      rw (e, map-append, o, append_assoc, map-append) refl

  -- While the pool is open, no thread has left.
  open-IsDone :
      (b c : Bool) (xs ys : List A) (ph : Phase A) → b ≡ false → IsDone b xs ph → IsDone c ys ph
  open-IsDone b c xs ys waiting on d = tt
  open-IsDone b c xs ys exited on d = absurd (cc)
  open-IsDone b c xs ys (running t) on d = tt

  -- While a task waits, no thread has left.
  busy-IsDone :
      (b c : Bool) (x : A) (xs : List A) (ph : Phase A) → IsDone b (x ∷ xs) ph → IsDone c xs ph
  busy-IsDone b c x xs waiting d = tt
  busy-IsDone b c x xs exited d = absurd cc
  busy-IsDone b c x xs (running t) d = tt

  closed-IsDone : (b : Bool) (xs : List A) (ph : Phase A) → IsDone b xs ph → IsDone true xs ph
  closed-IsDone b xs waiting d = tt
  closed-IsDone b xs exited d = (refl, d.1)
  closed-IsDone b xs (running t) d = tt

  -- The tasks do not depend on the flag and the number of threads.
  pub relabel-Holds :
      (p : Pool A) (xs : List A) (b : Bool) (k : ℕ)
      → Holds p xs
      → Holds (record p { shutdown = b; started = k }) xs
  relabel-Holds p xs b k h = record {
    size = h.size;
    at_head = h.at_head;
    fits = h.fits;
    counted = h.counted;
    at_tail = h.at_tail;
    tasks = h.tasks;
  }

  add-IsValid :
      (s : System A) (task : Option A) (calls : Calls)
      → IsValid s
      → IsValid (after_add s task calls)
  add-IsValid s task calls v =
      let (q, e, h, off) = thread_pool_add_refines s.pool v.tasks task calls v.pool in
      rw e (elim (add_task-cases s.pool.queue_size s.pool.shutdown v.tasks task calls) [
        | inl same ↦ record {
          tasks = v.tasks;
          pool = subst (Holds q) same h;
          order =
              rw
                (
                  same_count s.pool q task ((subst (Holds q) same h).counted ∙ sym v.pool.counted),
                  append-nil,
                )
                v.order;
          done = rw off v.done;
        }
        | inr (t, is_t, more, on) ↦ record {
          tasks = v.tasks ++ t ∷ [];
          pool = subst (Holds q) more h;
          order = (order-add s q v.tasks task t is_t v.pool (subst (Holds q) more h) v.order);
          done = All-imp _ s.threads (λ ph d. open-IsDone _ _ v.tasks _ ph on d) v.done;
        }
      ])

  TurnOf-IsValid :
      (s : System A) (i : ℕ) (xs : List A) (t : Turn A)
      → Holds s.pool xs
      → map some s.accepted ≡ s.begun ++ map some xs
      → All (IsDone s.pool.shutdown xs) s.threads
      → TurnOf s.pool xs t
      → IsValid (after_turn s i t)
  TurnOf-IsValid s i [] t h o d e = elim (Bool-cases s.pool.shutdown) [
    | inr on ↦
        let waits : t ≡ wait = ground arith in
        rw waits (record { tasks = []; pool = h; order = o; done = d })
    | inl off ↦
        let exits : t ≡ exit (record (s.pool) { started = s.pool.started - 1 }) = ground arith in
        rw exits (record {
          tasks = [];
          pool = relabel-Holds s.pool [] s.pool.shutdown (s.pool.started - 1) h;
          order = o;
          done = All-set _ s.threads i exited d (off, refl);
        })
  ]
  TurnOf-IsValid s i (x ∷ xs) t h o d (q, e, k, same) = rw e (record {
    tasks = xs;
    pool = k;
    order = o ∙ sym (append_assoc s.begun (some x ∷ []) (map some xs));
    done =
        All-set _ s.threads i (running (some x))
          (All-imp _ s.threads (busy-IsDone s.pool.shutdown q.shutdown x xs) d) tt;
  })

  turn-IsValid :
      (s : System A) (i : ℕ) → IsValid s → IsValid (after_turn s i (thread_worker s.pool))
  turn-IsValid s i v =
      TurnOf-IsValid s i v.tasks _ v.pool v.order v.done
        (thread_worker-TurnOf s.pool v.tasks v.pool)

  close-IsValid :
      (s : System A) (flags : Bool) (calls : Calls) (q : Pool A)
      → IsValid s
      → begin_destroy s.pool flags calls ≡ joining q
      → IsValid (record s { pool = q })
  unfolding begin_destroy
  close-IsValid s flags calls q v e =
      let same : record (s.pool) { shutdown = true } ≡ q = ground arith in
      rw (← same) (record {
        tasks = v.tasks;
        pool = relabel-Holds s.pool v.tasks true s.pool.started v.pool;
        order = v.order;
        done = All-imp _ s.threads (closed-IsDone s.pool.shutdown v.tasks) v.done;
      })

  Step-IsValid : (s t : System A) → IsValid s → Step s t → IsValid t
  Step-IsValid s _ v (add _ task calls) = add-IsValid s task calls v
  Step-IsValid s _ v (turn _ i h) = turn-IsValid s i v
  Step-IsValid s _ v (finish _ i task h) = record {
    tasks = v.tasks;
    pool = v.pool;
    order = v.order;
    done = All-set _ s.threads i waiting v.done tt;
  }
  Step-IsValid s _ v (close _ flags calls q e) = close-IsValid s flags calls q v e

  pub Reachable-IsValid : (s : System A) → Reachable s → IsValid s
  Reachable-IsValid _ (start n size ready created p e) = record {
    tasks = [];
    pool = (thread_pool_create-Holds n size ready created e).0;
    order = refl;
    done = All-replicate _ p.started waiting tt;
  }
  Reachable-IsValid t (step s _ r k) = Step-IsValid s t (Reachable-IsValid s r) k

  -- In every state that callers and threads can reach, whatever their order: the tasks that threads
  -- have begun are the accepted tasks, in the order of their acceptance, each once, up to those that
  -- wait in the queue, of which there are as many as `count` says.
  pub Reachable-fifo :
      (s : System A)
      → Reachable s
      → (xs : List A) × (map some s.accepted ≡ s.begun ++ map some xs) × (s.pool.count ≡ length xs)
  Reachable-fifo s r = let v = Reachable-IsValid s r in (v.tasks, v.order, v.pool.counted)

  -- A thread has left its loop only if the pool is shut down and every accepted task has been begun.
  pub Reachable-drained :
      (s : System A) (i : ℕ)
      → Reachable s
      → get_or s.threads i waiting ≡ exited
      → (s.pool.shutdown ≡ true) × (s.begun ≡ map some s.accepted)
  Reachable-drained s i r e =
      let v = Reachable-IsValid s r in
      let d : IsDone s.pool.shutdown v.tasks exited =
        subst (IsDone s.pool.shutdown v.tasks) e (All-get_or _ s.threads i waiting v.done tt) in
      (d.0, sym (v.order ∙ (ap (λ xs. s.begun ++ map some xs) d.1 ∙ append-nil s.begun)))
