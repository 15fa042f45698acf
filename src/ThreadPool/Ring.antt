-- ===== src/ThreadPool/Ring.antt =====
-- The ring of the thread pool as a queue of tasks, first in, first out.
use x_server.Prelude.{
  ℕ, suc, ◌+◌, ◌-◌, ◌%◌, ◌≤◌, ◌<◌, ◌≡◌, ◌≢◌, refl, ◌∙◌, ap, Bool, not, ◌&&◌, subst, Bool-cases, inl,
  inr, Option, none, some, List, [], ◌∷◌, ◌++◌, ◌==◌, ltb, if◌then◌else◌, arith, length, get_or,
  set, get_or-set_self, get_or-set_ne, length-set, length-append,
}
use native.Mathlib.Nat.{mod-eq_of_lt, mod-eq-sub-mod, mod-lt, mod-add-mod}
use x_server.ThreadPool.{
  Pool, Error, success, invalid, lock_failure, queue_full, shut_down, Turn, wait, exit, run, Calls,
  thread_worker, enqueue, thread_pool_add,
}

-- An index of the ring after `k` more steps, at most once round.
mod_wrap :
    (size pos k : ℕ)
    → pos < size
    → k ≤ size
    → (pos + k) % size ≡ (if ltb (pos + k) size then pos + k else pos + k - size)
mod_wrap size pos k h hk = elim (Bool-cases (ltb (pos + k) size)) [
  | inl e ↦ rw e (mod-eq_of_lt (grind arith))
  | inr e ↦ rw e (mod-eq-sub-mod (grind arith) ∙ mod-eq_of_lt (grind arith))
]

-- An index counted from the next slot, and one that comes before the start again.
next_index :
    (size pos k : ℕ)
    → pos < size
    → suc k < size
    → (((pos + 1) % size + k) % size ≡ (pos + suc k) % size) × ((pos + suc k) % size ≢ pos)
next_index size pos k h hk = grind (
  arith,
  mod_wrap size pos 1 h (omega arith),
  mod_wrap size pos (suc k) h (omega arith),
  mod_wrap size ((pos + 1) % size) k (mod-lt (pos + 1) (omega arith)) (omega arith),
)

module _ {A : Type 0} where
  -- The slots from `pos` on hold the tasks of a list.
  abbrev pub Stored : List (Option A) → ℕ → ℕ → List A → Type 0
  Stored queue size pos [] = Unit
  Stored queue size pos (x ∷ xs) =
      (get_or queue pos none ≡ some x) × Stored queue size ((pos + 1) % size) xs

  -- A pool holds the tasks `xs`, in their order.
  pub record Holds (p : Pool A) (xs : List A) : Type 0 where
    pub size : length p.queue ≡ p.queue_size
    pub at_head : p.head < p.queue_size
    pub fits : p.count ≤ p.queue_size
    pub counted : p.count ≡ length xs
    pub at_tail : p.tail ≡ (p.head + p.count) % p.queue_size
    pub tasks : Stored p.queue p.queue_size p.head xs

  -- A write behind the last task adds one.
  Stored-set :
      (queue : List (Option A)) (size pos : ℕ) (xs : List A) (task : A)
      → length queue ≡ size
      → pos < size
      → length xs < size
      → Stored queue size pos xs
      → Stored (set queue ((pos + length xs) % size) (some task)) size pos (xs ++ task ∷ [])
  Stored-set queue size pos [] task e h k s = (
    rw (mod_wrap size pos 0 h (omega arith))
        (ground (arith, get_or-set_self queue pos (some task) none)),
    tt,
  )
  Stored-set queue size pos (x ∷ xs) task e h k s =
      let (same, apart) = next_index size pos (length xs) h k in
      (
        get_or-set_ne queue (some task) none apart ∙ s.0,
        subst (λ i. Stored (set queue i (some task)) size ((pos + 1) % size) (xs ++ task ∷ [])) same
            (Stored-set queue size ((pos + 1) % size) xs task e (mod-lt (pos + 1) (omega arith))
              (omega arith) s.1),
      )

  -- thread_pool_add as a bounded queue: the reply, and the tasks that the pool then holds. It fails on
  -- a NULL function, then where the lock fails, then where the queue is full, then where the pool is
  -- shut down; and a failed signal or unlock is reported though the task has been added.
  abbrev pub add_task : ℕ → Bool → List A → Option A → Calls → List A × Error
  add_task capacity shutdown xs none calls = (xs, invalid)
  add_task capacity shutdown xs (some task) calls =
      if not calls.lock
      then (xs, lock_failure)
      else if length xs == capacity
      then (xs, if calls.unlock then queue_full else lock_failure)
      else if shutdown
      then (xs, if calls.unlock then shut_down else lock_failure)
      else (xs ++ task ∷ [], if calls.notify && calls.unlock then success else lock_failure)

  -- The pool with a task written behind the last one.
  abbrev added : Pool A → A → Pool A
  added p task = record p {
    queue = set p.queue p.tail (some task);
    tail = (p.tail + 1) % p.queue_size;
    count = p.count + 1;
  }

  added-Holds :
      (p : Pool A) (xs : List A) (task : A)
      → Holds p xs
      → p.count < p.queue_size
      → Holds (added p task) (xs ++ task ∷ [])
  added-Holds p xs task h room = record {
    size = length-set p.queue p.tail (some task) ∙ h.size;
    at_head = h.at_head;
    fits = omega arith;
    counted = grind (arith, h.counted, length-append xs (task ∷ []));
    at_tail = rw (h.at_tail, mod-add-mod) (ap (λ i. i % p.queue_size) (omega arith));
    tasks =
        rw (h.at_tail, h.counted)
          (Stored-set p.queue p.queue_size p.head xs task h.size h.at_head
            (grind (arith, h.counted)) h.tasks);
  }

  -- Every call of thread_pool_add on a pool gives the reply of the bounded queue, and leaves the tasks
  -- of the bounded queue in the pool. It does not shut the pool down.
  pub thread_pool_add_refines :
      (p : Pool A) (xs : List A) (task : Option A) (calls : Calls)
      → Holds p xs
      → let (ys, err) = add_task p.queue_size p.shutdown xs task calls in
        (q : Pool A) × (thread_pool_add (some p) task calls ≡ (some q, err))
        × Holds q ys
        × (q.shutdown ≡ p.shutdown)
  unfolding thread_pool_add enqueue
  thread_pool_add_refines p xs none calls h = (p, refl, h, refl)
  thread_pool_add_refines p xs (some task) calls h = elim (Bool-cases calls.lock) [
    | inr e ↦ rw (e, thread_pool_add) (p, refl, h, refl)
    | inl e ↦ elim (Bool-cases (p.count == p.queue_size)) [
      | inl full ↦ rw (← h.counted, e, full) (p, refl, h, refl)
      | inr room ↦ elim (Bool-cases p.shutdown) [
        | inl off ↦ rw (← h.counted) (p, ground arith, ground (arith, h), refl)
        | inr on ↦ rw (← h.counted) (
          added p task,
          ground arith,
          ground (arith, added-Holds p xs task h (grind (arith, h.fits, room))),
          refl,
        )
      ]
    ]
  ]

  abbrev taken : Pool A → Pool A
  taken p = record p { head = (p.head + 1) % p.queue_size; count = p.count - 1 }

  taken-Holds : (p : Pool A) (x : A) (xs : List A) → Holds p (x ∷ xs) → Holds (taken p) xs
  taken-Holds p x xs h = record {
    size = h.size;
    at_head = mod-lt (p.head + 1) (omega (arith, h.at_head));
    fits = omega (arith, h.fits);
    counted = omega (arith, h.counted);
    at_tail = rw (h.at_tail, mod-add-mod) (ap (λ i. i % p.queue_size) (omega (arith, h.counted)));
    tasks = h.tasks.1;
  }

  -- The turn of a thread of a pool that holds the tasks `xs`: it waits on an open pool without tasks,
  -- leaves one that is shut down, and otherwise runs the first task and leaves the others.
  abbrev pub TurnOf : Pool A → List A → Turn A → Type 0
  TurnOf p [] t = t ≡ (if p.shutdown then exit (record p { started = p.started - 1 }) else wait)
  TurnOf p (x ∷ xs) t = (q : Pool A) × (t ≡ run (some x) q) × Holds q xs × (q.shutdown ≡ p.shutdown)

  -- A thread runs the task that has waited longest, and never a slot that was not written. Where there
  -- is none, it waits, or leaves if the pool is shut down.
  pub thread_worker-TurnOf : (p : Pool A) (xs : List A) → Holds p xs → TurnOf p xs (thread_worker p)
  unfolding thread_worker
  thread_worker-TurnOf p [] h = elim (Bool-cases p.shutdown) [
    | inl off ↦ rw (off, h.counted) refl
    | inr on ↦ rw (on, h.counted) refl
  ]
  thread_worker-TurnOf p (x ∷ xs) h =
      (taken p, ground (arith, h.counted, h.tasks.0), taken-Holds p x xs h, refl)
