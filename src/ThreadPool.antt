-- ===== src/ThreadPool.antt =====
-- src/thread_pool.c: the pool, its ring of tasks, and what each call does while it holds the mutex.
-- A task is a function with its argument. The results of the pthread calls are arguments.
pub mod Ring
pub mod Create
pub mod System
pub mod Drain
mod Tests
use x_server.Prelude.{
  ℕ, zero, suc, ◌+◌, ◌-◌, ◌%◌, Bool, true, false, not, ◌&&◌, ◌||◌, Option, none, some, List, [],
  ◌∷◌, ◌++◌, ◌==◌, if◌then◌else◌, length, get_or, set, replicate,
}

-- thread_pool_error_t
pub data Error : Type 0 where
  success invalid lock_failure queue_full shut_down thread_failure : Error

-- A slot of the queue that was not written is `none`. `started` counts the threads that have not
-- left their loop, so it is above 0 where the code lowers it. `locked` is a mutex that a call has
-- returned without releasing.
pub record Pool (A : Type 0) : Type 0 where
  pub queue : List (Option A)
  pub thread_count : ℕ
  pub queue_size : ℕ
  pub head : ℕ
  pub tail : ℕ
  pub count : ℕ
  pub shutdown : Bool
  pub started : ℕ
  pub locked : Bool

-- Whether pthread_mutex_lock, pthread_cond_signal or pthread_cond_broadcast, and
-- pthread_mutex_unlock return 0.
pub record Calls : Type 0 where
  pub lock : Bool
  pub notify : Bool
  pub unlock : Bool

-- How a thread leaves the critical section of its loop.
pub data Turn (A : Type 0) : Type 0 where
  wait : Turn A
  exit : Pool A → Turn A
  run : Option A → Pool A → Turn A

-- How thread_pool_destroy leaves its critical section: with a result, and whether the pool is freed;
-- or to join the threads.
pub data Closing (A : Type 0) : Type 0 where
  returned : Error → Bool → Pool A → Closing A
  joining : Pool A → Closing A

-- The result after the joins, and whether the pool is freed.
pub end_destroy : Bool → List Bool → Error × Bool
end_destroy flags [] = (success, true)
end_destroy flags (joined ∷ rest) =
    let (err, freed) = end_destroy flags rest in
    if joined then (err, freed) else (thread_failure, flags)

module _ {A : Type 0} where
  -- One turn of thread_worker, up to the call of the task.
  pub thread_worker : Pool A → Turn A
  thread_worker p =
      if p.count == 0 && not p.shutdown
      then wait
      else if p.shutdown && p.count == 0
      then exit (record p { started = p.started - 1 })
      else run (get_or p.queue p.head none)
          (record p { head = (p.head + 1) % p.queue_size; count = p.count - 1 })

  -- The loop that creates the threads: `created` is whether pthread_create returns 0.
  pub start_threads : ℕ → (ℕ → Bool) → Pool A → Option (Pool A)
  start_threads zero created p = some p
  start_threads (suc n) created p =
      let rest = start_threads n created (record p { started = p.started + 1 }) in
      if created p.started then rest else none

  -- The pool before its threads are created.
  abbrev pub new_pool : ℕ → ℕ → Pool A
  new_pool thread_count queue_size = record {
    queue = replicate queue_size none;
    thread_count = thread_count;
    queue_size = queue_size;
    head = 0;
    tail = 0;
    count = 0;
    shutdown = false;
    started = 0;
    locked = false;
  }

  -- 0 is a count that is not positive. `ready` is whether memory and the two initialisers succeed.
  pub thread_pool_create : ℕ → ℕ → Bool → (ℕ → Bool) → Option (Pool A)
  unfolding start_threads
  thread_pool_create thread_count queue_size ready created =
      if thread_count == 0 || queue_size == 0
      then none
      else if not ready
      then none
      else start_threads thread_count created (new_pool thread_count queue_size)

  -- The branches of thread_pool_add under the lock.
  pub enqueue : Pool A → A → Calls → Pool A × Error
  enqueue p task calls =
      if p.count == p.queue_size then (p, queue_full) else if p.shutdown then (p, shut_down) else (
        record p {
          queue = set p.queue p.tail (some task);
          tail = (p.tail + 1) % p.queue_size;
          count = p.count + 1;
        },
        if calls.notify then success else lock_failure,
      )

  -- A missing task is a function that is NULL.
  pub thread_pool_add : Option (Pool A) → Option A → Calls → Option (Pool A) × Error
  unfolding enqueue
  thread_pool_add none task calls = (none, invalid)
  thread_pool_add (some p) none calls = (some p, invalid)
  thread_pool_add (some p) (some task) calls =
      let (q, err) = enqueue p task calls in
      if not calls.lock
      then (some p, lock_failure)
      else (some q, if calls.unlock then err else lock_failure)

  -- thread_pool_destroy up to the joins. Where the pool is shut down already, it returns with the
  -- mutex held, or with `flags` destroys the mutex and frees the pool. Where a call fails after the
  -- lock, it returns with the mutex held.
  pub begin_destroy : Pool A → Bool → Calls → Closing A
  begin_destroy p flags calls =
      if not calls.lock
      then returned lock_failure false p
      else if p.shutdown
      then returned shut_down flags (record p { locked = not flags })
      else if not (calls.notify && calls.unlock)
      then returned lock_failure false (record p { shutdown = true; locked = true })
      else joining (record p { shutdown = true })
