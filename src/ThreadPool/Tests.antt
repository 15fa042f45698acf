-- ===== src/ThreadPool/Tests.antt =====
-- Runs and instances of the theorems on the thread pool. The tasks are numbers.
use x_server.Prelude.{
  ℕ, ◌≡◌, refl, true, false, some, none, List, [], ◌∷◌, ◌++◌, map, arith, length, get_or,
}
use x_server.ThreadPool.{
  Pool, Calls, new_pool, start_threads, thread_pool_create, thread_pool_add, enqueue, thread_worker,
  begin_destroy, joining, returned, end_destroy, success, queue_full, shut_down, thread_failure,
}
use x_server.ThreadPool.Create.{thread_pool_create-Holds}
use x_server.ThreadPool.Ring.{Holds, thread_pool_add_refines}
use x_server.ThreadPool.System.{
  System, init_system, after_add, after_turn, Reachable, start, step, add, turn, close, waiting,
  exited,
}
use x_server.ThreadPool.System.Fifo.{Reachable-fifo, Reachable-drained}
use x_server.ThreadPool.Drain.{waits, worker_loop, worker_loop-drains}

abbrev all_ok : Calls
all_ok = record { lock = true; notify = true; unlock = true }

-- Two threads and two slots.
abbrev small_pool : Pool ℕ
small_pool = record (new_pool 2 2) { started = 2 }

small_pool_created : thread_pool_create 2 2 true (λ i. true) ≡ some small_pool
unfolding thread_pool_create start_threads
small_pool_created = refl

-- The ring goes round: after two tasks are added and one is taken, the third goes to slot 0.
abbrev fed_pool : Pool ℕ
fed_pool = record small_pool { queue = some 7 ∷ some 8 ∷ []; count = 2 }

add_two :
    thread_pool_add (thread_pool_add (some small_pool) (some 7) all_ok).0 (some 8) all_ok
    ≡ (some fed_pool, success)
unfolding thread_pool_add enqueue
add_two = refl

add_full : thread_pool_add (some fed_pool) (some 9) all_ok ≡ (some fed_pool, queue_full)
unfolding thread_pool_add enqueue
add_full = refl

end_destroy_failed : end_destroy false (true ∷ false ∷ []) ≡ (thread_failure, false)
unfolding end_destroy
end_destroy_failed = refl

small_pool-Holds : Holds small_pool []
small_pool-Holds = (thread_pool_create-Holds 2 2 true (λ i. true) small_pool_created).0

fed_pool-Holds : Holds fed_pool (7 ∷ 8 ∷ [])
fed_pool-Holds = record {
  size = refl;
  at_head = omega arith;
  fits = omega arith;
  counted = refl;
  at_tail = refl;
  tasks = (refl, (refl, tt));
}

thread_pool_add_refines_example :
    (q : Pool ℕ) × (thread_pool_add (some small_pool) (some 7) all_ok ≡ (some q, success))
    × Holds q (7 ∷ [])
    × (q.shutdown ≡ false)
thread_pool_add_refines_example =
    thread_pool_add_refines small_pool [] (some 7) all_ok small_pool-Holds

-- One task is added, the pool is shut down, thread 0 takes the task, and thread 1 leaves.
abbrev started_system : System ℕ
started_system = init_system small_pool

abbrev fed_system : System ℕ
fed_system = after_add started_system (some 7) all_ok

abbrev closed_pool : Pool ℕ
closed_pool = record small_pool { queue = some 7 ∷ none ∷ []; tail = 1; count = 1; shutdown = true }

abbrev closed_system : System ℕ
closed_system = record fed_system { pool = closed_pool }

abbrev busy_system : System ℕ
busy_system = after_turn closed_system 0 (thread_worker closed_system.pool)

abbrev left_system : System ℕ
left_system = after_turn busy_system 1 (thread_worker busy_system.pool)

fed_system_closes : begin_destroy fed_system.pool false all_ok ≡ joining closed_pool
unfolding begin_destroy thread_pool_add enqueue
fed_system_closes = refl

left_system-Reachable : Reachable left_system
unfolding thread_worker
left_system-Reachable =
    step busy_system left_system
      (step closed_system busy_system
        (step fed_system closed_system
          (step started_system fed_system (start 2 2 true (λ i. true) small_pool small_pool_created)
            (add started_system (some 7) all_ok))
          (close fed_system false all_ok closed_pool fed_system_closes))
        (turn closed_system 0 refl))
      (turn busy_system 1 refl)

left_system_left : get_or left_system.threads 1 waiting ≡ exited
unfolding thread_worker
left_system_left = refl

Reachable-fifo_example :
    (xs : List ℕ) × (map some left_system.accepted ≡ left_system.begun ++ map some xs)
    × (left_system.pool.count ≡ length xs)
Reachable-fifo_example = Reachable-fifo left_system left_system-Reachable

Reachable-drained_example :
    (left_system.pool.shutdown ≡ true) × (left_system.begun ≡ map some left_system.accepted)
Reachable-drained_example = Reachable-drained left_system 1 left_system-Reachable left_system_left

worker_loop-drains_example :
    (q : Pool ℕ) × Holds q [] × (worker_loop 3 fed_pool [] ≡ waits (some 7 ∷ some 8 ∷ []) q)
worker_loop-drains_example =
    worker_loop-drains 3 fed_pool (7 ∷ 8 ∷ []) [] fed_pool-Holds (omega arith)

-- A second call on a pool that is shut down.
second_destroy :
    begin_destroy closed_pool false all_ok
    ≡ returned shut_down false (record closed_pool { locked = true })
unfolding begin_destroy
second_destroy = refl
