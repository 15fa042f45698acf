-- ===== src/ThreadPool/System.antt =====
-- The threads of a pool and its callers as a step relation. A step is one critical section, or the
-- end of a task.
pub mod Fifo
use x_server.Prelude.{
  ℕ, zero, suc, ◌+◌, ◌-◌, ◌≤◌, ◌<◌, ◌≡◌, ◌≢◌, refl, sym, ap, ◌∙◌, inl, inr, Bool, true, false, ◌⊎◌,
  Bool-cases, Option, none, some, List, [], ◌∷◌, ◌++◌, ltb, if◌then◌else◌, arith, length, get_or,
  set, replicate, map, All, All-set, All-imp, All-get_or, All-replicate, append_assoc, append-nil,
  length-append,
}
use x_server.ThreadPool.{
  Pool, Error, Turn, wait, exit, run, Calls, Closing, joining, thread_worker, thread_pool_add,
  thread_pool_create, start_threads, begin_destroy,
}
use x_server.ThreadPool.Ring.{
  Holds, TurnOf, add_task, thread_pool_add_refines, thread_worker-TurnOf,
}

-- Where a thread stands: before its next turn, in a task, or out of its loop.
pub data Phase (A : Type 0) : Type 0 where
  waiting exited : Phase A
  running : Option A → Phase A

-- `accepted` are the tasks that were put into the queue, and `begun` what the threads have taken out
-- of it, both in the order of time.
pub record System (A : Type 0) : Type 0 where
  pub pool : Pool A
  pub threads : List (Phase A)
  pub accepted : List A
  pub begun : List (Option A)

module _ {A : Type 0} where
  abbrev pub init_system : Pool A → System A
  init_system p = record {
    pool = p;
    threads = replicate p.started waiting;
    accepted = [];
    begun = [];
  }

  abbrev pub keep_pool : Pool A → Option (Pool A) → Pool A
  keep_pool p none = p
  keep_pool p (some q) = q

  -- A call of thread_pool_add has put its task into the queue if the count has risen.
  abbrev pub newly_accepted : Pool A → Pool A → Option A → List A
  newly_accepted p q none = []
  newly_accepted p q (some task) = if ltb p.count q.count then task ∷ [] else []

  abbrev pub after_add : System A → Option A → Calls → System A
  after_add s task calls =
      let q = keep_pool s.pool (thread_pool_add (some s.pool) task calls).0 in
      record s { pool = q; accepted = s.accepted ++ newly_accepted s.pool q task }

  abbrev pub after_turn : System A → ℕ → Turn A → System A
  after_turn s i wait = s
  after_turn s i (exit q) = record s { pool = q; threads = set s.threads i exited }
  after_turn s i (run task q) = record s {
    pool = q;
    threads = set s.threads i (running task);
    begun = s.begun ++ task ∷ [];
  }

  pub data Step : System A → System A → Type 0 where
    add : (s : System A) (task : Option A) (calls : Calls) → Step s (after_add s task calls)
    turn :
        (s : System A) (i : ℕ)
        → get_or s.threads i exited ≡ waiting
        → Step s (after_turn s i (thread_worker s.pool))
    finish :
        (s : System A) (i : ℕ) (task : Option A)
        → get_or s.threads i exited ≡ running task
        → Step s (record s { threads = set s.threads i waiting })
    close :
        (s : System A) (flags : Bool) (calls : Calls) (q : Pool A)
        → begin_destroy s.pool flags calls ≡ joining q
        → Step s (record s { pool = q })

  -- The states that a new pool can come to.
  pub data Reachable : System A → Type 0 where
    start :
        (thread_count queue_size : ℕ) (ready : Bool) (created : ℕ → Bool) (p : Pool A)
        → thread_pool_create thread_count queue_size ready created ≡ some p
        → Reachable (init_system p)
    step : (s t : System A) → Reachable s → Step s t → Reachable t

  -- A thread leaves its loop only where the pool is shut down and holds no task.
  abbrev pub IsDone : Bool → List A → Phase A → Type 0
  IsDone shutdown xs exited = (shutdown ≡ true) × (xs ≡ [])
  IsDone shutdown xs _ = Unit

  pub record IsValid (s : System A) : Type 0 where
    pub tasks : List A
    pub pool : Holds s.pool tasks
    pub order : map some s.accepted ≡ s.begun ++ map some tasks
    pub done : All (IsDone s.pool.shutdown tasks) s.threads
