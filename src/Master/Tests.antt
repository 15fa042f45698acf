-- ===== src/Master/Tests.antt =====
-- Runs and instances of the theorems on the master process.
use x_server.Prelude.{ℕ, ◌+◌, ◌≤◌, ◌≡◌, refl, Bool, true, false, some, [], ◌∷◌, ◌==◌, arith, length}
use x_server.Master.{
  running, Master, Forks, Turn, goes_on, spawn_worker_process, start_workers, remove_exited,
  monitor_worker_processes, master_turn,
}
use x_server.Master.Workers.{with_id}
use x_server.Master.Monitor.{Supervises, master_turn-fills, monitor_doubles_id}

abbrev forks : Forks
forks n = some (100 + n)

abbrev before : Master
before = record {
  state = running;
  workers = [];
  worker_count = 2;
  total_workers_spawned = 0;
  config_reload_count = 0;
  worker_id_counter = 0;
  reload_config = false;
  shutdown_server = false;
  terminate_server = false;
  worker_exited = false;
}

abbrev two_workers : Master
two_workers = record before {
  workers =
      record { worker_id = 1; pid = 101; start_time = 5 }
      ∷ record { worker_id = 0; pid = 100; start_time = 5 }
      ∷ [];
  total_workers_spawned = 2;
}

starts_two : start_workers 2 0 forks 5 before ≡ some two_workers
unfolding start_workers spawn_worker_process
starts_two = refl

-- The process with the id 1 exits.
abbrev one_exits : ℕ → Bool
one_exits pid = pid == 101

abbrev turn : Turn
turn = record {
  exited_first = one_exits;
  exited = one_exits;
  fork = forks;
  now = 9;
  reload_succeeds = true;
}

master_turn-fills_example :
    (after : Master) × (master_turn turn two_workers ≡ goes_on after)
    × (length after.workers ≡ 2)
    × Supervises after
master_turn-fills_example =
    master_turn-fills turn two_workers (λ n. (100 + n, refl))
      (record { state = refl; count = omega arith }) refl refl

monitor_doubles_id_example :
    2 ≤ with_id 0 (monitor_worker_processes one_exits forks 9 two_workers).workers
unfolding remove_exited
monitor_doubles_id_example =
    monitor_doubles_id one_exits forks 9 two_workers (λ n. (100 + n, refl)) refl (omega arith)
      (omega arith)
