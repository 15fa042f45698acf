-- ===== src/Master.antt =====
-- src/master_process.c: the supervision of the worker processes. include/master_process.h. The system
-- is an argument: what fork gives for each spawn, which processes waitpid reports, the clock.
pub mod Workers
pub mod Monitor
mod Tests
use x_server.Prelude.{
  ℕ, zero, suc, ◌+◌, ◌-◌, Bool, true, false, not, ◌&&◌, Option, none, some, List, [], ◌∷◌, ltb,
  if◌then◌else◌, length,
}

-- master_state_t
pub data MasterState : Type 0 where
  starting running reloading stopping stopped : MasterState

-- worker_process_t, with the id that the process was started with.
pub record Worker : Type 0 where
  pub worker_id : ℕ
  pub pid : ℕ
  pub start_time : ℕ

-- master_context_t with the flags that the signals set, and the counter of monitor_worker_processes.
pub record Master : Type 0 where
  pub state : MasterState
  pub workers : List Worker
  pub worker_count : ℕ
  pub total_workers_spawned : ℕ
  pub config_reload_count : ℕ
  pub worker_id_counter : ℕ
  pub reload_config : Bool
  pub shutdown_server : Bool
  pub terminate_server : Bool
  pub worker_exited : Bool

-- SIGHUP; SIGTERM and SIGINT; SIGQUIT; SIGCHLD.
pub data Signal : Type 0 where
  hup term quit child : Signal

unfoldable pub master_signal_handler : Signal → Master → Master
master_signal_handler hup m = record m { reload_config = true }
master_signal_handler term m = record m { shutdown_server = true }
master_signal_handler quit m = record m { terminate_server = true }
master_signal_handler child m = record m { worker_exited = true }

-- The process of a fork, by the number of spawns before it; none if it fails.
abbrev pub Forks : Type 0
Forks = ℕ → Option ℕ

-- In the master, where malloc succeeds. The new worker becomes the head of the list.
unfoldable pub spawn_worker_process : Forks → ℕ → ℕ → Master → Option Master
spawn_worker_process fork now id m = elim (fork m.total_workers_spawned) [
  | none ↦ none
  | some pid ↦ some (record m {
    workers = record { worker_id = id; pid = pid; start_time = now } ∷ m.workers;
    total_workers_spawned = m.total_workers_spawned + 1;
  })
]

-- The processes that waitpid reports leave the list.
unfoldable pub remove_exited : (ℕ → Bool) → List Worker → List Worker
remove_exited exited [] = []
remove_exited exited (w ∷ ws) =
    let rest = remove_exited exited ws in if exited w.pid then rest else w ∷ rest

unfoldable pub cleanup_dead_workers : (ℕ → Bool) → Master → Master
cleanup_dead_workers exited m = record m { workers = remove_exited exited m.workers }

abbrev pub is_running : MasterState → Bool
is_running running = true
is_running _ = false

-- The loop of monitor_worker_processes, for as many workers as are missing. It ends at a failure.
unfoldable pub spawn_missing : ℕ → Forks → ℕ → Master → Master
spawn_missing zero fork now m = m
spawn_missing (suc missing) fork now m =
    let counted = record m { worker_id_counter = m.worker_id_counter + 1 } in
    if is_running m.state
    then (elim (spawn_worker_process fork now m.worker_id_counter counted) [
      | none ↦ counted
      | some next ↦ spawn_missing missing fork now next
    ])
    else m

unfoldable pub monitor_worker_processes : (ℕ → Bool) → Forks → ℕ → Master → Master
monitor_worker_processes exited fork now m =
    let left = cleanup_dead_workers exited m in
    spawn_missing (left.worker_count - length left.workers) fork now left

-- Whether load_config and update_shared_config succeed. Every worker gets SIGHUP.
unfoldable pub reload_configuration : Bool → Master → Master
reload_configuration succeeds m =
    if succeeds
    then record m { state = running; config_reload_count = m.config_reload_count + 1 }
    else record m { state = running }

-- What the system gives in one turn: which processes have exited, at both calls, and the rest.
pub record Turn : Type 0 where
  pub exited_first : ℕ → Bool
  pub exited : ℕ → Bool
  pub fork : Forks
  pub now : ℕ
  pub reload_succeeds : Bool

-- How a turn ends: with the next one, or with the shutdown of the workers.
pub data TurnEnd : Type 0 where
  goes_on shuts_down terminates : Master → TurnEnd

unfoldable pub watch_workers : Turn → Master → Master
watch_workers t m =
    let told = record m { worker_exited = false } in
    monitor_worker_processes t.exited t.fork t.now
      (if m.worker_exited then monitor_worker_processes t.exited_first t.fork t.now told else m)

unfoldable pub check_reload : Turn → Master → Master
check_reload t m =
    if m.reload_config
    then reload_configuration t.reload_succeeds (record m { reload_config = false })
    else m

-- One turn of the loop of master_process_run.
unfoldable pub master_turn : Turn → Master → TurnEnd
master_turn t m =
    let r = check_reload t m in
    if r.shutdown_server
    then shuts_down (record r { shutdown_server = false; state = stopping })
    else if r.terminate_server
    then terminates (record r { terminate_server = false; state = stopping })
    else goes_on (watch_workers t r)

-- The first workers, with the ids from `id` on; none if a fork fails.
unfoldable pub start_workers : ℕ → ℕ → Forks → ℕ → Master → Option Master
start_workers zero id fork now m = some m
start_workers (suc n) id fork now m = elim (spawn_worker_process fork now id m) [
  | none ↦ none
  | some next ↦ start_workers n (suc id) fork now next
]
