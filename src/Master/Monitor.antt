-- ===== src/Master/Monitor.antt =====
-- monitor_worker_processes and the turns of master_process_run.
use x_server.Prelude.{
  ℕ, ◌-◌, ◌≤◌, ◌<◌, ◌≡◌, refl, ◌∙◌, Bool, true, false, if◌then◌else◌, arith, length,
}
use x_server.Master.{
  running, Master, Forks, remove_exited, cleanup_dead_workers, monitor_worker_processes,
  reload_configuration, Turn, goes_on, watch_workers, check_reload, master_turn,
}
use x_server.Master.Workers.{
  Succeeds, length-remove_exited, spawn_missing_fills, spawn_missing_id, with_id,
}

-- A running master with no more workers than it wants.
pub record Supervises (m : Master) : Type 0 where
  pub state : m.state ≡ running
  pub count : length m.workers ≤ m.worker_count

monitor_fills :
    (exited : ℕ → Bool) (fork : Forks) (now : ℕ) (m : Master)
    → Succeeds fork
    → Supervises m
    → let after = monitor_worker_processes exited fork now m in
      (length after.workers ≡ m.worker_count)
      × (after.state ≡ running)
      × (after.worker_count ≡ m.worker_count)
unfolding monitor_worker_processes cleanup_dead_workers
monitor_fills exited fork now m f s =
    let left = cleanup_dead_workers exited m in
    let fewer = length-remove_exited exited m.workers in
    let (n, r, c, _) =
      spawn_missing_fills (m.worker_count - length left.workers) fork now left f s.state in
    (omega (arith, n, fewer, s.count), r, c)

check_reload-Supervises : (t : Turn) (m : Master) → Supervises m → Supervises (check_reload t m)
unfolding check_reload reload_configuration
check_reload-Supervises t m s = record {
  state = ground (arith, s.state);
  count = ground (arith, s.count);
}

check_reload_lem :
    (t : Turn) (m : Master)
    → ((check_reload t m).worker_count ≡ m.worker_count)
      × ((check_reload t m).shutdown_server ≡ m.shutdown_server)
      × ((check_reload t m).terminate_server ≡ m.terminate_server)
unfolding check_reload reload_configuration
check_reload_lem t m = ground arith

monitored-Supervises :
    (m after : Master)
    → (length after.workers ≡ m.worker_count)
      × (after.state ≡ running)
      × (after.worker_count ≡ m.worker_count)
    → Supervises after
monitored-Supervises m after (n, r, c) = record { state = r; count = omega (arith, n, c) }

picked-Supervises :
    (told : Bool) (m after : Master)
    → Supervises m
    → Supervises after
    → after.worker_count ≡ m.worker_count
    → Supervises (if told then after else m)
      × ((if told then after else m).worker_count ≡ m.worker_count)
picked-Supervises true m after s q c = (q, c)
picked-Supervises false m after s q c = (s, refl)

watch_workers-fills :
    (t : Turn) (m : Master)
    → Succeeds t.fork
    → Supervises m
    → (length (watch_workers t m).workers ≡ m.worker_count) × Supervises (watch_workers t m)
unfolding watch_workers
watch_workers-fills t m f s =
    let told : Master = record m { worker_exited = false } in
    let once = monitor_worker_processes t.exited_first t.fork t.now told in
    let first =
      monitor_fills t.exited_first t.fork t.now told f
        (record { state = s.state; count = s.count }) in
    let (q, c) =
      picked-Supervises m.worker_exited m once s (monitored-Supervises m once first) first.2 in
    let twice = monitor_fills t.exited t.fork t.now (if m.worker_exited then once else m) f q in
    (
      twice.0 ∙ c,
      monitored-Supervises (if m.worker_exited then once else m) (watch_workers t m) twice,
    )

-- Workers that exit are replaced. A running master has at most the workers that it wants, no flag to
-- stop is set, and the forks of the turn succeed: then the turn of the main loop goes on, and the
-- master has all its workers at the end of it, whatever exited before and whether or not it was told
-- to reload.
pub master_turn-fills :
    (t : Turn) (m : Master)
    → Succeeds t.fork
    → Supervises m
    → m.shutdown_server ≡ false
    → m.terminate_server ≡ false
    → (after : Master) × (master_turn t m ≡ goes_on after)
      × (length after.workers ≡ m.worker_count)
      × Supervises after
unfolding master_turn
master_turn-fills t m f s h k =
    let r = check_reload t m in
    let (c, sd, te) = check_reload_lem t m in
    let (n, q) = watch_workers-fills t r f (check_reload-Supervises t m s) in
    (watch_workers t r, ground (arith, sd, te, h, k), n ∙ c, q)

-- The ids of replaced workers are counted apart from those of the first ones. If a running master
-- misses a worker, its forks succeed, and one of the workers that are left has the id of the counter,
-- then two workers have that id after the call of monitor_worker_processes.
pub monitor_doubles_id :
    (exited : ℕ → Bool) (fork : Forks) (now : ℕ) (m : Master)
    → Succeeds fork
    → m.state ≡ running
    → length (remove_exited exited m.workers) < m.worker_count
    → 1 ≤ with_id m.worker_id_counter (remove_exited exited m.workers)
    → 2 ≤ with_id m.worker_id_counter (monitor_worker_processes exited fork now m).workers
unfolding monitor_worker_processes cleanup_dead_workers
monitor_doubles_id exited fork now m f r h k =
    let left = cleanup_dead_workers exited m in
    omega (
      arith,
      k,
      spawn_missing_id (m.worker_count - length left.workers) fork now left f r (omega (arith, h)),
    )
