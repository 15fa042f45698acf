-- ===== src/Master/Workers.antt =====
-- The list of workers after a clean-up and after spawns.
use x_server.Prelude.{
  ℕ, zero, suc, ◌+◌, ◌≤◌, ◌≡◌, refl, inl, inr, Bool, Option-cases, some, List, [], ◌∷◌, ◌==◌,
  if◌then◌else◌, arith, length,
}
use x_server.Master.{
  running, Worker, Master, Forks, spawn_worker_process, remove_exited, spawn_missing,
}

pub length-remove_exited :
    (exited : ℕ → Bool) (ws : List Worker) → length (remove_exited exited ws) ≤ length ws
unfolding remove_exited
length-remove_exited exited [] = omega arith
length-remove_exited exited (w ∷ ws) = ground (arith, length-remove_exited exited ws)

-- The forks succeed from one number of spawns on.
abbrev pub Succeeds : Forks → Type 0
Succeeds fork = (n : ℕ) → (pid : ℕ) × (fork n ≡ some pid)

-- While the master runs and the forks succeed, all missing workers are started.
pub spawn_missing_fills :
    (missing : ℕ) (fork : Forks) (now : ℕ) (m : Master)
    → Succeeds fork
    → m.state ≡ running
    → let after = spawn_missing missing fork now m in
      (length after.workers ≡ missing + length m.workers)
      × (after.state ≡ running)
      × (after.worker_count ≡ m.worker_count)
      × (after.total_workers_spawned ≡ m.total_workers_spawned + missing)
unfolding spawn_missing spawn_worker_process
spawn_missing_fills zero fork now m f r = (omega arith, r, refl, omega arith)
spawn_missing_fills (suc missing) fork now m f r =
    let (pid, e) = f m.total_workers_spawned in
    let next : Master = record m {
      workers = record { worker_id = m.worker_id_counter; pid = pid; start_time = now } ∷ m.workers;
      total_workers_spawned = m.total_workers_spawned + 1;
      worker_id_counter = m.worker_id_counter + 1;
    } in
    let (n, s, c, t) = spawn_missing_fills missing fork now next f r in
    ground (arith, r, e, n, s, c, t)

-- How many workers have an id.
abbrev pub with_id : ℕ → List Worker → ℕ
with_id id [] = 0
with_id id (w ∷ ws) = (if w.worker_id == id then 1 else 0) + with_id id ws

spawn_missing_keeps :
    (missing : ℕ) (fork : Forks) (now : ℕ) (m : Master) (id : ℕ)
    → with_id id m.workers ≤ with_id id (spawn_missing missing fork now m).workers
unfolding spawn_missing spawn_worker_process
spawn_missing_keeps zero fork now m id = omega arith
spawn_missing_keeps (suc missing) fork now m id =
    elim (Option-cases (fork m.total_workers_spawned)) [
      | inl e ↦ ground (arith, e)
      | inr (pid, e) ↦
          let next : Master = record m {
            workers =
                record { worker_id = m.worker_id_counter; pid = pid; start_time = now } ∷ m.workers;
            total_workers_spawned = m.total_workers_spawned + 1;
            worker_id_counter = m.worker_id_counter + 1;
          } in
          ground (arith, e, spawn_missing_keeps missing fork now next id)
    ]

-- The first worker that is missing gets the id of the counter.
pub spawn_missing_id :
    (missing : ℕ) (fork : Forks) (now : ℕ) (m : Master)
    → Succeeds fork
    → m.state ≡ running
    → 1 ≤ missing
    → suc (with_id m.worker_id_counter m.workers)
      ≤ with_id m.worker_id_counter (spawn_missing missing fork now m).workers
unfolding spawn_missing spawn_worker_process
spawn_missing_id zero fork now m f r h = absurd (omega arith)
spawn_missing_id (suc missing) fork now m f r h =
    let (pid, e) = f m.total_workers_spawned in
    let next : Master = record m {
      workers = record { worker_id = m.worker_id_counter; pid = pid; start_time = now } ∷ m.workers;
      total_workers_spawned = m.total_workers_spawned + 1;
      worker_id_counter = m.worker_id_counter + 1;
    } in
    ground (arith, r, e, spawn_missing_keeps missing fork now next m.worker_id_counter)
