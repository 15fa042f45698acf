-- ===== src/SharedMemory.antt =====
-- src/shared_memory.c: what the processes share. include/shared_memory.h. Each operation is one step
-- under its semaphore, which is there; the segments are attached.
pub mod Routes
mod Tests
use x_server.Prelude.{
  ℕ, ◌+◌, ◌^◌, ◌%◌, Bool, true, false, ◌&&◌, Option, List, [], ◌∷◌, map, ltb, leb, if◌then◌else◌,
  length, get_or, set, take, sum_by, replicate,
}
use x_server.Routes.{Route}
use x_server.Config.Settings.{Config}

-- shared_config_t
pub record SharedConfig : Type 0 where
  pub version : ℕ
  pub update_time : ℕ
  pub config : Config

-- strncpy with a NUL behind: a longer text loses its end.
unfoldable pub share_route : Route → Route
share_route r = record r {
  path_prefix = take 255 r.path_prefix;
  target_host = take 255 r.target_host;
  local_path = take 511 r.local_path;
  charset = take 31 r.charset;
}

-- `version` is an `int`, and counts the reloads.
unfoldable pub update_shared_config : SharedConfig → ℕ → Config → SharedConfig
update_shared_config s now config = record {
  version = s.version + 1;
  update_time = now;
  config =
      if ltb 0 (length config.routes) && leb (length config.routes) 64
      then record config { routes = map share_route config.routes }
      else config;
}

-- The caller gets a copy.
abbrev pub get_shared_config : SharedConfig → Config
get_shared_config s = s.config

-- One element of the array `workers`; a pid of 0 is a free one.
pub record WorkerStats : Type 0 where
  pub pid : ℕ
  pub requests : ℕ
  pub bytes_sent : ℕ
  pub bytes_received : ℕ
  pub active_connections : ℕ
  pub last_update : ℕ

-- shared_stats_t
pub record SharedStats : Type 0 where
  pub workers : List WorkerStats
  pub total_requests : ℕ
  pub total_bytes_sent : ℕ
  pub total_bytes_received : ℕ
  pub active_connections : ℕ

abbrev pub sum_used : (WorkerStats → ℕ) → List WorkerStats → ℕ
sum_used field ws = sum_by (λ (w : WorkerStats). if ltb 0 w.pid then field w else 0) ws

-- Sums of uint64_t and, for the connections, of uint32_t.
unfoldable pub update_worker_stats : SharedStats → ℕ → WorkerStats → SharedStats × Bool
update_worker_stats s worker_id stats =
    let workers = set s.workers worker_id stats in
    if leb 32 worker_id then (s, false) else (
      record {
        workers = workers;
        total_requests = sum_used (λ (w : WorkerStats). w.requests) workers % 2 ^ 64;
        total_bytes_sent = sum_used (λ (w : WorkerStats). w.bytes_sent) workers % 2 ^ 64;
        total_bytes_received = sum_used (λ (w : WorkerStats). w.bytes_received) workers % 2 ^ 64;
        active_connections = sum_used (λ (w : WorkerStats). w.active_connections) workers % 2 ^ 32;
      },
      true,
    )
