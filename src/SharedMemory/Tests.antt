-- ===== src/SharedMemory/Tests.antt =====
-- Runs and instances of the theorems on the shared memory.
use x_server.Prelude.{◌≡◌, refl, false, arith, length, replicate}
use x_server.Config.Settings.{initial_config, default_route}
use x_server.SharedMemory.{
  SharedConfig, share_route, WorkerStats, SharedStats, update_shared_config, get_shared_config,
  update_worker_stats,
}
use x_server.SharedMemory.Routes.{shared_config_roundtrip}

abbrev shared : SharedConfig
shared = record { version = 1; update_time = 0; config = initial_config 4 }

shared_config_roundtrip_example :
    get_shared_config (update_shared_config shared 9 (initial_config 4)) ≡ initial_config 4
unfolding initial_config
shared_config_roundtrip_example = shared_config_roundtrip shared 9 (initial_config 4) (
  record {
    path_prefix = omega arith;
    target_host = omega arith;
    local_path = omega arith;
    charset = omega arith;
  },
  tt,
)

-- A prefix of 300 bytes is cut.
cuts_prefix :
    length (share_route (record default_route { path_prefix = replicate 300 47 })).path_prefix ≡ 255
unfolding share_route
cuts_prefix = refl

abbrev free : WorkerStats
free = record {
  pid = 0;
  requests = 0;
  bytes_sent = 0;
  bytes_received = 0;
  active_connections = 0;
  last_update = 0;
}

abbrev busy : WorkerStats
busy = record free { pid = 100; requests = 7; bytes_sent = 20 }

abbrev no_workers : SharedStats
no_workers = record {
  workers = replicate 32 free;
  total_requests = 0;
  total_bytes_sent = 0;
  total_bytes_received = 0;
  active_connections = 0;
}

sums_workers :
    (update_worker_stats (update_worker_stats no_workers 3 busy).0 31 busy).0.total_requests ≡ 14
unfolding update_worker_stats
sums_workers = refl

refuses_id : (update_worker_stats no_workers 32 busy).1 ≡ false
unfolding update_worker_stats
refuses_id = refl
