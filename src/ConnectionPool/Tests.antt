-- ===== src/ConnectionPool/Tests.antt =====
-- Runs and instances of the theorems on the connection pool.
use x_server.Prelude.{◌-◌, ◌^◌, ◌≤◌, ◌<◌, ◌≡◌, ◌⊎◌, refl, true, false, none, some, [], ◌∷◌, length}
use x_server.ConnectionPool.{
  PoolConfig, ConnectionPool, deadlocks, returns, overflows, connection_pool_create, add_connection,
  create_in_pool, connection_pool_get_connection, connection_pool_close_connection,
  connection_pool_return_connection, connection_pool_set_config, connection_pool_cleanup_idle,
  closed_pool, put_idle, finish_return, remove_connection, remove_idle,
}
use x_server.ConnectionPool.Valid.{contains, IsValid}
use x_server.ConnectionPool.Calls.{System, nobody, update, Reaches, created, got, tested, finished}
use x_server.ConnectionPool.Counts.{finish_return-races}
use x_server.ConnectionPool.Cleanup.{connection_pool_cleanup_idle-deadlocks}

abbrev config : PoolConfig
config = record {
  max_connections = 2;
  min_idle_connections = 0;
  max_idle_connections = 2;
  connection_timeout = 30;
  idle_timeout = 60;
  keepalive_timeout = 30;
  max_requests_per_conn = 1000;
  enable_connection_reuse = true;
  enable_connection_pooling = true;
  pool_cleanup_interval = 30;
}

-- Two connections are opened, and one of them is returned.
abbrev one : ConnectionPool
one = add_connection (connection_pool_create config) 100

abbrev two : ConnectionPool
two = add_connection one 200

abbrev half_idle : ConnectionPool
half_idle = put_idle two 100

abbrev alone : ConnectionPool → System
alone pool = record { pool = pool; returning = nobody }

-- The first of them is behind the test of its return.
abbrev half_tested : System
half_tested = record { pool = two; returning = update nobody 100 (some true) }

abbrev half_returned : System
half_returned = record { pool = half_idle; returning = update half_tested.returning 100 none }

-- Room for one idle connection, and two returns that have both found it free.
abbrev small_config : PoolConfig
small_config = record config { max_idle_connections = 1 }

abbrev small_two : ConnectionPool
small_two = add_connection (add_connection (connection_pool_create small_config) 100) 200

abbrev first_tested : System
first_tested = record { pool = small_two; returning = update nobody 100 (some true) }

abbrev both_tested : System
both_tested = record { pool = small_two; returning = update first_tested.returning 200 (some true) }

abbrev raced : System
raced = record { pool = put_idle small_two 100; returning = update both_tested.returning 100 none }

small_two-Reaches : Reaches small_config (alone small_two)
unfolding connection_pool_get_connection create_in_pool
small_two-Reaches =
    got (alone (add_connection (connection_pool_create small_config) 100)) small_two (some 200)
      (some 200)
      (got (alone (connection_pool_create small_config))
        (add_connection (connection_pool_create small_config) 100) (some 100) (some 100) created
        refl)
      refl

raced-Reaches : Reaches small_config raced
unfolding finish_return contains
raced-Reaches =
    finished both_tested (put_idle small_two 100) 100 true
      (tested first_tested 200
        (tested (alone small_two) 100 small_two-Reaches
          (record { active = record { in_pool = refl; not_idle = refl }; kept = refl }))
        (record { active = record { in_pool = refl; not_idle = refl }; kept = refl }))
      refl refl

finish_return-races_example :
    ((true ≡ true)
      × (length raced.pool.idle ≡ small_config.max_idle_connections)
      × (finish_return true raced.pool 200 ≡ deadlocks))
    ⊎ (((true ≡ false) ⊎ (length raced.pool.idle < small_config.max_idle_connections))
        × ((q : ConnectionPool) × (finish_return true raced.pool 200 ≡ returns q)
            × IsValid small_config q))
finish_return-races_example = finish_return-races small_config raced 200 true raced-Reaches refl

-- The second one stops for ever.
loser_stops : finish_return true raced.pool 200 ≡ deadlocks
unfolding finish_return connection_pool_close_connection
loser_stops = refl

connection_pool_cleanup_idle_example :
    (((half_idle.idle ≡ []) ⊎ (1000 ≤ half_idle.config.idle_timeout))
      × (connection_pool_cleanup_idle half_idle 1000 ≡ returns (half_idle, 0)))
    ⊎ ((1 ≤ length half_idle.idle)
        × (half_idle.config.idle_timeout < 1000)
        × (connection_pool_cleanup_idle half_idle 1000 ≡ deadlocks))
connection_pool_cleanup_idle_example = connection_pool_cleanup_idle-deadlocks half_idle 1000

-- A configuration that allows more connections than the array has room for.
writes_behind_the_array :
    connection_pool_get_connection
      (connection_pool_set_config two (record config { max_connections = 3 }))
      (some 300)
    ≡ overflows
unfolding connection_pool_get_connection create_in_pool
writes_behind_the_array = refl

-- A larger idle array in the configuration alone: the third idle connection is closed under the lock.
stops_for_ever :
    connection_pool_return_connection
      (connection_pool_set_config
        (record two { idle = 100 ∷ 200 ∷ [] })
        (record config { max_idle_connections = 3 }))
      300
    ≡ deadlocks
unfolding connection_pool_return_connection finish_return connection_pool_close_connection
stops_for_ever = refl

-- Closing an idle connection counts it as no longer active a second time: -1 as an `int`.
drifts : (closed_pool (put_idle one 100) 100).stats.active_connections ≡ 2 ^ 32 - 1
unfolding remove_connection remove_idle
drifts = refl
