-- ===== src/ConnectionPool.antt =====
-- src/connection_pool.c: the connections of the pool, the idle ones among them, and the statistics.
-- include/connection_pool.h: the configuration and the statistics. A mutex that a thread locks twice
-- stops it for ever: the mutexes have default attributes.
pub mod Valid
pub mod Calls
pub mod Returns
pub mod Counts
pub mod Cleanup
mod Tests
use x_server.Prelude.{
  ℕ, zero, suc, ◌+◌, ◌-◌, ◌*◌, ◌/◌, ◌%◌, ◌^◌, Bool, true, false, not, ◌&&◌, Option, none, some,
  List, [], ◌∷◌, ◌++◌, ◌==◌, ltb, leb, if◌then◌else◌, length,
}

-- connection_pool_config_t
pub record PoolConfig : Type 0 where
  pub max_connections : ℕ
  pub min_idle_connections : ℕ
  pub max_idle_connections : ℕ
  pub connection_timeout : ℕ
  pub idle_timeout : ℕ
  pub keepalive_timeout : ℕ
  pub max_requests_per_conn : ℕ
  pub enable_connection_reuse : Bool
  pub enable_connection_pooling : Bool
  pub pool_cleanup_interval : ℕ

-- The counters of connection_pool_stats_t that something writes: an `int` modulo 2 ^ 32.
pub record PoolStats : Type 0 where
  pub total_connections : ℕ
  pub active_connections : ℕ
  pub idle_connections : ℕ
  pub reused_connections : ℕ
  pub created_connections : ℕ
  pub closed_connections : ℕ

-- struct connection_pool. A connection is its address; of the arrays, the first connection_count and
-- idle_count elements, the idle ones from the last to the first.
pub record ConnectionPool : Type 0 where
  pub config : PoolConfig
  pub stats : PoolStats
  pub connections : List ℕ
  pub connection_capacity : ℕ
  pub idle : List ℕ
  pub idle_capacity : ℕ

-- How a call ends: a thread that locks a mutex that it holds never goes on, and a write behind the
-- end of an array is undefined.
pub data Outcome (A : Type 0) : Type 0 where
  deadlocks overflows : Outcome A
  returns : A → Outcome A

abbrev pub increment : ℕ → ℕ
increment n = (n + 1) % 2 ^ 32

abbrev pub decrement : ℕ → ℕ
decrement n = (n + (2 ^ 32 - 1)) % 2 ^ 32

abbrev pub no_stats : PoolStats
no_stats = record {
  total_connections = 0;
  active_connections = 0;
  idle_connections = 0;
  reused_connections = 0;
  created_connections = 0;
  closed_connections = 0;
}

-- Where all allocations, mutexes and the thread succeed.
abbrev pub connection_pool_create : PoolConfig → ConnectionPool
connection_pool_create config = record {
  config = config;
  stats = no_stats;
  connections = [];
  connection_capacity = config.max_connections;
  idle = [];
  idle_capacity = config.max_idle_connections;
}

-- The last idle connection is used again.
abbrev pub reuse_connection : ConnectionPool → List ℕ → ConnectionPool
reuse_connection pool rest =
    let s = pool.stats in
    record pool {
      idle = rest;
      stats = record s {
        reused_connections = increment s.reused_connections;
        idle_connections = decrement s.idle_connections;
        active_connections = increment s.active_connections;
      };
    }

abbrev pub add_connection : ConnectionPool → ℕ → ConnectionPool
add_connection pool conn =
    let s = pool.stats in
    record pool {
      connections = pool.connections ++ conn ∷ [];
      stats = record s {
        created_connections = increment s.created_connections;
        total_connections = increment s.total_connections;
        active_connections = increment s.active_connections;
      };
    }

-- No idle connection is used. `fresh` is what connection_create gives.
unfoldable pub create_in_pool : ConnectionPool → Option ℕ → Outcome (ConnectionPool × Option ℕ)
create_in_pool pool fresh =
    if leb pool.config.max_connections (length pool.connections)
    then returns (pool, none)
    else elim fresh [
      | none ↦ returns (pool, none)
      | some conn ↦
          if leb pool.connection_capacity (length pool.connections)
          then overflows
          else returns (add_connection pool conn, some conn)
    ]

unfoldable pub connection_pool_get_connection :
    ConnectionPool → Option ℕ → Outcome (ConnectionPool × Option ℕ)
connection_pool_get_connection pool fresh =
    if pool.config.enable_connection_reuse
    then (elim (pool.idle) [
      | [] ↦ create_in_pool pool fresh
      | conn ∷ rest ↦ returns (reuse_connection pool rest, some conn)
    ])
    else create_in_pool pool fresh

-- The loop that removes a connection from the array of all.
unfoldable pub remove_connection : ℕ → List ℕ → List ℕ
remove_connection conn [] = []
remove_connection conn (c ∷ cs) =
    let rest = remove_connection conn cs in if c == conn then cs else c ∷ rest

-- The same loop on the idle array, which stands here from its last element to its first: the copy that
-- is removed is the deepest one.
unfoldable pub remove_idle : ℕ → List ℕ → List ℕ
remove_idle conn [] = []
remove_idle conn (c ∷ cs) =
    let rest = remove_idle conn cs in if c == conn && length rest == length cs then cs else c ∷ rest

abbrev pub closed_pool : ConnectionPool → ℕ → ConnectionPool
closed_pool pool conn =
    let s = pool.stats in
    record pool {
      connections = remove_connection conn pool.connections;
      idle = remove_idle conn pool.idle;
      stats = record s {
        closed_connections = increment s.closed_connections;
        active_connections = decrement s.active_connections;
      };
    }

-- It locks pool_mutex and then idle_mutex, which its caller may hold.
unfoldable pub connection_pool_close_connection : Bool → ConnectionPool → ℕ → Outcome ConnectionPool
connection_pool_close_connection idle_mutex_held pool conn =
    if idle_mutex_held then deadlocks else returns (closed_pool pool conn)

abbrev pub put_idle : ConnectionPool → ℕ → ConnectionPool
put_idle pool conn =
    let s = pool.stats in
    record pool {
      idle = conn ∷ pool.idle;
      stats = record s {
        idle_connections = increment s.idle_connections;
        active_connections = decrement s.active_connections;
      };
    }

-- The first test of connection_pool_return_connection, which holds no mutex.
abbrev pub may_keep : ConnectionPool → Bool
may_keep pool =
    pool.config.enable_connection_reuse && ltb (length pool.idle) pool.config.max_idle_connections

-- What the call does then, with the result of the test: other threads may have run in between.
unfoldable pub finish_return : Bool → ConnectionPool → ℕ → Outcome ConnectionPool
finish_return keep pool conn =
    if keep
    then (if ltb (length pool.idle) pool.idle_capacity
        then returns (put_idle pool conn)
        else connection_pool_close_connection true pool conn)
    else connection_pool_close_connection false pool conn

-- The whole call, where no other thread runs in between.
unfoldable pub connection_pool_return_connection : ConnectionPool → ℕ → Outcome ConnectionPool
connection_pool_return_connection pool conn = finish_return (may_keep pool) pool conn

-- The loop over the idle connections, under idle_mutex, with the ones that stay above it.
unfoldable pub cleanup_loop :
    Bool → ConnectionPool → List ℕ → List ℕ → ℕ → Outcome (ConnectionPool × ℕ)
cleanup_loop expired pool kept [] cleaned = returns (pool, cleaned)
cleanup_loop expired pool kept (conn ∷ below) cleaned =
    let without = record pool { idle = kept ++ below } in
    elim expired [
      | false ↦ cleanup_loop expired pool (kept ++ conn ∷ []) below cleaned
      | true ↦ elim (connection_pool_close_connection true without conn) [
        | deadlocks ↦ deadlocks
        | overflows ↦ overflows
        | returns next ↦ cleanup_loop expired next kept below (suc cleaned)
      ]
    ]

-- The age of a connection is `now - 0`.
unfoldable pub connection_pool_cleanup_idle : ConnectionPool → ℕ → Outcome (ConnectionPool × ℕ)
connection_pool_cleanup_idle pool now =
    cleanup_loop (ltb pool.config.idle_timeout now) pool [] pool.idle 0

abbrev pub connection_pool_get_stats : ConnectionPool → PoolStats
connection_pool_get_stats pool = pool.stats

abbrev pub connection_pool_reset_stats : ConnectionPool → ConnectionPool
connection_pool_reset_stats pool = record pool { stats = no_stats }

abbrev pub connection_pool_set_config : ConnectionPool → PoolConfig → ConnectionPool
connection_pool_set_config pool config = record pool { config = config }

abbrev pub connection_pool_get_config : ConnectionPool → PoolConfig
connection_pool_get_config pool = pool.config

-- The fields of config_t that connection_pool_load_config reads.
pub record ServerConfig : Type 0 where
  pub max_connections : ℕ
  pub worker_connections : ℕ
  pub connection_timeout : ℕ
  pub keepalive_timeout : ℕ

unfoldable pub connection_pool_load_config : Option ServerConfig → PoolConfig
connection_pool_load_config none = record {
  max_connections = 10000;
  min_idle_connections = 10;
  max_idle_connections = 1000;
  connection_timeout = 30;
  idle_timeout = 60;
  keepalive_timeout = 30;
  max_requests_per_conn = 1000;
  enable_connection_reuse = true;
  enable_connection_pooling = true;
  pool_cleanup_interval = 30;
}
connection_pool_load_config (some config) = record {
  max_connections = config.max_connections;
  min_idle_connections = config.worker_connections / 10;
  max_idle_connections = config.worker_connections / 2;
  connection_timeout = config.connection_timeout;
  idle_timeout = config.keepalive_timeout * 2;
  keepalive_timeout = config.keepalive_timeout;
  max_requests_per_conn = 1000;
  enable_connection_reuse = true;
  enable_connection_pooling = true;
  pool_cleanup_interval = 30;
}
