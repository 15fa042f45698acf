-- ===== src/ConnectionPool/Calls.antt =====
-- src/connection_pool.c: the calls on the pool in any order, as its clients and the thread of
-- cleanup_thread_func interleave them. A call of connection_pool_return_connection is two steps, since
-- its first test holds no mutex. A call that stops for ever has no step. connection_pool_set_config,
-- which nothing calls, is none either.
use x_server.Prelude.{
  false, ℕ, ◌≡◌, ◌≢◌, Bool, Option, none, some, List, ◌∷◌, ◌==◌, if◌then◌else◌, arith,
}
use x_server.ConnectionPool.{
  PoolConfig, ConnectionPool, returns, connection_pool_create, may_keep, finish_return,
  create_in_pool, connection_pool_get_connection, connection_pool_close_connection,
  connection_pool_cleanup_idle, reuse_connection, add_connection, put_idle, closed_pool,
}
use x_server.ConnectionPool.Valid.{
  contains, IsActive, contains-remove, contains-append, remove_absent,
}

-- The pool, and for each connection the result of the first test, if a call that returns the
-- connection is behind that test.
pub record System : Type 0 where
  pub pool : ConnectionPool
  pub returning : ℕ → Option Bool

abbrev pub nobody : ℕ → Option Bool
nobody conn = none

abbrev pub update : (ℕ → Option Bool) → ℕ → Option Bool → ℕ → Option Bool
update f conn o c = if conn == c then o else f c

-- A client has the connection, and has not begun to return it.
pub record IsOwned (s : System) (conn : ℕ) : Type 0 where
  pub active : IsActive s.pool conn
  pub kept : s.returning conn ≡ none

-- What clients make who return and close only what they have. Between its two critical sections
-- connection_pool_get_connection may lose the mutexes: `made` is its second one alone.
pub data Reaches (config : PoolConfig) : System → Type 0 where
  created : Reaches config (record { pool = connection_pool_create config; returning = nobody })
  got :
      (s : System) (pool : ConnectionPool) (fresh given : Option ℕ)
      → Reaches config s
      → connection_pool_get_connection s.pool fresh ≡ returns (pool, given)
      → Reaches config (record s { pool = pool })
  made :
      (s : System) (pool : ConnectionPool) (fresh given : Option ℕ)
      → Reaches config s
      → create_in_pool s.pool fresh ≡ returns (pool, given)
      → Reaches config (record s { pool = pool })
  tested :
      (s : System) (conn : ℕ)
      → Reaches config s
      → IsOwned s conn
      → Reaches config (record s { returning = update s.returning conn (some (may_keep s.pool)) })
  finished :
      (s : System) (pool : ConnectionPool) (conn : ℕ) (keep : Bool)
      → Reaches config s
      → s.returning conn ≡ some keep
      → finish_return keep s.pool conn ≡ returns pool
      → Reaches config (record { pool = pool; returning = update s.returning conn none })
  closed :
      (s : System) (pool : ConnectionPool) (conn : ℕ)
      → Reaches config s
      → IsOwned s conn
      → connection_pool_close_connection false s.pool conn ≡ returns pool
      → Reaches config (record s { pool = pool })
  cleaned :
      (s : System) (pool : ConnectionPool) (now cleaned_count : ℕ)
      → Reaches config s
      → connection_pool_cleanup_idle s.pool now ≡ returns (pool, cleaned_count)
      → Reaches config (record s { pool = pool })

-- A change of the pool takes nothing from its clients, or only one connection.
abbrev pub KeepsAll : ConnectionPool → ConnectionPool → Type 0
KeepsAll pool q = (c : ℕ) → IsActive pool c → IsActive q c

abbrev pub KeepsOthers : ℕ → ConnectionPool → ConnectionPool → Type 0
KeepsOthers conn pool q = (c : ℕ) → conn ≢ c → IsActive pool c → IsActive q c

pub add_connection-KeepsAll :
    (pool : ConnectionPool) (conn : ℕ) → KeepsAll pool (add_connection pool conn)
add_connection-KeepsAll pool conn c a = record {
  in_pool = contains-append c conn pool.connections a.in_pool;
  not_idle = a.not_idle;
}

pub reuse-KeepsAll :
    (pool : ConnectionPool) (conn : ℕ) (rest : List ℕ)
    → pool.idle ≡ conn ∷ rest
    → KeepsAll pool (reuse_connection pool rest)
unfolding contains
reuse-KeepsAll pool conn rest e c a = record {
  in_pool = a.in_pool;
  not_idle = ground (arith, e, a.not_idle);
}

pub put_idle-KeepsOthers :
    (pool : ConnectionPool) (conn : ℕ) → KeepsOthers conn pool (put_idle pool conn)
unfolding contains
put_idle-KeepsOthers pool conn c ne a = record {
  in_pool = a.in_pool;
  not_idle = ground (arith, ne, a.not_idle);
}

pub closed_pool-KeepsOthers :
    (pool : ConnectionPool) (conn : ℕ)
    → IsActive pool conn
    → KeepsOthers conn pool (closed_pool pool conn)
closed_pool-KeepsOthers pool conn b c ne a = record {
  in_pool = contains-remove conn c pool.connections ne a.in_pool;
  not_idle = rw (remove_absent conn pool.idle b.not_idle) a.not_idle;
}
