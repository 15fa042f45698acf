-- ===== src/ConnectionPool/Valid.antt =====
-- The statistics and the arrays of the pool agree, and each change keeps that.
use x_server.Prelude.{
  ℕ, suc, ◌+◌, ◌%◌, ◌^◌, ◌≤◌, ◌<◌, ◌≡◌, ◌≢◌, refl, ap, subst, Bool, true, false, List, [], ◌∷◌,
  ◌++◌, ◌==◌, if◌then◌else◌, arith, length, length-append, All, All-imp,
}
use x_server.ConnectionPool.{
  PoolConfig, ConnectionPool, reuse_connection, add_connection, put_idle, closed_pool,
  remove_connection, remove_idle,
}

unfoldable pub contains : ℕ → List ℕ → Bool
contains conn [] = false
contains conn (c ∷ cs) = if c == conn then true else contains conn cs

-- A client has the connection: it is in the pool and not idle.
pub record IsActive (pool : ConnectionPool) (conn : ℕ) : Type 0 where
  pub in_pool : contains conn pool.connections ≡ true
  pub not_idle : contains conn pool.idle ≡ false

-- The statistics count the arrays, modulo 2 ^ 32; every idle connection is in the pool, and the
-- arrays hold no more than they have room for.
pub record IsValid (config : PoolConfig) (pool : ConnectionPool) : Type 0 where
  pub same_config : pool.config ≡ config
  pub capacity : pool.connection_capacity ≡ config.max_connections
  pub idle_capacity : pool.idle_capacity ≡ config.max_idle_connections
  pub room : length pool.connections ≤ config.max_connections
  pub idle_room : length pool.idle ≤ config.max_idle_connections
  pub idle_stats : pool.stats.idle_connections ≡ length pool.idle % 2 ^ 32
  pub active_stats :
      (pool.stats.active_connections + length pool.idle) % 2 ^ 32 ≡ length pool.connections % 2 ^ 32
  pub idle_in_pool : All (λ c. contains c pool.connections ≡ true) pool.idle

length-remove_connection :
    (conn : ℕ) (cs : List ℕ)
    → contains conn cs ≡ true
    → suc (length (remove_connection conn cs)) ≡ length cs
unfolding contains remove_connection
length-remove_connection conn [] e = ground (arith, e)
length-remove_connection conn (c ∷ cs) e = ground (arith, e, length-remove_connection conn cs)

pub remove_absent : (conn : ℕ) (cs : List ℕ) → contains conn cs ≡ false → remove_idle conn cs ≡ cs
unfolding contains remove_idle
remove_absent conn [] e = refl
remove_absent conn (c ∷ cs) e = ground (arith, e, remove_absent conn cs)

pub contains-remove :
    (conn c : ℕ) (cs : List ℕ)
    → conn ≢ c
    → contains c cs ≡ true
    → contains c (remove_connection conn cs) ≡ true
unfolding contains remove_connection
contains-remove conn c [] ne e = e
contains-remove conn c (d ∷ ds) ne e = ground (arith, ne, e, contains-remove conn c ds ne)

pub contains-append :
    (c x : ℕ) (cs : List ℕ) → contains c cs ≡ true → contains c (cs ++ x ∷ []) ≡ true
unfolding contains
contains-append c x [] e = ground (arith, e)
contains-append c x (d ∷ ds) e = ground (arith, e, contains-append c x ds)

-- The idle connections stay in the pool when another one leaves it.
All-contains-remove :
    (conn : ℕ) (cs idle : List ℕ)
    → contains conn idle ≡ false
    → All (λ c. contains c cs ≡ true) idle
    → All (λ c. contains c (remove_connection conn cs) ≡ true) idle
unfolding contains
All-contains-remove conn cs [] n a = tt
All-contains-remove conn cs (i ∷ is) n (e, a) =
    let ne : conn ≢ i = ground (arith, n) in
    let rest : contains conn is ≡ false = ground (arith, n) in
    (contains-remove conn i cs ne e, All-contains-remove conn cs is rest a)

module _ (config : PoolConfig) (pool : ConnectionPool) (v : IsValid config pool) where
  pub add_connection-IsValid :
      (conn : ℕ)
      → length pool.connections < config.max_connections
      → IsValid config (add_connection pool conn)
  add_connection-IsValid conn h = record {
    same_config = v.same_config;
    capacity = v.capacity;
    idle_capacity = v.idle_capacity;
    room = omega (arith, h, length-append pool.connections (conn ∷ []));
    idle_room = v.idle_room;
    idle_stats = v.idle_stats;
    active_stats = omega (arith, v.active_stats, length-append pool.connections (conn ∷ []));
    idle_in_pool =
        All-imp (λ c. contains c pool.connections ≡ true) pool.idle
          (λ c e. contains-append c conn pool.connections e) v.idle_in_pool;
  }

  pub reuse-IsValid :
      (conn : ℕ) (rest : List ℕ)
      → pool.idle ≡ conn ∷ rest
      → IsValid config (reuse_connection pool rest)
  reuse-IsValid conn rest e =
      let n : length pool.idle ≡ suc (length rest) = ap length e in
      record {
        same_config = v.same_config;
        capacity = v.capacity;
        idle_capacity = v.idle_capacity;
        room = v.room;
        idle_room = omega (arith, v.idle_room, n);
        idle_stats = omega (arith, v.idle_stats, n);
        active_stats = omega (arith, v.active_stats, n);
        idle_in_pool =
            (subst (λ is. All (λ c. contains c pool.connections ≡ true) is) e v.idle_in_pool).1;
      }

  pub put_idle-IsValid :
      (conn : ℕ)
      → contains conn pool.connections ≡ true
      → length pool.idle < config.max_idle_connections
      → IsValid config (put_idle pool conn)
  put_idle-IsValid conn e h = record {
    same_config = v.same_config;
    capacity = v.capacity;
    idle_capacity = v.idle_capacity;
    room = v.room;
    idle_room = omega (arith, h);
    idle_stats = omega (arith, v.idle_stats);
    active_stats = omega (arith, v.active_stats);
    idle_in_pool = (e, v.idle_in_pool);
  }

  pub closed_pool-IsValid : (conn : ℕ) → IsActive pool conn → IsValid config (closed_pool pool conn)
  closed_pool-IsValid conn a =
      let gone = length-remove_connection conn pool.connections a.in_pool in
      let same = remove_absent conn pool.idle a.not_idle in
      let stays = ap length same in
      record {
        same_config = v.same_config;
        capacity = v.capacity;
        idle_capacity = v.idle_capacity;
        room = omega (arith, gone, v.room);
        idle_room = omega (arith, stays, v.idle_room);
        idle_stats = omega (arith, stays, v.idle_stats);
        active_stats = omega (arith, stays, gone, v.active_stats);
        idle_in_pool =
            rw same (All-contains-remove conn pool.connections pool.idle a.not_idle v.idle_in_pool);
      }
