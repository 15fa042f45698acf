-- ===== src/ConnectionPool/Returns.antt =====
-- What each call does to a pool whose statistics and arrays agree, and to the connections that clients
-- have.
use x_server.Prelude.{
  ℕ, ◌<◌, ◌≡◌, ◌⊎◌, refl, ap, subst, inl, inr, Bool, true, false, Bool-cases, List-cases, Option,
  none, some, ltb, leb, arith, length,
}
use x_server.ConnectionPool.{
  PoolConfig, ConnectionPool, Outcome, returns, deadlocks, connection_pool_create, reuse_connection,
  add_connection, put_idle, closed_pool, may_keep, finish_return, create_in_pool,
  connection_pool_get_connection, connection_pool_close_connection,
  connection_pool_return_connection,
}
use x_server.ConnectionPool.Valid.{
  IsActive, IsValid, add_connection-IsValid, reuse-IsValid, put_idle-IsValid, closed_pool-IsValid,
}
use x_server.ConnectionPool.Calls.{
  KeepsAll, KeepsOthers, add_connection-KeepsAll, reuse-KeepsAll, put_idle-KeepsOthers,
  closed_pool-KeepsOthers,
}

module _ (config : PoolConfig) (pool : ConnectionPool) (v : IsValid config pool) where
  pub create_in_pool-IsValid :
      (fresh : Option ℕ)
      → (q : ConnectionPool × Option ℕ) × (create_in_pool pool fresh ≡ returns q)
        × (IsValid config q.0 × KeepsAll pool q.0)
  unfolding create_in_pool
  create_in_pool-IsValid none = ((pool, none), ground arith, (v, λ c a. a))
  create_in_pool-IsValid (some conn) =
      elim (Bool-cases (leb pool.config.max_connections (length pool.connections))) [
        | inl full ↦ ((pool, none), ground (arith, full), (v, λ c a. a))
        | inr room ↦
            let same = ap (λ (c : PoolConfig). c.max_connections) v.same_config in
            let h : length pool.connections < config.max_connections = ground (arith, room, same) in
            (
              (add_connection pool conn, some conn),
              ground (arith, room, same, v.capacity),
              (add_connection-IsValid config pool v conn h, add_connection-KeepsAll pool conn),
            )
      ]

  pub get_connection-IsValid :
      (fresh : Option ℕ)
      → (q : ConnectionPool × Option ℕ) × (connection_pool_get_connection pool fresh ≡ returns q)
        × (IsValid config q.0 × KeepsAll pool q.0)
  unfolding connection_pool_get_connection
  get_connection-IsValid fresh =
      let (q, e, w) = create_in_pool-IsValid fresh in
      elim (Bool-cases pool.config.enable_connection_reuse) [
        | inr off ↦ (q, ground (arith, off, e), w)
        | inl on ↦ elim (List-cases pool.idle) [
          | inl n ↦ (q, ground (arith, on, n, e), w)
          | inr (conn, rest, n) ↦ (
            (reuse_connection pool rest, some conn),
            ground (arith, on, n),
            (reuse-IsValid config pool v conn rest n, reuse-KeepsAll pool conn rest n),
          )
        ]
      ]

  -- The rest of a return behind its first test: it closes the connection or keeps it, or finds the
  -- idle array full and stops for ever.
  pub finish_cases :
      (keep : Bool) (conn : ℕ)
      → IsActive pool conn
      → ((keep ≡ true)
          × (length pool.idle ≡ config.max_idle_connections)
          × (finish_return keep pool conn ≡ deadlocks))
        ⊎ (((keep ≡ false) ⊎ (length pool.idle < config.max_idle_connections))
            × ((q : ConnectionPool) × (finish_return keep pool conn ≡ returns q)
                × (IsValid config q × KeepsOthers conn pool q)))
  unfolding finish_return connection_pool_close_connection
  finish_cases false conn a = inr (
    inl refl,
    (
      closed_pool pool conn,
      refl,
      (closed_pool-IsValid config pool v conn a, closed_pool-KeepsOthers pool conn a),
    ),
  )
  finish_cases true conn a = elim (Bool-cases (ltb (length pool.idle) pool.idle_capacity)) [
    | inr full ↦
        let all : length pool.idle ≡ config.max_idle_connections =
          ground (arith, full, v.idle_capacity, v.idle_room) in
        inl (refl, all, rw full refl)
    | inl room ↦
        let h : length pool.idle < config.max_idle_connections =
          ground (arith, room, v.idle_capacity) in
        inr (
          inr h,
          (
            put_idle pool conn,
            rw room refl,
            (put_idle-IsValid config pool v conn a.in_pool h, put_idle-KeepsOthers pool conn),
          ),
        )
  ]

  -- A return that is not interrupted never finds the array full.
  pub return_connection-returns :
      (conn : ℕ)
      → IsActive pool conn
      → (q : ConnectionPool) × (connection_pool_return_connection pool conn ≡ returns q)
  unfolding connection_pool_return_connection
  return_connection-returns conn a = elim (finish_cases (may_keep pool) conn a) [
    | inr (_, (q, e, _)) ↦ (q, e)
    | inl (t, full, _) ↦
        let same = ap (λ (c : PoolConfig). c.max_idle_connections) v.same_config in
        absurd (ground (arith, t, full, same))
  ]

pub create-IsValid : (config : PoolConfig) → IsValid config (connection_pool_create config)
create-IsValid config = record {
  same_config = refl;
  capacity = refl;
  idle_capacity = refl;
  room = omega arith;
  idle_room = omega arith;
  idle_stats = refl;
  active_stats = refl;
  idle_in_pool = tt;
}

pub returns_same {ℓ} :
    {A : Type 0} {P : A → Type ℓ} {o : Outcome A} {a : A}
    → ((q : A) × (o ≡ returns q) × P q)
    → o ≡ returns a
    → P a
returns_same {P = P} (q, e, p) e' = subst P (cc (e, e')) p
