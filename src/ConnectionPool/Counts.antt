-- ===== src/ConnectionPool/Counts.antt =====
-- What holds in every pool that clients and the thread of the clean-up reach, and which of their next
-- calls return.
use x_server.Prelude.{
  ℕ, ◌<◌, ◌≡◌, ◌⊎◌, subst, inl, inr, Bool, true, false, Bool-cases, Option, none, some, ◌==◌,
  ==_iff, arith, length,
}
use x_server.ConnectionPool.{
  PoolConfig, ConnectionPool, returns, deadlocks, connection_pool_create, closed_pool,
  finish_return, create_in_pool, connection_pool_get_connection, connection_pool_close_connection,
  connection_pool_cleanup_idle,
}
use x_server.ConnectionPool.Valid.{IsActive, IsValid, closed_pool-IsValid}
use x_server.ConnectionPool.Calls.{
  System, nobody, update, IsOwned, Reaches, created, got, made, tested, finished, closed, cleaned,
  KeepsAll, KeepsOthers, closed_pool-KeepsOthers,
}
use x_server.ConnectionPool.Returns.{
  create_in_pool-IsValid, get_connection-IsValid, finish_cases, create-IsValid, returns_same,
}
use x_server.ConnectionPool.Cleanup.{connection_pool_cleanup_idle-deadlocks}

-- What every call keeps: the pool is valid, and a connection that is on its way back is still active.
record IsSound (config : PoolConfig) (s : System) : Type 0 where
  valid : IsValid config s.pool
  active : (c : ℕ) (keep : Bool) → s.returning c ≡ some keep → IsActive s.pool c

keeps-IsSound :
    {config : PoolConfig} {s : System} (pool : ConnectionPool)
    → IsSound config s
    → IsValid config pool × KeepsAll s.pool pool
    → IsSound config (record s { pool = pool })
keeps-IsSound pool h (v, keeps) = record {
  valid = v;
  active = λ c keep e. keeps c (h.active c keep e);
}

finished-IsSound :
    {config : PoolConfig} {s : System} (pool : ConnectionPool) (conn : ℕ)
    → IsSound config s
    → IsValid config pool × KeepsOthers conn s.pool pool
    → IsSound config (record { pool = pool; returning = update s.returning conn none })
finished-IsSound {s = s} pool conn h (v, keeps) = record {
  valid = v;
  active = λ c keep e. elim (Bool-cases (conn == c)) [
    | inl t ↦ absurd (ground (arith, t, e))
    | inr n ↦ keeps c (ground (arith, n)) (h.active c keep (ground (arith, n, e)))
  ];
}

closed-IsSound :
    {config : PoolConfig} {s : System} (conn : ℕ)
    → IsSound config s
    → IsOwned s conn
    → IsSound config (record s { pool = closed_pool s.pool conn })
closed-IsSound {config = config} {s = s} conn h o = record {
  valid = closed_pool-IsValid config s.pool h.valid conn o.active;
  active = λ c keep e.
      closed_pool-KeepsOthers s.pool conn o.active c (λ same. ground (arith, same, e, o.kept))
        (h.active c keep e);
}

tested-IsSound :
    {config : PoolConfig} {s : System} (conn : ℕ) (o : Option Bool)
    → IsSound config s
    → IsOwned s conn
    → IsSound config (record s { returning = update s.returning conn o })
tested-IsSound {s = s} conn o h w = record {
  valid = h.valid;
  active = λ c keep e. elim (Bool-cases (conn == c)) [
    | inl t ↦ subst (λ d. IsActive s.pool d) ((==_iff conn c).0 t) w.active
    | inr n ↦ h.active c keep (ground (arith, n, e))
  ];
}

created-IsSound :
    (config : PoolConfig)
    → IsSound config (record { pool = connection_pool_create config; returning = nobody })
created-IsSound config = record { valid = create-IsValid config; active = λ c keep e. absurd cc }

cleaned_same :
    (pool q : ConnectionPool) (now n : ℕ)
    → connection_pool_cleanup_idle pool now ≡ returns (q, n)
    → pool ≡ q
cleaned_same pool q now n e = elim (connection_pool_cleanup_idle-deadlocks pool now) [
  | inl (_, f) ↦ cc (e, f)
  | inr (_, _, f) ↦ absurd (cc (e, f))
]

Reaches-IsSound : {config : PoolConfig} {s : System} → Reaches config s → IsSound config s
unfolding connection_pool_close_connection
Reaches-IsSound {config = config} created = created-IsSound config
Reaches-IsSound {config = config} (got s pool fresh given r e) =
    let h = Reaches-IsSound r in
    keeps-IsSound pool h (
      returns_same {P = λ (q : ConnectionPool × Option ℕ). IsValid config q.0 × KeepsAll s.pool q.0}
        {o = connection_pool_get_connection s.pool fresh}
        (get_connection-IsValid config s.pool h.valid fresh) e)
Reaches-IsSound {config = config} (made s pool fresh given r e) =
    let h = Reaches-IsSound r in
    keeps-IsSound pool h (
      returns_same {P = λ (q : ConnectionPool × Option ℕ). IsValid config q.0 × KeepsAll s.pool q.0}
        {o = create_in_pool s.pool fresh} (create_in_pool-IsValid config s.pool h.valid fresh) e)
Reaches-IsSound (tested s conn r o) = tested-IsSound conn _ (Reaches-IsSound r) o
Reaches-IsSound {config = config} (finished s pool conn keep r t e) =
    let h = Reaches-IsSound r in
    elim (finish_cases config s.pool h.valid keep conn (h.active conn keep t)) [
      | inl (_, _, f) ↦ absurd (cc (e, f))
      | inr (_, done) ↦ finished-IsSound pool conn h (
          returns_same {P = λ (q : ConnectionPool). IsValid config q × KeepsOthers conn s.pool q}
            {o = finish_return keep s.pool conn} done e)
    ]
Reaches-IsSound {config = config} (closed s pool conn r o e) =
    let same : closed_pool s.pool conn ≡ pool = cc e in
    subst (λ q. IsSound config (record s { pool = q })) same
      (closed-IsSound conn (Reaches-IsSound r) o)
Reaches-IsSound {config = config} (cleaned s pool now n r e) =
    subst (λ q. IsSound config (record s { pool = q })) (cleaned_same s.pool pool now n e)
      (Reaches-IsSound r)

-- In every pool that interleaved calls and clean-ups reach, where none of them has stopped for ever,
-- and clients return and close only connections that they have: a return whose first test is behind
-- it, whatever the other threads have done since, stops for ever exactly if it was to keep the
-- connection and the idle array is full by now. It then closes the connection under idle_mutex.
-- Otherwise it returns, and the pool is valid again: its statistics and its arrays agree.
pub finish_return-races :
    (config : PoolConfig) (s : System) (conn : ℕ) (keep : Bool)
    → Reaches config s
    → s.returning conn ≡ some keep
    → ((keep ≡ true)
        × (length s.pool.idle ≡ config.max_idle_connections)
        × (finish_return keep s.pool conn ≡ deadlocks))
      ⊎ (((keep ≡ false) ⊎ (length s.pool.idle < config.max_idle_connections))
          × ((q : ConnectionPool) × (finish_return keep s.pool conn ≡ returns q)
              × IsValid config q))
finish_return-races config s conn keep r t =
    let h = Reaches-IsSound r in
    elim (finish_cases config s.pool h.valid keep conn (h.active conn keep t)) [
      | inl stuck ↦ inl stuck
      | inr (why, (q, e, (w, _))) ↦ inr (why, (q, e, w))
    ]
