-- ===== src/ConnectionPool/Cleanup.antt =====
-- connection_pool_cleanup_idle, which closes connections while it holds idle_mutex.
use x_server.Prelude.{
  ℕ, ◌≤◌, ◌<◌, ◌≡◌, ◌⊎◌, refl, inl, inr, false, Bool-cases, List, [], ◌∷◌, ◌++◌, ltb, arith, length,
}
use x_server.ConnectionPool.{
  ConnectionPool, deadlocks, returns, cleanup_loop, connection_pool_close_connection,
  connection_pool_cleanup_idle,
}

kept_all :
    (pool : ConnectionPool) (kept idle : List ℕ) (n : ℕ)
    → cleanup_loop false pool kept idle n ≡ returns (pool, n)
unfolding cleanup_loop
kept_all pool kept [] n = refl
kept_all pool kept (c ∷ cs) n = kept_all pool (kept ++ c ∷ []) cs n

loop_cases :
    (pool : ConnectionPool) (timeout now : ℕ) (idle : List ℕ)
    → (((idle ≡ []) ⊎ (now ≤ timeout))
        × (cleanup_loop (ltb timeout now) pool [] idle 0 ≡ returns (pool, 0)))
      ⊎ ((1 ≤ length idle)
          × (timeout < now)
          × (cleanup_loop (ltb timeout now) pool [] idle 0 ≡ deadlocks))
unfolding cleanup_loop connection_pool_close_connection
loop_cases pool timeout now [] = inl (inl refl, refl)
loop_cases pool timeout now (c ∷ cs) = elim (Bool-cases (ltb timeout now)) [
  | inl late ↦ ground (arith, late)
  | inr early ↦ inl (inr (ground (arith, early)), rw early (kept_all pool (c ∷ []) cs 0))
]

-- A clean-up either does nothing, or never returns: it does nothing if no connection is idle or the
-- clock is at most idle_timeout. On any other pool the thread locks idle_mutex a second time.
pub connection_pool_cleanup_idle-deadlocks :
    (pool : ConnectionPool) (now : ℕ)
    → (((pool.idle ≡ []) ⊎ (now ≤ pool.config.idle_timeout))
        × (connection_pool_cleanup_idle pool now ≡ returns (pool, 0)))
      ⊎ ((1 ≤ length pool.idle)
          × (pool.config.idle_timeout < now)
          × (connection_pool_cleanup_idle pool now ≡ deadlocks))
unfolding connection_pool_cleanup_idle
connection_pool_cleanup_idle-deadlocks pool now =
    loop_cases pool pool.config.idle_timeout now pool.idle
