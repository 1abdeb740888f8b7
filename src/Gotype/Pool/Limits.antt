-- ===== src/Gotype/Pool/Limits.antt =====
-- What the counts of gotype/pool.go promise: the maximum, the statistics and the warm-up.
use go_typeql.Base.{
  String, false, ◌&&◌, ℕ, zero, suc, ◌+◌, ◌≤◌, ◌<◌, [], ◌∷◌, ◌++◌, length, length-append, ltb,
  Result, ok, err, Result-cases, ◌≡◌, refl, ap, subst, inl, inr, arith, Bool-cases,
}
use go_typeql.Gotype.Pool.Model.{
  PoolConfig, PooledConn, ConnPool, stats, PoolStats, warm_up, new_conn_pool, empty_pool,
}
use go_typeql.Gotype.Pool.Steps.{World, Reachable}
use go_typeql.Gotype.Pool.Capacity.{outside, IsCounted}
use go_typeql.Gotype.Pool.Reached.{reached-IsConsistent}

ok-injective : {A : Type 0} {x y : A} → ◌≡◌ {A = Result String A} (ok x) (ok y) → x ≡ y
ok-injective {x = x} e = ap (λ r. elim r [ ok z ↦ z | err _ ↦ x ]) e

module _ {W : Type 0} (factory : W → Result String ℕ × W) (now : W → ℕ) where
  -- `n` more connections, all counted, in a pool that is as closed as before.
  abbrev Warmed : ℕ → ConnPool → ConnPool → Type 0
  Warmed n p q =
      (length q.conns ≡ length p.conns + n) × (q.num_open ≡ p.num_open + n) × (q.closed ≡ p.closed)

  warm_up-Warmed :
      (n : ℕ) (p q : ConnPool) (w : W) → (warm_up factory now n p w).0 ≡ ok q → Warmed n p q
  unfolding warm_up
  warm_up-Warmed zero p q w h = subst (Warmed 0 p) (ok-injective h) (omega arith, omega arith, refl)
  warm_up-Warmed (suc n) p q w h = elim (Result-cases (factory w).0) [
    | inr (e, f) ↦ cc (rw (f, warm_up) at h)
    | inl (conn, f) ↦
        let pc : PooledConn = record { conn = conn; idle_since = now (factory w).1 } in
        let grown = length-append p.conns (pc ∷ []) in
        let (size, total, shut) =
          warm_up-Warmed n (record p { conns = p.conns ++ pc ∷ []; num_open = suc p.num_open }) q
            (factory w).1 (rw (f, warm_up) at h) in
        (omega (arith, size, grown), omega (arith, total), shut)
  ]

  -- A pool that is made at all has its least number of connections, counts them, is open, and keeps to
  -- its maximum.
  new_conn_pool-IsCounted :
      (config : PoolConfig) (p : ConnPool) (w : W)
      → (new_conn_pool factory now config w).0 ≡ ok p
      → IsCounted config 0 p × (length p.conns ≡ config.min_size) × (p.closed ≡ false)
  unfolding new_conn_pool
  new_conn_pool-IsCounted config p w h =
      elim (Bool-cases (ltb 0 config.max_size && ltb config.max_size config.min_size)) [
        | inl e ↦ cc (rw (e, new_conn_pool) at h)
        | inr e ↦
            let (size, total, shut) =
              warm_up-Warmed config.min_size empty_pool p w (rw (e, new_conn_pool) at h) in
            (
              record {
                covered = omega (arith, size, total);
                exact = λ _. omega (arith, size, total);
                bounded = λ m. ground (arith, e, total);
              },
              omega (arith, size),
              shut,
            )
      ]

  -- In every interleaving of Gets, Puts, a Close and the cleaner, from a pool as it was made: with a
  -- maximum the connections in the pool and those outside it, being checked, made, used or handed over,
  -- are never more than the maximum; and while the pool is open its statistics are exact, the
  -- connections in use being those outside it.
  pub new_conn_pool-stats :
      (config : PoolConfig) (p : ConnPool) (w : W) (world : World)
      → (new_conn_pool factory now config w).0 ≡ ok p
      → Reachable config p world
      → (0 < config.max_size → length world.pool.conns + outside world ≤ config.max_size)
        × (world.pool.closed ≡ false
            → (PoolStats.total (stats world.pool) ≡ length world.pool.conns + outside world)
              × (PoolStats.in_use (stats world.pool) ≡ outside world))
  unfolding stats
  new_conn_pool-stats config p w world made reached =
      let h =
        reached-IsConsistent config p world (new_conn_pool-IsCounted config p w made).0 reached in
      ((λ m. omega (arith, h.covered, h.bounded m)), (λ e. (h.exact e, omega (arith, h.exact e))))
