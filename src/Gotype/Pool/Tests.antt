-- ===== src/Gotype/Pool/Tests.antt =====
-- Runs of the pool of gotype/pool.go.
use go_typeql.Base.{
  String, true, false, ℕ, suc, ◌+◌, ◌≤◌, ◌<◌, List, [], ◌∷◌, length, Option, none, some, Result, ok,
  ◌≡◌, refl,
}
use go_typeql.Gotype.Pool.Model.{
  PoolConfig, ConnPool, PoolStats, stats, new_conn_pool, warm_up, get_section, put_section,
  close_section,
}
use go_typeql.Gotype.Pool.Steps.{
  World, Event, step, Reachable, get, checked, put, expired, close, begin, after, on_checked,
  on_put,
}
use go_typeql.Gotype.Pool.Capacity.{outside}
use go_typeql.Gotype.Pool.Limits.{new_conn_pool-stats}

abbrev small : PoolConfig
small = record { min_size = 1; max_size = 1; idle_timeout = 10 }

-- The factory numbers its connections, and the clock stands still.
abbrev numbering : ℕ → Result String ℕ × ℕ
numbering n = (ok n, suc n)

abbrev warm : ConnPool
warm = record {
  conns = record { conn = 7; idle_since = 0 } ∷ [];
  num_open = 1;
  wait_queue = [];
  closed = false;
}

warm_made : (new_conn_pool numbering (λ _. 0) small 7).0 ≡ ok warm
unfolding new_conn_pool warm_up
warm_made = refl

abbrev world : ConnPool → ℕ → ℕ → World
world p used handed = record {
  pool = p;
  checking = 0;
  creating = 0;
  in_use = used;
  offered = handed;
}

run : PoolConfig → List Event → World → Option World
run config [] w = some w
run config (e ∷ es) w = elim (step config e w) [ none ↦ none | some w' ↦ run config es w' ]

-- One caller takes the connection, another waits; the first gives it back while the pool is closed and
-- the second gives up: the connection ends, open, in the closed pool.
kept_by_a_closed_pool :
    run small
      (get 1 ∷ checked true ∷ get 2 ∷ put true 7 5 ∷ close ∷ expired 7 6 ∷ [])
      (world warm 0 0)
    ≡ some (
        world
          (record {
            conns = record { conn = 7; idle_since = 6 } ∷ [];
            num_open = 1;
            wait_queue = [];
            closed = true;
          })
          0
          0)
unfolding run step get_section on_checked put_section close_section on_put
kept_by_a_closed_pool = refl

abbrev taken : World
taken = record {
  pool = record { conns = []; num_open = 1; wait_queue = []; closed = false };
  checking = 1;
  creating = 0;
  in_use = 0;
  offered = 0;
}

taken-Reachable : Reachable small warm taken
unfolding step get_section
taken-Reachable = after (world warm 0 0) taken (get 1) begin refl

new_conn_pool-stats_example :
    (0 < 1 → length taken.pool.conns + outside taken ≤ 1)
    × (taken.pool.closed ≡ false
        → (PoolStats.total (stats taken.pool) ≡ length taken.pool.conns + outside taken)
          × (PoolStats.in_use (stats taken.pool) ≡ outside taken))
new_conn_pool-stats_example =
    new_conn_pool-stats numbering (λ _. 0) small warm 7 taken warm_made taken-Reachable
