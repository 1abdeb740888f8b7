-- ===== src/Gotype/Pool/Steps.antt =====
-- gotype/pool.go as a transition system: threads call Get, Put and Close, the cleaner ticks, and the
-- critical sections interleave in any order.
use go_typeql.Base.{Bool, not, ℕ, zero, suc, Option, none, some, if◌then◌else◌, ltb, ◌≡◌}
use go_typeql.Gotype.Pool.Model.{
  PoolConfig, ConnPool, GetAction, refused, check, create, wait, get_section, lower, PutAction,
  close_it, discard, offer, keep, put_loop, put_section, close_section, remove_waiter,
  clean_section,
}

-- The pool, and how many connections are outside it: taken by a Get that is checking one, being made by
-- a Get, held by a caller, and offered by a Put to a waiter.
pub record World : Type 0 where
  pub pool : ConnPool
  pub checking : ℕ
  pub creating : ℕ
  pub in_use : ℕ
  pub offered : ℕ

pub data Event : Type 0 where
  get : ℕ → Event
  checked : Bool → Event
  created : Bool → Event
  put : Bool → ℕ → ℕ → Event
  received : Event
  expired : ℕ → ℕ → Event
  gone : ℕ → Event
  close : Event
  tick : ℕ → Event

-- A caller's Get enters; what it finds decides where it goes on.
unfoldable pub on_get : GetAction × ConnPool → World → World
on_get (refused, p) w = record w { pool = p }
on_get (check pc, p) w = record w { pool = p; checking = suc w.checking }
on_get (create, p) w = record w { pool = p; creating = suc w.creating }
on_get (wait, p) w = record w { pool = p }

-- A checked connection that is alive goes to the caller, unless the pool is closed by now; a dead one is
-- closed, and the Get enters again.
unfoldable pub on_checked : Bool → ℕ → World → World
on_checked alive n w =
    if not alive
    then record w { pool = lower w.pool; checking = n }
    else if w.pool.closed
    then record w { checking = n }
    else record w { checking = n; in_use = suc w.in_use }

unfoldable pub on_created : Bool → ℕ → World → World
on_created success n w =
    if not success
    then record w { pool = lower w.pool; creating = n }
    else if w.pool.closed
    then record w { creating = n }
    else record w { creating = n; in_use = suc w.in_use }

-- Where a Put goes on: `n` callers still hold a connection.
unfoldable pub on_put : PutAction × ConnPool → World → World
on_put (close_it, p) w = record w { pool = p }
on_put (discard, p) w = record w { pool = p }
on_put (offer waiter, p) w = record w { pool = p; offered = suc w.offered }
on_put (keep, p) w = record w { pool = p }

-- One event, or nothing where no thread is there for it.
unfoldable pub step : PoolConfig → Event → World → Option World
unfolding on_get on_checked on_created on_put
step config (get waiter) w = some (on_get (get_section config waiter w.pool) w)
step config (checked alive) w = elim w.checking [
  | zero ↦ none
  | suc n ↦ some (on_checked alive n w)
]
step config (created success) w = elim w.creating [
  | zero ↦ none
  | suc n ↦ some (on_created success n w)
]
step config (put alive conn now) w = elim w.in_use [
  | zero ↦ none
  | suc n ↦ some (on_put (put_section alive conn now w.pool) (record w { in_use = n }))
]
step config received w = elim w.offered [
  | zero ↦ none
  | suc n ↦ some (
      if w.pool.closed
      then record w { offered = n }
      else record w { offered = n; in_use = suc w.in_use })
]
step config (expired conn now) w = elim w.offered [
  | zero ↦ none
  | suc n ↦ some (on_put (put_loop conn now w.pool) (record w { offered = n }))
]
step config (gone waiter) w = some (record w { pool = remove_waiter waiter w.pool })
step config close w = some (record w { pool = close_section w.pool })
step config (tick now) w =
    if ltb 0 config.idle_timeout
    then some (record w { pool = clean_section config now w.pool })
    else none

-- The worlds that events lead to from a pool just made.
pub data Reachable (config : PoolConfig) (start : ConnPool) : World → Type 0 where
  begin :
      Reachable config start
        record { pool = start; checking = 0; creating = 0; in_use = 0; offered = 0 }
  after :
      (w w' : World) (e : Event)
      → Reachable config start w
      → step config e w ≡ some w'
      → Reachable config start w'
