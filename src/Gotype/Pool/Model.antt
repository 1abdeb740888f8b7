-- ===== src/Gotype/Pool/Model.antt =====
-- gotype/pool.go: the state of a `ConnPool` and its critical sections, one function for each stretch
-- of code that runs with the mutex held.
use go_typeql.Base.{
  String, Bool, true, false, not, ◌&&◌, ◌||◌, ℕ, zero, suc, ◌+◌, ◌-◌, List, [], ◌∷◌, ◌++◌, length,
  Result, ok, err, if◌then◌else◌, ltb, eqb,
}

-- Sizes and durations are not negative.
pub record PoolConfig : Type 0 where
  pub min_size : ℕ
  pub max_size : ℕ
  pub idle_timeout : ℕ

-- A connection is its number.
pub record PooledConn : Type 0 where
  pub conn : ℕ
  pub idle_since : ℕ

-- Every read of `num_open - 1` below stands where a connection that it counts is given up.
pub record ConnPool : Type 0 where
  pub conns : List PooledConn
  pub num_open : ℕ
  pub wait_queue : List ℕ
  pub closed : Bool

-- `p.conns[:n-1]` and `p.conns[n-1]`.
unfoldable pub split_last {ℓ} : {A : Type ℓ} → A → List A → List A × A
split_last x [] = ([], x)
split_last x (y ∷ ys) = let (init, last) = split_last y ys in (x ∷ init, last)

-- What a call of Get does behind its first critical section.
pub data GetAction : Type 0 where
  refused : GetAction
  check : PooledConn → GetAction
  create : GetAction
  wait : GetAction

unfoldable pub has_room : PoolConfig → ConnPool → Bool
has_room config p = eqb config.max_size 0 || ltb p.num_open config.max_size

unfoldable pub get_section : PoolConfig → ℕ → ConnPool → GetAction × ConnPool
unfolding has_room split_last
get_section config waiter p = if p.closed then (refused, p) else elim p.conns [
  | pc ∷ pcs ↦ let (rest, last) = split_last pc pcs in (check last, record p { conns = rest })
  | [] ↦
      if has_room config p
      then (create, record p { num_open = suc p.num_open })
      else (wait, record p { wait_queue = p.wait_queue ++ waiter ∷ [] })
]

-- `p.numOpen--`.
abbrev pub lower : ConnPool → ConnPool
lower p = record p { num_open = p.num_open - 1 }

pub data PutAction : Type 0 where
  close_it : PutAction
  discard : PutAction
  offer : ℕ → PutAction
  keep : PutAction

-- The head of Put's loop over the waiters, and what stands behind the loop.
unfoldable pub put_loop : ℕ → ℕ → ConnPool → PutAction × ConnPool
put_loop conn now p = elim p.wait_queue [
  | waiter ∷ waiters ↦ (offer waiter, record p { wait_queue = waiters })
  | [] ↦ (keep, record p { conns = p.conns ++ record { conn = conn; idle_since = now } ∷ [] })
]

-- Put, where `alive` is the connection's IsOpen.
unfoldable pub put_section : Bool → ℕ → ℕ → ConnPool → PutAction × ConnPool
unfolding put_loop
put_section alive conn now p =
    if p.closed
    then (close_it, p)
    else if not alive
    then (discard, lower p)
    else put_loop conn now p

unfoldable pub close_section : ConnPool → ConnPool
close_section p =
    if p.closed
    then p
    else record { conns = []; num_open = p.num_open; wait_queue = []; closed = true }

unfoldable pub remove_from : ℕ → List ℕ → List ℕ
remove_from waiter [] = []
remove_from waiter (w ∷ ws) =
    let rest = remove_from waiter ws in if eqb w waiter then ws else w ∷ rest

unfoldable pub remove_waiter : ℕ → ConnPool → ConnPool
unfolding remove_from
remove_waiter waiter p = record p { wait_queue = remove_from waiter p.wait_queue }

-- The cleaner's loop: the connections kept so far, and the count.
unfoldable pub clean_loop :
    PoolConfig → ℕ → List PooledConn → ℕ → List PooledConn → List PooledConn × ℕ
clean_loop config now kept n [] = (kept, n)
clean_loop config now kept n (pc ∷ pcs) =
    let keeping = clean_loop config now (kept ++ pc ∷ []) n pcs in
    let closing = clean_loop config now kept (n - 1) pcs in
    if ltb now (pc.idle_since + config.idle_timeout) || ltb (length kept) config.min_size
    then keeping
    else closing

unfoldable pub clean_section : PoolConfig → ℕ → ConnPool → ConnPool
unfolding clean_loop
clean_section config now p =
    let (kept, n) = clean_loop config now [] p.num_open p.conns in
    record p { conns = kept; num_open = n }

pub record PoolStats : Type 0 where
  pub available : ℕ
  pub in_use : ℕ
  pub total : ℕ
  pub waiting : ℕ

unfoldable pub stats : ConnPool → PoolStats
stats p = record {
  available = length p.conns;
  in_use = p.num_open - length p.conns;
  total = p.num_open;
  waiting = length p.wait_queue;
}

abbrev pub empty_pool : ConnPool
empty_pool = record { conns = []; num_open = 0; wait_queue = []; closed = false }

module _ {W : Type 0} (factory : W → Result String ℕ × W) (now : W → ℕ) where
  -- The loop that warms the pool up.
  unfoldable pub warm_up : ℕ → ConnPool → W → Result String ConnPool × W
  warm_up zero p w = (ok p, w)
  warm_up (suc n) p w =
      let (made, w₁) = factory w in
      elim made [
        | err e ↦ (err e, w₁)
        | ok conn ↦
            warm_up n
              (record p {
                conns = p.conns ++ record { conn = conn; idle_since = now w₁ } ∷ [];
                num_open = suc p.num_open;
              })
              w₁
      ]

  -- `NewConnPool`. Where the factory fails, the pool made so far is closed and lost.
  unfoldable pub new_conn_pool : PoolConfig → W → Result String ConnPool × W
  unfolding warm_up
  new_conn_pool config w =
      if ltb 0 config.max_size && ltb config.max_size config.min_size
      then (err "invalid pool config", w)
      else warm_up config.min_size empty_pool w
