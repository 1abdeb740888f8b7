-- ===== src/Gotype/Pool/Capacity.antt =====
-- The pool of gotype/pool.go never has more connections than its maximum, whatever the interleaving.
use go_typeql.Base.{
  Bool, true, false, ℕ, suc, ◌+◌, ◌≤◌, ◌<◌, List, [], ◌∷◌, ◌++◌, length, length-append,
  if◌then◌else◌, ◌≡◌, refl, sym, ap, subst, inl, inr, arith, Bool-cases,
}
use go_typeql.Gotype.Pool.Model.{
  PoolConfig, PooledConn, ConnPool, GetAction, refused, check, create, wait, get_section, has_room,
  split_last, lower, offer, keep, put_loop, close_section, clean_section,
}
use go_typeql.Gotype.Pool.Steps.{World, on_get, on_put}
use go_typeql.Gotype.Pool.Cleaner.{clean_loop-Cleaned}

-- The connections outside the pool.
abbrev pub outside : World → ℕ
outside w = w.checking + w.creating + w.in_use + w.offered

-- The count covers the connections inside and outside, exactly while the pool is open, and keeps to the
-- maximum, where there is one. `x` is the number outside.
pub record IsCounted (config : PoolConfig) (x : ℕ) (p : ConnPool) : Type 0 where
  pub covered : length p.conns + x ≤ p.num_open
  pub exact : p.closed ≡ false → p.num_open ≡ length p.conns + x
  pub bounded : 0 < config.max_size → p.num_open ≤ config.max_size

abbrev pub IsConsistent : PoolConfig → World → Type 0
IsConsistent config w = IsCounted config (outside w) w.pool

module _ (config : PoolConfig) where
  -- The same pool with fewer connections outside, once it is closed.
  pub forget :
      (x y : ℕ) (p : ConnPool)
      → p.closed ≡ true
      → y ≤ x
      → IsCounted config x p
      → IsCounted config y p
  forget x y p c l h = record {
    covered = omega (arith, h.covered, l);
    exact = λ e. cc (c, e);
    bounded = h.bounded;
  }

  pub lower-IsCounted :
      (x : ℕ) (p : ConnPool) → IsCounted config (suc x) p → IsCounted config x (lower p)
  lower-IsCounted x p h = record {
    covered = omega (arith, h.covered);
    exact = λ e. omega (arith, h.exact e);
    bounded = λ m. omega (arith, h.bounded m);
  }

  pub put_loop-IsConsistent :
      (conn now : ℕ) (p : ConnPool) (w : World)
      → IsCounted config (suc (outside w)) p
      → IsConsistent config (on_put (put_loop conn now p) w)
  unfolding put_loop on_put
  put_loop-IsConsistent conn now p w h = go p.wait_queue
    where
      go :
          (queue : List ℕ)
          → IsConsistent config (
              on_put
                (elim queue [
                  | waiter ∷ waiters ↦ (offer waiter, record p { wait_queue = waiters })
                  | [] ↦ (
                    keep,
                    record p { conns = p.conns ++ record { conn = conn; idle_since = now } ∷ [] },
                  )
                ])
                w)
      go (waiter ∷ waiters) = record {
        covered = omega (arith, h.covered);
        exact = λ e. omega (arith, h.exact e);
        bounded = h.bounded;
      }
      go [] =
          let grown = length-append p.conns (record { conn = conn; idle_since = now } ∷ []) in
          record {
            covered = omega (arith, h.covered, grown);
            exact = λ e. omega (arith, h.exact e, grown);
            bounded = h.bounded;
          }

  pub close_section-IsCounted :
      (x : ℕ) (p : ConnPool) → IsCounted config x p → IsCounted config x (close_section p)
  unfolding close_section
  close_section-IsCounted x p h = elim (Bool-cases p.closed) [
    | inl e ↦ subst (IsCounted config x) (sym (ap (λ b. if b then p else shut) e)) h
    | inr e ↦
        subst (IsCounted config x) (sym (ap (λ b. if b then p else shut) e))
          record { covered = omega (arith, h.covered); exact = λ f. cc f; bounded = h.bounded }
  ]
    where
      shut : ConnPool
      shut = record { conns = []; num_open = p.num_open; wait_queue = []; closed = true }

  pub clean_section-IsCounted :
      (x now : ℕ) (p : ConnPool)
      → IsCounted config x p
      → IsCounted config x (clean_section config now p)
  unfolding clean_section
  clean_section-IsCounted x now p h =
      let (falls, fewer, few, more) =
        clean_loop-Cleaned config now [] p.num_open p.conns (omega (arith, h.covered)) in
      record {
        covered = omega (arith, falls, fewer, h.covered);
        exact = λ e. omega (arith, falls, fewer, h.covered, h.exact e);
        bounded = λ m. omega (arith, falls, fewer, h.covered, h.bounded m);
      }

  split_last-length :
      (pc : PooledConn) (pcs : List PooledConn) → length (split_last pc pcs).0 ≡ length pcs
  unfolding split_last
  split_last-length pc [] = refl
  split_last-length pc (y ∷ ys) = omega (arith, split_last-length y ys)

  pub get-IsConsistent :
      (waiter : ℕ) (w : World)
      → IsConsistent config w
      → IsConsistent config (on_get (get_section config waiter w.pool) w)
  unfolding on_get get_section has_room
  get-IsConsistent waiter w h = go w.pool.closed w.pool.conns (has_room config w.pool) refl refl
    where
      p : ConnPool
      p = w.pool

      enter : Bool → List PooledConn → Bool → GetAction × ConnPool
      enter shut conns room = if shut then (refused, p) else elim conns [
        | pc ∷ pcs ↦ let (rest, last) = split_last pc pcs in (check last, record p { conns = rest })
        | [] ↦
            if room
            then (create, record p { num_open = suc p.num_open })
            else (wait, record p { wait_queue = p.wait_queue ++ waiter ∷ [] })
      ]

      go :
          (shut : Bool) (conns : List PooledConn) (room : Bool)
          → p.conns ≡ conns
          → has_room config p ≡ room
          → IsConsistent config (on_get (enter shut conns room) w)
      go true conns room f r = h
      go false (pc ∷ pcs) room f r =
          let shorter = split_last-length pc pcs in
          let size = ap length f in
          record {
            covered = omega (arith, h.covered, shorter, size);
            exact = λ e. omega (arith, h.exact e, shorter, size);
            bounded = h.bounded;
          }
      go false [] true f r = record {
        covered = omega (arith, h.covered);
        exact = λ e. omega (arith, h.exact e);
        bounded = λ m. ground (arith, m, r);
      }
      go false [] false f r = record {
        covered = omega (arith, h.covered);
        exact = λ e. omega (arith, h.exact e);
        bounded = h.bounded;
      }
