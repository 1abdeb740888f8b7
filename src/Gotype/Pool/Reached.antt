-- ===== src/Gotype/Pool/Reached.antt =====
-- Every interleaving of the critical sections of gotype/pool.go keeps the pool's count.
use go_typeql.Base.{
  Bool, true, false, not, ℕ, zero, suc, none, some, if◌then◌else◌, ltb, ◌≡◌, refl, ap, subst, arith,
}
use go_typeql.Gotype.Pool.Model.{
  PoolConfig, ConnPool, lower, close_it, discard, put_loop, put_section, remove_waiter,
  clean_section,
}
use go_typeql.Gotype.Pool.Steps.{
  World, Event, step, on_checked, on_created, on_put, Reachable, get, checked, created, put,
  received, expired, gone, close, tick, begin, after,
}
use go_typeql.Gotype.Pool.Capacity.{
  outside, IsCounted, IsConsistent, forget, lower-IsCounted, put_loop-IsConsistent,
  close_section-IsCounted, clean_section-IsCounted, get-IsConsistent,
}

some-injective : {A : Type 0} {x y : A} → some x ≡ some y → x ≡ y
some-injective {x = x} e = ap (λ o. elim o [ none ↦ x | some z ↦ z ]) e

module _ (config : PoolConfig) where
  recount : (x y : ℕ) (p : ConnPool) → x ≡ y → IsCounted config x p → IsCounted config y p
  recount x y p e h = subst (λ z. IsCounted config z p) e h

  checked-IsConsistent :
      (alive : Bool) (n : ℕ) (w : World)
      → w.checking ≡ suc n
      → IsConsistent config w
      → IsConsistent config (on_checked alive n w)
  unfolding on_checked
  checked-IsConsistent alive n w e h = go alive w.pool.closed refl
    where
      fewer : IsCounted config (suc (outside (record w { checking = n }))) w.pool
      fewer = recount (outside w) _ w.pool (omega (arith, e)) h

      go :
          (a shut : Bool)
          → w.pool.closed ≡ shut
          → IsConsistent config (
              if not a
              then record w { pool = lower w.pool; checking = n }
              else if shut
              then record w { checking = n }
              else record w { checking = n; in_use = suc w.in_use })
      go false shut c = lower-IsCounted config (outside (record w { checking = n })) w.pool fewer
      go true true c =
          forget config _ (outside (record w { checking = n })) w.pool c (omega (arith, e)) h
      go true false c = recount (outside w) _ w.pool (omega (arith, e)) h

  created-IsConsistent :
      (success : Bool) (n : ℕ) (w : World)
      → w.creating ≡ suc n
      → IsConsistent config w
      → IsConsistent config (on_created success n w)
  unfolding on_created
  created-IsConsistent success n w e h = go success w.pool.closed refl
    where
      fewer : IsCounted config (suc (outside (record w { creating = n }))) w.pool
      fewer = recount (outside w) _ w.pool (omega (arith, e)) h

      go :
          (a shut : Bool)
          → w.pool.closed ≡ shut
          → IsConsistent config (
              if not a
              then record w { pool = lower w.pool; creating = n }
              else if shut
              then record w { creating = n }
              else record w { creating = n; in_use = suc w.in_use })
      go false shut c = lower-IsCounted config (outside (record w { creating = n })) w.pool fewer
      go true true c =
          forget config _ (outside (record w { creating = n })) w.pool c (omega (arith, e)) h
      go true false c = recount (outside w) _ w.pool (omega (arith, e)) h

  put-IsConsistent :
      (alive : Bool) (conn now n : ℕ) (w : World)
      → w.in_use ≡ suc n
      → IsConsistent config w
      → IsConsistent config (on_put (put_section alive conn now w.pool) (record w { in_use = n }))
  unfolding put_section on_put
  put-IsConsistent alive conn now n w e h = go alive w.pool.closed refl
    where
      w₁ : World
      w₁ = record w { in_use = n }

      fewer : IsCounted config (suc (outside w₁)) w.pool
      fewer = recount (outside w) _ w.pool (omega (arith, e)) h

      go :
          (a shut : Bool)
          → w.pool.closed ≡ shut
          → IsConsistent config (
              on_put
                (if shut
                  then (close_it, w.pool)
                  else if not a
                  then (discard, lower w.pool)
                  else put_loop conn now w.pool)
                w₁)
      go a true c = forget config _ (outside w₁) w.pool c (omega (arith, e)) h
      go false false c = lower-IsCounted config (outside w₁) w.pool fewer
      go true false c = put_loop-IsConsistent config conn now w.pool w₁ fewer

  received-IsConsistent :
      (n : ℕ) (w : World)
      → w.offered ≡ suc n
      → IsConsistent config w
      → IsConsistent config (
          if w.pool.closed
          then record w { offered = n }
          else record w { offered = n; in_use = suc w.in_use })
  received-IsConsistent n w e h = go w.pool.closed refl
    where
      go :
          (shut : Bool)
          → w.pool.closed ≡ shut
          → IsConsistent config (
              if shut
              then record w { offered = n }
              else record w { offered = n; in_use = suc w.in_use })
      go true c = forget config _ (outside (record w { offered = n })) w.pool c (omega (arith, e)) h
      go false c = recount (outside w) _ w.pool (omega (arith, e)) h

  -- One event.
  step-IsConsistent :
      (e : Event) (w w' : World)
      → IsConsistent config w
      → step config e w ≡ some w'
      → IsConsistent config w'
  unfolding step remove_waiter
  step-IsConsistent (get waiter) w w' h s =
      subst (IsConsistent config) (some-injective s) (get-IsConsistent config waiter w h)
  step-IsConsistent (checked alive) w w' h s = go w.checking refl s
    where
      go :
          (k : ℕ)
          → w.checking ≡ k
          → elim k [ zero ↦ none | suc n ↦ some (on_checked alive n w) ] ≡ some w'
          → IsConsistent config w'
      go zero e t = cc t
      go (suc n) e t =
          subst (IsConsistent config) (some-injective t) (checked-IsConsistent alive n w e h)
  step-IsConsistent (created success) w w' h s = go w.creating refl s
    where
      go :
          (k : ℕ)
          → w.creating ≡ k
          → elim k [ zero ↦ none | suc n ↦ some (on_created success n w) ] ≡ some w'
          → IsConsistent config w'
      go zero e t = cc t
      go (suc n) e t =
          subst (IsConsistent config) (some-injective t) (created-IsConsistent success n w e h)
  step-IsConsistent (put alive conn now) w w' h s = go w.in_use refl s
    where
      go :
          (k : ℕ)
          → w.in_use ≡ k
          → elim k [
            | zero ↦ none
            | suc n ↦ some (on_put (put_section alive conn now w.pool) (record w { in_use = n }))
          ]
            ≡ some w'
          → IsConsistent config w'
      go zero e t = cc t
      go (suc n) e t =
          subst (IsConsistent config) (some-injective t) (put-IsConsistent alive conn now n w e h)
  step-IsConsistent received w w' h s = go w.offered refl s
    where
      go :
          (k : ℕ)
          → w.offered ≡ k
          → elim k [
            | zero ↦ none
            | suc n ↦ some (
                if w.pool.closed
                then record w { offered = n }
                else record w { offered = n; in_use = suc w.in_use })
          ]
            ≡ some w'
          → IsConsistent config w'
      go zero e t = cc t
      go (suc n) e t =
          subst (IsConsistent config) (some-injective t) (received-IsConsistent n w e h)
  step-IsConsistent (expired conn now) w w' h s = go w.offered refl s
    where
      go :
          (k : ℕ)
          → w.offered ≡ k
          → elim k [
            | zero ↦ none
            | suc n ↦ some (on_put (put_loop conn now w.pool) (record w { offered = n }))
          ]
            ≡ some w'
          → IsConsistent config w'
      go zero e t = cc t
      go (suc n) e t = subst (IsConsistent config) (some-injective t) (
          put_loop-IsConsistent config conn now w.pool (record w { offered = n })
            (recount (outside w) _ w.pool (omega (arith, e)) h))
  step-IsConsistent (gone waiter) w w' h s =
      subst (IsConsistent config) (some-injective s)
        record { covered = h.covered; exact = h.exact; bounded = h.bounded }
  step-IsConsistent close w w' h s =
      subst (IsConsistent config) (some-injective s)
        (close_section-IsCounted config (outside w) w.pool h)
  step-IsConsistent (tick now) w w' h s = go (ltb 0 config.idle_timeout) s
    where
      go :
          (b : Bool)
          → (if b then some (record w { pool = clean_section config now w.pool }) else none)
            ≡ some w'
          → IsConsistent config w'
      go true t =
          subst (IsConsistent config) (some-injective t)
            (clean_section-IsCounted config (outside w) now w.pool h)
      go false t = cc t

  pub reached-IsConsistent :
      (start : ConnPool) (w : World)
      → IsCounted config 0 start
      → Reachable config start w
      → IsConsistent config w
  reached-IsConsistent start _ h begin = h
  reached-IsConsistent start _ h (after w w' e r s) =
      step-IsConsistent e w w' (reached-IsConsistent start w h r) s
