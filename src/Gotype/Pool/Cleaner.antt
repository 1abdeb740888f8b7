-- ===== src/Gotype/Pool/Cleaner.antt =====
-- What a tick of the cleaner of gotype/pool.go closes and keeps.
use go_typeql.Base.{
  Bool, true, false, ◌||◌, ℕ, ◌+◌, ◌-◌, ◌≤◌, ◌<◌, List, [], ◌∷◌, ◌++◌, append_assoc, append-nil,
  length, length-append, ltb, ◌≡◌, refl, sym, subst, ◌∙◌, inl, inr, arith, Bool-cases,
}
use go_typeql.Gotype.Pool.Model.{PoolConfig, PooledConn, ConnPool, clean_loop, clean_section}

module _ (config : PoolConfig) (now : ℕ) where
  abbrev keeps : List PooledConn → PooledConn → Bool
  keeps ks pc = ltb now (pc.idle_since + config.idle_timeout) || ltb (length ks) config.min_size

  clean_loop-keep :
      (ks : List PooledConn) (n : ℕ) (pc : PooledConn) (pcs : List PooledConn)
      → keeps ks pc ≡ true
      → clean_loop config now ks n (pc ∷ pcs) ≡ clean_loop config now (ks ++ pc ∷ []) n pcs
  unfolding clean_loop
  clean_loop-keep ks n pc pcs e = rw (clean_loop, e) refl

  clean_loop-close :
      (ks : List PooledConn) (n : ℕ) (pc : PooledConn) (pcs : List PooledConn)
      → keeps ks pc ≡ false
      → clean_loop config now ks n (pc ∷ pcs) ≡ clean_loop config now ks (n - 1) pcs
  unfolding clean_loop
  clean_loop-close ks n pc pcs e = rw (clean_loop, e) refl

  closes-enough :
      (ks : List PooledConn) (pc : PooledConn) → keeps ks pc ≡ false → config.min_size ≤ length ks
  closes-enough ks pc e = ground arith

  -- The count falls by the number of connections closed, and no connection is closed where fewer than
  -- the least number are kept.
  abbrev Cleaned : List PooledConn → ℕ → List PooledConn → List PooledConn × ℕ → Type 0
  Cleaned ks n pcs out =
      (length out.0 + (n - (length ks + length pcs)) ≡ out.1)
      × (length out.0 ≤ length ks + length pcs)
      × (length out.0 < config.min_size → out.0 ≡ ks ++ pcs)
      × (length ks ≤ length out.0)

  pub clean_loop-Cleaned :
      (ks : List PooledConn) (n : ℕ) (pcs : List PooledConn)
      → length ks + length pcs ≤ n
      → Cleaned ks n pcs (clean_loop config now ks n pcs)
  unfolding clean_loop
  clean_loop-Cleaned ks n [] h =
      (omega (arith, h), omega arith, (λ _. sym (append-nil ks)), omega arith)
  clean_loop-Cleaned ks n (pc ∷ pcs) h = elim (Bool-cases (keeps ks pc)) [
    | inl e ↦
        let grown = length-append ks (pc ∷ []) in
        let (falls, fewer, few, more) =
          clean_loop-Cleaned (ks ++ pc ∷ []) n pcs (omega (arith, h, grown)) in
        subst (Cleaned ks n (pc ∷ pcs)) (sym (clean_loop-keep ks n pc pcs e)) (
          omega (arith, falls, grown, h),
          omega (arith, fewer, grown),
          (λ l. few l ∙ append_assoc ks (pc ∷ []) pcs),
          omega (arith, more, grown),
        )
    | inr e ↦
        let (falls, fewer, few, more) = clean_loop-Cleaned ks (n - 1) pcs (omega (arith, h)) in
        subst (Cleaned ks n (pc ∷ pcs)) (sym (clean_loop-close ks n pc pcs e)) (
          omega (arith, falls, h),
          omega (arith, fewer),
          (λ l. absurd (omega (arith, l, more, closes-enough ks pc e))),
          more,
        )
  ]

-- In a pool whose count covers the connections in it, a tick of the cleaner lowers the count by exactly
-- the number of connections that it closes; and where fewer than the least number are left, it has
-- closed none.
clean_section-keeps :
    (config : PoolConfig) (now : ℕ) (p : ConnPool)
    → length p.conns ≤ p.num_open
    → let after = clean_section config now p in
      (after.num_open + length p.conns ≡ p.num_open + length after.conns)
      × (length after.conns < config.min_size → after.conns ≡ p.conns)
unfolding clean_section
clean_section-keeps config now p h =
    let (falls, fewer, few, more) =
      clean_loop-Cleaned config now [] p.num_open p.conns (omega (arith, h)) in
    (omega (arith, falls, h, fewer), few)
