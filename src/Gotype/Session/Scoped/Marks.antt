-- ===== src/Gotype/Session/Scoped/Marks.antt =====
-- gotype/session.go: what a call may do to a transaction context and to the process-wide counts.
use go_typeql.Base.{
  Bool, true, false, List, [], ◌∷◌, ◌++◌, ℕ, zero, suc, ◌+◌, ◌≤◌, ℤ, pos, negsuc, ◌+ℤ◌, some,
  get_elem?, set, length, All, ◌≡◌, ◌⊎◌, refl, ap, ◌∙◌, inl, inr, arith, if◌then◌else◌,
}
use go_typeql.Gotype.Session.Scoped.{TransactionContext, Counters}

pub minus_one : (n : ℕ) → pos (suc n) +ℤ negsuc 0 ≡ pos n
unfolding ◌+ℤ◌
minus_one n = ground arith

pub plus_one : (n : ℕ) → pos n +ℤ pos 1 ≡ pos (suc n)
unfolding ◌+ℤ◌
plus_one n = ground arith

module _ {Tx : Type 0} where
  -- The contexts that are not done.
  abbrev pub open_in : List (TransactionContext Tx) → ℕ
  open_in [] = 0
  open_in (tc ∷ tcs) = (if tc.done then 0 else 1) + open_in tcs

  abbrev pub IsCounted : List (TransactionContext Tx) → Counters → Type 0
  IsCounted tcs c =
      All (λ tc. tc.closed ≡ tc.done) tcs
      × (c.active ≡ pos (open_in tcs))
      × (n : ℕ) × (c.leaked ≡ pos n)
      × (n + open_in tcs ≤ length tcs)

  -- What a call may do to its context and the counts: nothing, or it marks the context, which is then
  -- one of those that are active no longer.
  pub data Marks (tc : TransactionContext Tx) (c : Counters)
      : TransactionContext Tx → Counters → Type 0 where
    stays : Marks tc c tc c
    marks :
        (leaked : ℤ)
        → tc.done ≡ false
        → (leaked ≡ c.leaked) ⊎ (leaked ≡ c.leaked +ℤ pos 1)
        → Marks tc c
            (record tc { closed = true; done = true })
            (record { active = c.active +ℤ negsuc 0; leaked = leaked })

  abbrev pub mark_if : Bool → TransactionContext Tx → Counters → TransactionContext Tx × Counters
  mark_if b tc c =
      if b
      then (tc, c)
      else (record tc { closed = true; done = true }, record c { active = c.active +ℤ negsuc 0 })

  pub marked-Marks :
      (tc : TransactionContext Tx) (c : Counters) (leaked : ℤ) (b : Bool)
      → tc.done ≡ b
      → (leaked ≡ c.leaked) ⊎ ((leaked ≡ c.leaked +ℤ pos 1) × (b ≡ false))
      → Marks tc c
          (mark_if b tc (record c { leaked = leaked })).0
          (mark_if b tc (record c { leaked = leaked })).1
  marked-Marks tc c leaked true d (inl e) = rw e stays
  marked-Marks tc c leaked true d (inr e) = absurd (cc)
  marked-Marks tc c leaked false d (inl e) = marks leaked d (inl e)
  marked-Marks tc c leaked false d (inr e) = marks leaked d (inr e.0)

  pub open_in-append :
      (xs ys : List (TransactionContext Tx)) → open_in (xs ++ ys) ≡ open_in xs + open_in ys
  open_in-append [] ys = omega arith
  open_in-append (x ∷ xs) ys = omega (arith, open_in-append xs ys)

  open_in-set :
      (tcs : List (TransactionContext Tx)) (i : ℕ) (tc tc' : TransactionContext Tx)
      → get_elem? tcs i ≡ some tc
      → tc.done ≡ false
      → tc'.done ≡ true
      → suc (open_in (set tcs i tc')) ≡ open_in tcs
  open_in-set [] i tc tc' h d d' = cc
  open_in-set (x ∷ xs) zero tc tc' h d d' = ground arith
  open_in-set (x ∷ xs) (suc i) tc tc' h d d' = omega (arith, open_in-set xs i tc tc' h d d')

  length-set :
      (tcs : List (TransactionContext Tx)) (i : ℕ) (tc : TransactionContext Tx)
      → length (set tcs i tc) ≡ length tcs
  length-set [] i tc = refl
  length-set (x ∷ xs) zero tc = refl
  length-set (x ∷ xs) (suc i) tc = ap suc (length-set xs i tc)

  set_same :
      (tcs : List (TransactionContext Tx)) (i : ℕ) (tc : TransactionContext Tx)
      → get_elem? tcs i ≡ some tc
      → set tcs i tc ≡ tcs
  set_same [] i tc h = refl
  set_same (x ∷ xs) zero tc h = cc
  set_same (x ∷ xs) (suc i) tc h = ap (λ l. x ∷ l) (set_same xs i tc h)

  All-set :
      (tcs : List (TransactionContext Tx)) (i : ℕ) (tc : TransactionContext Tx)
      → All (λ t. t.closed ≡ t.done) tcs
      → tc.closed ≡ tc.done
      → All (λ t. t.closed ≡ t.done) (set tcs i tc)
  All-set [] i tc h m = tt
  All-set (x ∷ xs) zero tc h m = (m, h.1)
  All-set (x ∷ xs) (suc i) tc h m = (h.0, All-set xs i tc h.1 m)

  pub Marks-IsCounted :
      (tcs : List (TransactionContext Tx)) (i : ℕ) (tc tc' : TransactionContext Tx)
      (c c' : Counters)
      → get_elem? tcs i ≡ some tc
      → Marks tc c tc' c'
      → IsCounted tcs c
      → IsCounted (set tcs i tc') c'
  Marks-IsCounted tcs i tc _ c _ at stays counted = rw (set_same tcs i tc at) counted
  Marks-IsCounted tcs i tc _ c _ at (marks leaked d l) (marked, active, n, is_n, le) =
      let tc' = record tc { closed = true; done = true } in
      let fewer = open_in-set tcs i tc tc' at d refl in
      let same = length-set tcs i tc' in
      let now : c.active +ℤ negsuc 0 ≡ pos (open_in (set tcs i tc')) =
        rw active (rw (← fewer) (minus_one (open_in (set tcs i tc')))) in
      let marked' = All-set tcs i tc' marked refl in
      elim l [
        | inl e ↦ (marked', now, n, e ∙ is_n, omega arith)
        | inr e ↦ (marked', now, suc n, rw e (rw is_n (plus_one n)), omega arith)
      ]
