-- ===== src/Gotype/Session/Scoped/Counts.antt =====
-- gotype/session.go: what the process-wide counts of transaction contexts say.
use go_typeql.Base.{
  String, Bool, true, false, List, [], ◌∷◌, ◌++◌, ℕ, zero, suc, pos, ◌+ℤ◌, Option, none, some, ok,
  err, get_elem?, length-append, All, All-append, ◌≡◌, ◌<>◌, refl, sym, subst, inl, inr, arith,
  Bool-cases, Option-cases, Result-cases, if◌then◌else◌,
}
use go_typeql.Gotype.Session.Scoped.Marks.{
  open_in, IsCounted, Marks, stays, plus_one, marked-Marks, open_in-append, Marks-IsCounted,
}
use go_typeql.Gotype.Session.{Driver, TransactionType}
use go_typeql.Gotype.Session.Scoped.{
  Control, TransactionContext, Counters, mark_done, begin_context, commit_context, rollback_context,
  close_context, handle_leak, Event, begins, commits, rolls_back, closes, leaks, Process,
  process_step, run_events, on_context, settle, add_begun, behind_result,
}

module _ {W Tx Row : Type 0} (driver : Driver W Tx Row) (control : Control W Tx) where
  mark_done-Marks :
      (tc : TransactionContext Tx) (c : Counters) → Marks tc c (mark_done tc c).0 (mark_done tc c).1
  unfolding mark_done
  mark_done-Marks tc c = marked-Marks tc c c.leaked tc.done refl (inl refl)

  settle-Marks :
      (tc : TransactionContext Tx) (c : Counters) (answer : Option String × W)
      → Marks tc c (settle driver control tc c answer).1 (settle driver control tc c answer).2
  settle-Marks tc c (none, w) = mark_done-Marks tc c
  settle-Marks tc c (some e, w) = elim (Bool-cases (control.is_open tc.tx w)) [
    | inl o ↦ rw o stays
    | inr o ↦ rw o (mark_done-Marks tc c)
  ]

  abbrev leak_if :
      Bool → TransactionContext Tx → Counters → W → TransactionContext Tx × Counters × W
  leak_if b tc c w =
      let (tc', c') = mark_done tc (record c { leaked = c.leaked +ℤ pos 1 }) in
      if b then (tc, c, w) else (tc', c', control.report_leak w)

  leak_if-Marks :
      (tc : TransactionContext Tx) (c : Counters) (w : W) (b : Bool)
      → tc.done ≡ b
      → Marks tc c (leak_if b tc c w).0 (leak_if b tc c w).1
  unfolding mark_done
  leak_if-Marks tc c w true d = stays
  leak_if-Marks tc c w false d = marked-Marks tc c (c.leaked +ℤ pos 1) tc.done refl (inr (refl, d))

  -- A call that marks its context or leaves it.
  abbrev IsCall :
      (TransactionContext Tx → Counters → W → TransactionContext Tx × Counters × W) → Type 0
  IsCall call =
      (tc : TransactionContext Tx) (c : Counters) (w : W)
      → tc.closed ≡ tc.done
      → Marks tc c (call tc c w).0 (call tc c w).1

  All-get :
      (tcs : List (TransactionContext Tx)) (i : ℕ) (tc : TransactionContext Tx)
      → All (λ t. t.closed ≡ t.done) tcs
      → get_elem? tcs i ≡ some tc
      → tc.closed ≡ tc.done
  All-get [] i tc h at = cc
  All-get (x ∷ xs) zero tc h at = let e : x ≡ tc = cc in subst (λ t. t.closed ≡ t.done) e h.0
  All-get (x ∷ xs) (suc i) tc h at = All-get xs i tc h.1 at

  abbrev pub Counted : Process driver control → Type 0
  Counted p = IsCounted p.contexts p.counters

  on_context-IsCounted :
      (i : ℕ) (call : TransactionContext Tx → Counters → W → TransactionContext Tx × Counters × W)
      (p : Process driver control)
      → IsCall call
      → Counted p
      → Counted (on_context driver control i call p)
  on_context-IsCounted i call p is_call counted = elim (Option-cases (get_elem? p.contexts i)) [
    | inl none_at ↦ rw (on_context, none_at) counted
    | inr (tc, at) ↦
        rw (on_context, at)
          (Marks-IsCounted p.contexts i tc _ p.counters _ at
            (is_call tc p.counters p.world (All-get p.contexts i tc counted.0 at)) counted)
  ]

  begins-IsCounted :
      (t : TransactionType) (p : Process driver control)
      → Counted p
      → Counted (process_step driver control (begins t) p)
  unfolding process_step
  begins-IsCounted t p (marked, active, n, is_n, le) =
      elim (Result-cases (driver.open_ t p.world).0) [
        | inr (e, o) ↦
            let begun : begin_context driver control t p.counters p.world
                ≡ (err ("begin transaction: " <> e), p.counters, (driver.open_ t p.world).1) =
              unfold begin_context in rw (begin_context, o) refl in
            subst (λ r. Counted (add_begun driver control p r)) (sym begun)
              (marked, active, n, is_n, le)
        | inl (tx, o) ↦
            let tc : TransactionContext Tx = record {
              tx = tx;
              tx_type = t;
              closed = false;
              done = false;
            } in
            let c : Counters = record p.counters { active = p.counters.active +ℤ pos 1 } in
            let begun : begin_context driver control t p.counters p.world
                ≡ (ok tc, c, (driver.open_ t p.world).1) =
              unfold begin_context in rw (begin_context, o) refl in
            let one_more : open_in (p.contexts ++ tc ∷ []) ≡ suc (open_in p.contexts) =
              omega (arith, open_in-append p.contexts (tc ∷ [])) in
            let now : c.active ≡ pos (open_in (p.contexts ++ tc ∷ [])) =
              rw active (rw one_more (plus_one (open_in p.contexts))) in
            subst (λ r. Counted (add_begun driver control p r)) (sym begun)
              (
                All-append (λ t. t.closed ≡ t.done) p.contexts (tc ∷ []) marked (refl, tt),
                now,
                n,
                is_n,
                omega (arith, length-append p.contexts (tc ∷ [])),
              )
      ]

  process_step-IsCounted :
      (e : Event driver control) (p : Process driver control)
      → Counted p
      → Counted (process_step driver control e p)
  unfolding process_step commit_context rollback_context close_context handle_leak
  process_step-IsCounted (begins t) p h = begins-IsCounted t p h
  process_step-IsCounted (commits i) p h =
      on_context-IsCounted i
        (λ tc c w. behind_result driver control (commit_context driver control tc c w)) p
        (λ tc c w _. settle-Marks tc c (driver.commit tc.tx w)) h
  process_step-IsCounted (rolls_back i) p h =
      on_context-IsCounted i
        (λ tc c w. behind_result driver control (rollback_context driver control tc c w)) p
        (λ tc c w _. settle-Marks tc c (control.rollback_ tc.tx w)) h
  process_step-IsCounted (closes i) p h =
      on_context-IsCounted i (close_context driver control) p (λ tc c w _. mark_done-Marks tc c) h
  process_step-IsCounted (leaks i) p h =
      on_context-IsCounted i (handle_leak driver control) p
        (λ tc c w m. leak_if-Marks tc c w tc.closed (sym m)) h

  run_events-IsCounted :
      (es : List (Event driver control)) (p : Process driver control)
      → Counted p
      → Counted (run_events driver control es p)
  unfolding run_events
  run_events-IsCounted [] p h = h
  run_events-IsCounted (e ∷ es) p h =
      run_events-IsCounted es (process_step driver control e p) (process_step-IsCounted e p h)

  -- In every history of transaction contexts that begins with none and with both counts at zero,
  -- whatever calls are made on whichever contexts and however often, whatever the driver answers, and
  -- whenever the finalizer runs: the active count is exactly the number of contexts that are not done,
  -- so never negative; a context is closed exactly where it is done; and the leaked count is a number
  -- that, with the active one, is at most the number of contexts begun.
  pub run_events-Counted :
      (es : List (Event driver control)) (w : W)
      → Counted (
          run_events driver control es (record {
            contexts = [];
            counters = record { active = pos 0; leaked = pos 0 };
            world = w;
          }))
  run_events-Counted es w = run_events-IsCounted es _ (tt, refl, 0, refl, omega arith)
