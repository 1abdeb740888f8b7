-- ===== src/Gotype/Session/Scoped.antt =====
-- gotype/session.go: `TransactionContext` and the process-wide counts of them, and `EnsureDatabase`. A
-- history is a list of events, each of them a call on one of the contexts begun so far, or the
-- finalizer on one; the contexts stand in the order in which they were begun.
pub mod Marks
pub mod Counts
mod Tests
use go_typeql.Base.{
  String, Bool, true, false, List, [], ◌∷◌, ◌++◌, ℕ, ℤ, pos, negsuc, ◌+ℤ◌, Option, none, some,
  Result, ok, err, get_elem?, set, not, ◌<>◌, if◌then◌else◌,
}
use go_typeql.Gotype.Session.{Driver, TransactionType}

-- What a context uses of a transaction besides its queries.
pub record Control (W Tx : Type 0) : Type 0 where
  pub rollback_ : Tx → W → Option String × W
  pub is_open : Tx → W → Bool
  pub report_leak : W → W

-- `done` is whether the `sync.Once` has run.
pub record TransactionContext (Tx : Type 0) : Type 0 where
  pub tx : Tx
  pub tx_type : TransactionType
  pub closed : Bool
  pub done : Bool

pub record Counters : Type 0 where
  pub active : ℤ
  pub leaked : ℤ

unfoldable pub mark_done :
    {Tx : Type 0} → TransactionContext Tx → Counters → TransactionContext Tx × Counters
mark_done tc c =
    if tc.done
    then (tc, c)
    else (record tc { closed = true; done = true }, record c { active = c.active +ℤ negsuc 0 })

module _ {W Tx Row : Type 0} (driver : Driver W Tx Row) (control : Control W Tx) where
  -- A call on a context: its result, the context, the counts and the world behind it.
  abbrev pub Called : Type 0 → Type 0
  Called A = A × TransactionContext Tx × Counters × W

  unfoldable pub begin_context :
      TransactionType → Counters → W → Result String (TransactionContext Tx) × Counters × W
  begin_context t c w =
      let (opened, w₁) = driver.open_ t w in
      elim opened [
        | err e ↦ (err ("begin transaction: " <> e), c, w₁)
        | ok tx ↦ (
          ok (record { tx = tx; tx_type = t; closed = false; done = false }),
          record c { active = c.active +ℤ pos 1 },
          w₁,
        )
      ]

  -- The end of Commit and Rollback, which mark the context where the call succeeded or has consumed the
  -- transaction.
  abbrev pub settle : TransactionContext Tx → Counters → Option String × W → Called (Option String)
  settle tc c answer =
      let (tc', c') = mark_done tc c in
      elim answer.0 [
        | none ↦ (none, tc', c', answer.1)
        | some e ↦
            if control.is_open tc.tx answer.1
            then (some e, tc, c, answer.1)
            else (some e, tc', c', answer.1)
      ]

  unfoldable pub commit_context : TransactionContext Tx → Counters → W → Called (Option String)
  unfolding mark_done
  commit_context tc c w = settle tc c (driver.commit tc.tx w)

  unfoldable pub rollback_context : TransactionContext Tx → Counters → W → Called (Option String)
  unfolding mark_done
  rollback_context tc c w = settle tc c (control.rollback_ tc.tx w)

  unfoldable pub close_context :
      TransactionContext Tx → Counters → W → TransactionContext Tx × Counters × W
  unfolding mark_done
  close_context tc c w = let (tc', c') = mark_done tc c in (tc', c', driver.close_ tc.tx w)

  unfoldable pub handle_leak :
      TransactionContext Tx → Counters → W → TransactionContext Tx × Counters × W
  unfolding mark_done
  handle_leak tc c w =
      let (tc', c') = mark_done tc (record c { leaked = c.leaked +ℤ pos 1 }) in
      if tc.closed then (tc, c, w) else (tc', c', control.report_leak w)

  pub data Event : Type 0 where
    begins : TransactionType → Event
    commits rolls_back closes leaks : ℕ → Event

  pub record Process : Type 0 where
    pub contexts : List (TransactionContext Tx)
    pub counters : Counters
    pub world : W

  -- A call on the context with some index, the others staying as they are.
  abbrev pub on_context :
      ℕ
      → (TransactionContext Tx → Counters → W → TransactionContext Tx × Counters × W)
      → Process
      → Process
  on_context i call p = elim (get_elem? p.contexts i) [
    | none ↦ p
    | some tc ↦
        let (tc', c, w) = call tc p.counters p.world in
        record { contexts = set p.contexts i tc'; counters = c; world = w }
  ]

  -- A context that was begun stands behind the others.
  abbrev pub add_begun : Process → Result String (TransactionContext Tx) × Counters × W → Process
  add_begun p (err e, c, w) = record p { counters = c; world = w }
  add_begun p (ok tc, c, w) = record { contexts = p.contexts ++ tc ∷ []; counters = c; world = w }

  abbrev pub behind_result : {A : Type 0} → Called A → TransactionContext Tx × Counters × W
  behind_result (a, tc, c, w) = (tc, c, w)

  unfoldable pub process_step : Event → Process → Process
  unfolding begin_context commit_context rollback_context close_context handle_leak
  process_step (begins t) p = add_begun p (begin_context t p.counters p.world)
  process_step (commits i) p = on_context i (λ tc c w. behind_result (commit_context tc c w)) p
  process_step (rolls_back i) p = on_context i (λ tc c w. behind_result (rollback_context tc c w)) p
  process_step (closes i) p = on_context i close_context p
  process_step (leaks i) p = on_context i handle_leak p

  pub run_events : List Event → Process → Process
  unfolding process_step
  run_events [] p = p
  run_events (e ∷ es) p = run_events es (process_step e p)

-- What `EnsureDatabase` asks of its context and connection.
pub record Server (W : Type 0) : Type 0 where
  pub cancelled : W → Option String
  pub database_contains : String → W → Result String Bool × W
  pub database_create : String → W → Option String × W

unfoldable pub ensure_database : {W : Type 0} → Server W → String → W → Result String Bool × W
ensure_database server name w = elim (server.cancelled w) [
  | some e ↦ (err ("ensure database: context cancelled: " <> e), w)
  | none ↦
      let (answer, w₁) = server.database_contains name w in
      elim answer [
        | err e ↦ (err ("ensure database: check existence: " <> e), w₁)
        | ok true ↦ (ok false, w₁)
        | ok false ↦
            let (failed, w₂) = server.database_create name w₁ in
            elim failed [
              | some e ↦ (err ("ensure database: create: " <> e), w₂)
              | none ↦ (ok true, w₂)
            ]
      ]
]
