-- ===== src/Gotype/Sequential/Statements/Sent.antt =====
-- gotype/seq_migrate.go: what a migration made of statements asks of the driver.
use go_typeql.Base.{
  String, false, List, [], ◌∷◌, ◌++◌, append_assoc, append-nil, ℕ, suc, Option, none, some, Result,
  ok, err, is_ok, length, take, ◌==◌, get_elem?, ◌≢◌, ◌≡◌, refl, sym, ap, ◌∙◌, inl, inr, Bool-cases,
  Option-cases, if◌then◌else◌,
}
use go_typeql.Gotype.Session.{Driver, TransactionType, write, schema, execute_write}
use go_typeql.Gotype.Session.Trace.{
  Request, tracing, Stage, requests, Grown, succeeded, execute_write-Grown,
}
use go_typeql.Gotype.Sequential.Model.{Effect}
use go_typeql.Gotype.Sequential.Statements.{
  infer_tx_type, exec_stmt, exec_all, error_of, tql_migration,
}

-- The transaction that a statement asks for.
abbrev pub type_of : String → TransactionType
type_of stmt = if infer_tx_type stmt == "schema" then schema else write

-- The requests of statements each of which has committed.
abbrev pub committed : List String → List Request
committed [] = []
committed (stmt ∷ stmts) = requests (type_of stmt) stmt Stage.finished ++ committed stmts

-- The requests of the statement at which a run stops, if there is one.
abbrev pub stopped : Option (String × Stage) → List Request
stopped none = []
stopped (some (stmt, stage)) = requests (type_of stmt) stmt stage

-- What a run of statements has sent behind a log: the requests of the first ones, which have all
-- committed, and where it failed those of the next one, up to the stage that this one came to.
abbrev pub Ran : List String → List Request → List Request → Option String → Type 0
Ran stmts log log' failed =
    (n : ℕ) × (last : Option (String × Stage)) × (log'
      ≡ log ++ (committed (take n stmts) ++ stopped last))
    × ((failed ≡ none) → (n ≡ length stmts) × (last ≡ none))
    × ((failed ≢ none)
        → (stage : Stage) × (stmt : String) × (get_elem? stmts n ≡ some stmt)
          × (last ≡ some (stmt, stage))
          × (stage ≢ Stage.finished))

module _ {W Tx Row : Type 0} (driver : Driver W Tx Row) where
  error_of-Grown :
      {A : Type 0} (stmt : String) (log : List Request) (r : Result String A × (List Request × W))
      → Grown write stmt log r.1.0 (is_ok r.0)
      → Grown write stmt log (error_of r).1.0 (succeeded (error_of r).0)
  error_of-Grown stmt log (ok a, s) h = h
  error_of-Grown stmt log (err e, s) h = h

  exec_stmt-Grown :
      (stmt : String) (log : List Request) (w : W)
      → Grown
          (type_of stmt)
          stmt
          log
          (exec_stmt (tracing driver) stmt (log, w)).1.0
          (succeeded (exec_stmt (tracing driver) stmt (log, w)).0)
  unfolding exec_stmt
  exec_stmt-Grown stmt log w =
      let (writes, schemas) = execute_write-Grown driver stmt log w in
      elim (Bool-cases (infer_tx_type stmt == "schema")) [
        | inl e ↦ rw (exec_stmt, e) schemas
        | inr e ↦
            rw (exec_stmt, e)
              (error_of-Grown stmt log (execute_write (tracing driver) stmt (log, w)) writes)
      ]

  exec_all-Ran :
      (stmts : List String) (log : List Request) (w : W)
      → Ran stmts log
          (exec_all (tracing driver) stmts (log, w)).1.0
          (exec_all (tracing driver) stmts (log, w)).0
  unfolding exec_all
  exec_all-Ran [] log w =
      (0, none, sym (append-nil log), (λ _. (refl, refl)), (λ h. absurd (h refl)))
  exec_all-Ran (stmt ∷ stmts) log w =
      let first = exec_stmt (tracing driver) stmt (log, w) in
      let (stage, grown, ended) = exec_stmt-Grown stmt log w in
      elim (Option-cases first.0) [
        | inr (e, failed) ↦
            let no : succeeded first.0 ≡ false = rw failed refl in
            rw (exec_all, failed)
              (
                0,
                some (stmt, stage),
                grown,
                (λ h. absurd (cc)),
                (λ _. (stage, stmt, refl, refl, λ fin. let yes = ended.1 fin in cc)),
              )
        | inl passed ↦
            let all_of : stage ≡ Stage.finished = ended.0 (rw passed refl) in
            let (n, last, later, whole, part) = exec_all-Ran stmts first.1.0 first.1.1 in
            let here : first.1.0 ≡ log ++ requests (type_of stmt) stmt Stage.finished =
              grown ∙ ap (λ s. log ++ requests (type_of stmt) stmt s) all_of in
            rw (exec_all, passed)
              (
                suc n,
                last,
                later ∙ rw here (simp append_assoc),
                (λ h. let (a, b) = whole h in (ap suc a, b)),
                part,
              )
      ]

  -- A migration of statements, up and down: its function sends the statements in their order, each in a
  -- transaction of its own, a schema transaction where it begins with define, undefine or redefine and
  -- otherwise a write transaction, and each behind the commit of the one before. It returns no error
  -- exactly where all have committed; otherwise it stops at the first that has not, with the requests of
  -- that statement as the last ones, and the statements before it stay committed.
  pub tql_migration-Ran :
      (name u d : String) (us ds : List String) (log : List Request) (w : W)
      → (up down : Effect (List Request × W)) × ((tql_migration
            (tracing driver)
            name
            (u ∷ us)
            (d ∷ ds)).up
          ≡ some up)
        × ((tql_migration (tracing driver) name (u ∷ us) (d ∷ ds)).down ≡ some down)
        × Ran (u ∷ us) log (up (log, w)).1.0 (up (log, w)).0
        × Ran (d ∷ ds) log (down (log, w)).1.0 (down (log, w)).0
  unfolding tql_migration
  tql_migration-Ran name u d us ds log w = (
    exec_all (tracing driver) (u ∷ us),
    exec_all (tracing driver) (d ∷ ds),
    refl,
    refl,
    exec_all-Ran (u ∷ us) log w,
    exec_all-Ran (d ∷ ds) log w,
  )
