-- ===== src/Gotype/Session/Trace.antt =====
-- What the one-shot transactions of gotype/session.go ask of the driver, in order, and whether it was
-- granted.
use go_typeql.Base.{
  String, Bool, true, false, List, [], ◌∷◌, ◌++◌, append_assoc, append-nil, Option, none, some,
  is_ok, Result-cases, Option-cases, ◌≡◌, ◌↔◌, refl, sym, ap, inl, inr,
}
use go_typeql.Gotype.Session.{Driver, TransactionType, write, schema, execute_write, execute_schema}

abbrev pub succeeded : Option String → Bool
succeeded none = true
succeeded (some e) = false

-- A request with whether it succeeded; a close cannot fail.
pub data Request : Type 0 where
  opens : TransactionType → Bool → Request
  queries : String → Bool → Request
  commits : Bool → Request
  closes : Request

-- A driver that keeps the requests it was sent and whether each succeeded.
abbrev pub tracing : {W Tx Row : Type 0} → Driver W Tx Row → Driver (List Request × W) Tx Row
tracing driver = record {
  cancelled = λ s. driver.cancelled s.1;
  open_ = λ t s. let (r, w) = driver.open_ t s.1 in (r, (s.0 ++ opens t (is_ok r) ∷ [], w));
  query = λ tx q s. let (r, w) = driver.query tx q s.1 in (r, (s.0 ++ queries q (is_ok r) ∷ [], w));
  commit = λ tx s. let (r, w) = driver.commit tx s.1 in (r, (s.0 ++ commits (succeeded r) ∷ [], w));
  close_ = λ tx s. (s.0 ++ closes ∷ [], driver.close_ tx s.1);
}

-- How far a call came.
pub data Stage : Type 0 where
  cancelled unopened unanswered uncommitted finished : Stage

abbrev pub requests : TransactionType → String → Stage → List Request
requests t q cancelled = []
requests t q unopened = opens t false ∷ []
requests t q unanswered = opens t true ∷ queries q false ∷ closes ∷ []
requests t q uncommitted = opens t true ∷ queries q true ∷ commits false ∷ closes ∷ []
requests t q finished = opens t true ∷ queries q true ∷ commits true ∷ closes ∷ []

-- A log that has grown by the requests of a call that came to some stage, the last one exactly where
-- the call succeeded.
abbrev pub Grown : TransactionType → String → List Request → List Request → Bool → Type 0
Grown t q log log' success =
    (stage : Stage) × (log' ≡ log ++ requests t q stage) × ((success ≡ true) ↔ (stage ≡ finished))

-- The requests of a call that has opened its transaction, one behind the other.
failed_query :
    (t : TransactionType) (q : String) (log : List Request) {a b : Bool}
    → a ≡ true
    → b ≡ false
    → ((log ++ opens t a ∷ []) ++ queries q b ∷ []) ++ closes ∷ [] ≡ log ++ requests t q unanswered
failed_query t q log opened answered = rw (opened, answered) (simp append_assoc)

asked_commit :
    (t : TransactionType) (q : String) (log : List Request) {a b c d : Bool}
    → a ≡ true
    → b ≡ true
    → c ≡ d
    → (((log ++ opens t a ∷ []) ++ queries q b ∷ []) ++ commits c ∷ []) ++ closes ∷ []
      ≡ log ++ opens t true ∷ queries q true ∷ commits d ∷ closes ∷ []
asked_commit t q log opened answered committed =
    rw (opened, answered, committed) (simp append_assoc)

module _ {W Tx Row : Type 0} (driver : Driver W Tx Row) where
  write-requests :
      (text : String) (log : List Request) (w : W)
      → Grown write text log
          (execute_write (tracing driver) text (log, w)).1.0
          (is_ok (execute_write (tracing driver) text (log, w)).0)
  unfolding execute_write
  write-requests text log w = elim (Option-cases (driver.cancelled w)) [
    | inr (e, c) ↦
        rw (c, execute_write) (cancelled, sym (append-nil log), ((λ h. cc h), (λ h. cc h)))
    | inl c ↦
        let opened = driver.open_ write w in
        elim (Result-cases opened.0) [
          | inr (e, o) ↦
              rw (c, o, execute_write)
                (
                  unopened,
                  ap (λ b. log ++ opens write b ∷ []) (ap is_ok o),
                  ((λ h. cc h), (λ h. cc h)),
                )
          | inl (tx, o) ↦
              let answer = driver.query tx text opened.1 in
              elim (Result-cases answer.0) [
                | inr (e, q) ↦
                    rw (c, o, q, execute_write)
                      (
                        unanswered,
                        failed_query write text log (ap is_ok o) (ap is_ok q),
                        ((λ h. cc h), (λ h. cc h)),
                      )
                | inl (rows, q) ↦
                    let committed = driver.commit tx answer.1 in
                    elim (Option-cases committed.0) [
                      | inr (e, k) ↦
                          rw (c, o, q, k, execute_write)
                            (
                              uncommitted,
                              asked_commit write text log (ap is_ok o) (ap is_ok q)
                                  (ap succeeded k),
                              ((λ h. cc h), (λ h. cc h)),
                            )
                      | inl k ↦
                          rw (c, o, q, k, execute_write)
                            (
                              finished,
                              asked_commit write text log (ap is_ok o) (ap is_ok q)
                                  (ap succeeded k),
                              ((λ h. refl), (λ h. refl)),
                            )
                    ]
              ]
        ]
  ]

  schema-requests :
      (text : String) (log : List Request) (w : W)
      → Grown schema text log
          (execute_schema (tracing driver) text (log, w)).1.0
          (succeeded (execute_schema (tracing driver) text (log, w)).0)
  unfolding execute_schema
  schema-requests text log w = elim (Option-cases (driver.cancelled w)) [
    | inr (e, c) ↦
        rw (c, execute_schema) (cancelled, sym (append-nil log), ((λ h. cc h), (λ h. cc h)))
    | inl c ↦
        let opened = driver.open_ schema w in
        elim (Result-cases opened.0) [
          | inr (e, o) ↦
              rw (c, o, execute_schema)
                (
                  unopened,
                  ap (λ b. log ++ opens schema b ∷ []) (ap is_ok o),
                  ((λ h. cc h), (λ h. cc h)),
                )
          | inl (tx, o) ↦
              let answer = driver.query tx text opened.1 in
              elim (Result-cases answer.0) [
                | inr (e, q) ↦
                    rw (c, o, q, execute_schema)
                      (
                        unanswered,
                        failed_query schema text log (ap is_ok o) (ap is_ok q),
                        ((λ h. cc h), (λ h. cc h)),
                      )
                | inl (rows, q) ↦
                    let committed = driver.commit tx answer.1 in
                    elim (Option-cases committed.0) [
                      | inr (e, k) ↦
                          rw (c, o, q, k, execute_schema)
                            (
                              uncommitted,
                              asked_commit schema text log (ap is_ok o) (ap is_ok q) refl,
                              ((λ h. cc h), (λ h. cc h)),
                            )
                      | inl k ↦
                          rw (c, o, q, k, execute_schema)
                            (
                              finished,
                              asked_commit schema text log (ap is_ok o) (ap is_ok q) refl,
                              ((λ h. refl), (λ h. refl)),
                            )
                    ]
              ]
        ]
  ]

  -- What ExecuteWrite and ExecuteSchema ask of the driver, with whether each request succeeded, is nothing,
  -- or an open that fails, or an open, a query that fails and a close, or an open, the query, a commit and
  -- a close: a transaction that was opened is closed once, as the last request. They succeed exactly where
  -- the commit was asked for and succeeded.
  pub execute_write-Grown :
      (text : String) (log : List Request) (w : W)
      → Grown write text log
          (execute_write (tracing driver) text (log, w)).1.0
          (is_ok (execute_write (tracing driver) text (log, w)).0)
        × Grown schema text log
            (execute_schema (tracing driver) text (log, w)).1.0
            (succeeded (execute_schema (tracing driver) text (log, w)).0)
  execute_write-Grown text log w = (write-requests text log w, schema-requests text log w)
