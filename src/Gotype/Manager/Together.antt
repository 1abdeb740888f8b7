-- ===== src/Gotype/Manager/Together.antt =====
-- gotype/crud.go: the calls for several instances ask for a commit only behind all of their queries.
use go_typeql.Base.{
  String, Bool, true, false, List, [], ◌∷◌, ◌++◌, append_assoc, append-nil, ℕ, ◌+◌, Option, none,
  some, Result, ok, err, ◌==◌, ◌≡◌, refl, sym, ap, subst, ◌∙◌, Bool-cases, Option-cases,
  Result-cases, inl, inr, not, ◌&&◌, is_ok, ◌≢◌, ◌<◌, length, ◌⊎◌,
}
use go_typeql.Ast.Compiler.{CompileError}
use go_typeql.Gotype.Session.{Driver, write}
use go_typeql.Gotype.Session.Trace.{Request, opens, queries, commits, closes, tracing, succeeded}
use go_typeql.Gotype.Models.{Instance}
use go_typeql.Gotype.Manager.{
  RowReader, Manager, write_tx, new_write_tx, with_write_tx, run_opened, finish,
  update_instance_in_tx,
}
use go_typeql.Gotype.Manager.Sent.{
  behind, sent, sent_until, query_if, Sends, each-sent, updates, update_instance-sent,
}
use go_typeql.Gotype.Manager.Writes.{
  each_instance, with_iids, delete_text, delete_in_tx, update_in_tx, write_each, delete_many,
  update_many,
}

-- How far a call came: there was nothing to do, an argument was refused, no transaction was opened, the
-- instance at some position failed, the commit failed, or all went well.
pub data Stage : Type 0 where
  nothing refused unopened uncommitted finished : Stage
  broken : ℕ → Stage

abbrev pub requests : (Instance → Option String) → List Instance → Stage → List Request
requests text xs nothing = []
requests text xs refused = []
requests text xs unopened = opens write false ∷ []
requests text xs (broken n) = opens write true ∷ (sent_until text n xs ++ closes ∷ [])
requests text xs uncommitted = opens write true ∷ (sent text xs ++ commits false ∷ closes ∷ [])
requests text xs finished = opens write true ∷ (sent text xs ++ commits true ∷ closes ∷ [])

abbrev pub succeeds : Stage → Bool
succeeds nothing = true
succeeds finished = true
succeeds _ = false

-- No pointer is nil and every instance has an IID.
abbrev pub all_with_iids : List (Option Instance) → Bool
all_with_iids [] = true
all_with_iids (none ∷ xs) = false
all_with_iids (some x ∷ xs) = not (x.iid == "") && all_with_iids xs

-- When a call comes to a stage.
abbrev pub Reached : List (Option Instance) → Stage → Type 0
Reached xs nothing = xs ≡ []
Reached xs refused = all_with_iids xs ≡ false
Reached xs (broken n) = (xs ≢ []) × (all_with_iids xs ≡ true) × (n < length (behind xs))
Reached xs stage = (xs ≢ []) × (all_with_iids xs ≡ true)

-- A log that has grown by the requests of a call that came to some stage; it succeeded exactly where the
-- stage says so.
abbrev pub Together :
    (Instance → Option String)
    → List (Option Instance)
    → List Request
    → List Request
    → Option String
    → Type 0
Together text xs log log' failed =
    (stage : Stage) × Reached xs stage
    × (log' ≡ log ++ requests text (behind xs) stage)
    × (succeeded failed ≡ succeeds stage)

asked :
    (log every : List Request) {log₁ : List Request} {a b : Bool}
    → log₁ ≡ (log ++ opens write true ∷ []) ++ every
    → a ≡ b
    → (log₁ ++ commits a ∷ []) ++ closes ∷ []
      ≡ log ++ opens write true ∷ (every ++ commits b ∷ closes ∷ [])
asked log every grown committed = rw (grown, committed) (simp append_assoc)

module _ {W Tx Row : Type 0} (driver : Driver W Tx Row) (rows : RowReader Row)
    (explain : CompileError → String) (m : Manager Tx) (unbound : m.tx ≡ none) where
  abbrev Traced : Type 0
  Traced = List Request × W

  -- The transaction that the call opens.
  opens-failed :
      (log : List Request) (w : W) (e : String)
      → (driver.open_ write w).0 ≡ err e
      → write_tx (tracing driver) m (log, w)
        ≡ (err e, (log ++ opens write false ∷ [], (driver.open_ write w).1))
  unfolding write_tx new_write_tx
  opens-failed log w e h =
      rw (unbound, write_tx)
        (rw (new_write_tx, h)
          (ap (λ b. (err e, (log ++ opens write b ∷ [], (driver.open_ write w).1))) (ap is_ok h)))

  opens-done :
      (log : List Request) (w : W) (tx : Tx)
      → (driver.open_ write w).0 ≡ ok tx
      → write_tx (tracing driver) m (log, w)
        ≡ (ok (tx, true), (log ++ opens write true ∷ [], (driver.open_ write w).1))
  unfolding write_tx new_write_tx
  opens-done log w tx h =
      rw (unbound, write_tx)
        (rw (new_write_tx, h)
          (ap (λ b. (ok (tx, true), (log ++ opens write b ∷ [], (driver.open_ write w).1)))
            (ap is_ok h)))

  module _ (text : Instance → Option String)
      (body : Tx → ℕ → Instance → Traced → Option String × Traced) (sends : Sends text body)
      (xs : List (Option Instance)) (given : xs ≢ []) (valid : all_with_iids xs ≡ true) where
    -- The call behind the opening of its transaction.
    abbrev run : String → Result String (Tx × Bool) × Traced → Option String × Unit {0} × Traced
    run op =
        run_opened (tracing driver) m op tt
          (λ tx s. let (e, s') = each_instance (body tx) 0 (behind xs) s in (e, tt, s'))

    run-Together :
        (op : String) (tx : Tx) (log : List Request) (w : W)
        → Together text xs log
            (run op (ok (tx, true), (log ++ opens write true ∷ [], w))).2.0
            (run op (ok (tx, true), (log ++ opens write true ∷ [], w))).0
    unfolding run_opened finish
    run-Together op tx log w =
        let log₁ = log ++ opens write true ∷ [] in
        let looped = each_instance (body tx) 0 (behind xs) (log₁, w) in
        elim (each-sent text body sends tx 0 (behind xs) log₁ w) [
          | inr (n, e, failed, within, logged) ↦
              rw (run_opened, failed)
                (broken n, (given, valid, within), rw logged (simp append_assoc), refl)
          | inl (passed, logged) ↦ elim (Option-cases (driver.commit tx looped.1.1).0) [
            | inr (e, failed) ↦
                rw (run_opened, passed)
                  (rw (finish, failed)
                    (
                      uncommitted,
                      (given, valid),
                      asked log (sent text (behind xs)) logged (ap succeeded failed),
                      refl,
                    ))
            | inl done ↦
                rw (run_opened, passed)
                  (rw (finish, done)
                    (
                      finished,
                      (given, valid),
                      asked log (sent text (behind xs)) logged (ap succeeded done),
                      refl,
                    ))
          ]
        ]

    write_each-Together :
        (op : String) (log : List Request) (w : W)
        → Together text xs log
            (write_each (tracing driver) rows explain m op body (behind xs) (log, w)).1.0
            (write_each (tracing driver) rows explain m op body (behind xs) (log, w)).0
    unfolding write_each with_write_tx
    write_each-Together op log w = elim (Result-cases (driver.open_ write w).0) [
      | inr (e, o) ↦
          subst (λ r. Together text xs log (run op r).2.0 (run op r).0)
            (sym (opens-failed log w e o))
            (unfold run_opened in (unopened, (given, valid), refl, refl))
      | inl (tx, o) ↦
          subst (λ r. Together text xs log (run op r).2.0 (run op r).0)
            (sym (opens-done log w tx o)) (run-Together op tx log (driver.open_ write w).1)
    ]

  abbrev pub deletes : Instance → Option String
  deletes x = some (delete_text m.info x.iid)

  delete_in_tx-Sends : Sends deletes (delete_in_tx (tracing driver) rows explain m)
  unfolding delete_in_tx
  delete_in_tx-Sends tx i x log w =
      elim (Result-cases (driver.query tx (delete_text m.info x.iid) w).0) [
        | inl (_, e) ↦
            rw (delete_in_tx, e)
              (ap (λ b. log ++ queries (delete_text m.info x.iid) b ∷ []) (ap is_ok e))
        | inr (_, e) ↦
            rw (delete_in_tx, e)
              (ap (λ b. log ++ queries (delete_text m.info x.iid) b ∷ []) (ap is_ok e))
      ]

  update_in_tx-Sends : Sends (updates m.info) (update_in_tx (tracing driver) rows explain m)
  unfolding update_in_tx
  update_in_tx-Sends tx i x log w =
      elim (Option-cases (update_instance_in_tx (tracing driver) m tx x (log, w)).0) [
        | inl e ↦
            rw (update_in_tx, e)
              (update_instance-sent driver m tx x log w
                ∙ ap (λ f. log ++ query_if (updates m.info x) (succeeded f)) e)
        | inr (_, e) ↦
            rw (update_in_tx, e)
              (update_instance-sent driver m tx x log w
                ∙ ap (λ f. log ++ query_if (updates m.info x) (succeeded f)) e)
      ]

  -- The arguments are refused exactly where the independent test of them fails.
  with_iids-behind :
      (op : String) (i : ℕ) (xs : List (Option Instance))
      → (all_with_iids xs ≡ true) × (with_iids op m.info i xs ≡ ok (behind xs))
        ⊎ (e : String) × (all_with_iids xs ≡ false) × (with_iids op m.info i xs ≡ err e)
  unfolding with_iids
  with_iids-behind op i [] = inl (refl, refl)
  with_iids-behind op i (none ∷ xs) = inr (_, refl, refl)
  with_iids-behind op i (some x ∷ xs) = elim (Bool-cases (x.iid == "")) [
    | inl e ↦ rw (with_iids, e) (inr (_, refl, refl))
    | inr e ↦ elim (with_iids-behind op (i + 1) xs) [
      | inr (why, bad, r) ↦ rw (with_iids, e, r) (inr (why, bad, refl))
      | inl (valid, r) ↦ rw (with_iids, e, r) (inl (valid, refl))
    ]
  ]

  -- UpdateMany, and DeleteMany without its strict mode, on a manager that is bound to no transaction: a
  -- call with no instances does nothing and succeeds; one in which a pointer is nil or an instance has no
  -- IID fails and sends nothing. Otherwise one transaction is opened, and where that succeeds the queries
  -- of the instances are sent in their order up to the first instance that fails; a commit is asked for
  -- where they have all succeeded and nowhere else, and the transaction is closed as the last request. The
  -- call succeeds exactly where it had nothing to do or that commit succeeded.
  pub update_many-Together :
      (xs : List (Option Instance)) (log : List Request) (w : W)
      → Together
          (updates m.info)
          xs
          log
          (update_many (tracing driver) rows explain m xs (log, w)).1.0
          (update_many (tracing driver) rows explain m xs (log, w)).0
        × Together deletes xs log
            (delete_many (tracing driver) rows explain m false xs (log, w)).1.0
            (delete_many (tracing driver) rows explain m false xs (log, w)).0
  unfolding update_many delete_many
  update_many-Together [] log w =
      ((nothing, refl, sym (append-nil log), refl), (nothing, refl, sym (append-nil log), refl))
  update_many-Together (x ∷ xs) log w = (
    elim (with_iids-behind "update_many" 0 (x ∷ xs)) [
      | inr (e, bad, r) ↦ rw (update_many, r) (refused, bad, sym (append-nil log), refl)
      | inl (valid, r) ↦
          rw (update_many, r)
            (write_each-Together (updates m.info) (update_in_tx (tracing driver) rows explain m)
              update_in_tx-Sends (x ∷ xs) (λ h. cc h) valid "update_many" log w)
    ],
    elim (with_iids-behind "delete_many" 0 (x ∷ xs)) [
      | inr (e, bad, r) ↦ rw (delete_many, r) (refused, bad, sym (append-nil log), refl)
      | inl (valid, r) ↦
          rw (delete_many, r)
            (write_each-Together deletes (delete_in_tx (tracing driver) rows explain m)
              delete_in_tx-Sends (x ∷ xs) (λ h. cc h) valid "delete_many" log w)
    ],
  )
