-- ===== src/Gotype/Manager/Sent.antt =====
-- gotype/crud.go: what the loops over instances send in one transaction.
use go_typeql.Base.{
  String, is_ok, Bool, true, false, length, ◌<◌, ◌⊎◌, arith, zero, List, [], ◌∷◌, ◌++◌,
  append_assoc, append-nil, ℕ, suc, ◌+◌, Option, none, some, ◌==◌, ◌≡◌, refl, sym, ap, ◌∙◌,
  Bool-cases, Option-cases, Result-cases, inl, inr, if◌then◌else◌,
}
use go_typeql.Gotype.Session.{Driver}
use go_typeql.Gotype.Session.Trace.{Request, queries, tracing, succeeded}
use go_typeql.Gotype.Models.{ModelInfo, Instance}
use go_typeql.Gotype.Manager.{Manager, update_text, update_instance_in_tx}
use go_typeql.Gotype.Manager.Writes.{each_instance}

-- The instances behind the pointers that are not nil.
abbrev pub behind : List (Option Instance) → List Instance
behind [] = []
behind (none ∷ xs) = behind xs
behind (some x ∷ xs) = x ∷ behind xs

-- What is sent for one instance, at most one query, with whether it succeeds.
abbrev pub query_if : Option String → Bool → List Request
query_if none success = []
query_if (some q) success = queries q success ∷ []

-- The queries of some instances, all with success.
abbrev pub sent : (Instance → Option String) → List Instance → List Request
sent text [] = []
sent text (x ∷ xs) = query_if (text x) true ++ sent text xs

-- The queries up to the one at some position, which fails.
abbrev pub sent_until : (Instance → Option String) → ℕ → List Instance → List Request
sent_until text n [] = []
sent_until text zero (x ∷ xs) = query_if (text x) false
sent_until text (suc n) (x ∷ xs) = query_if (text x) true ++ sent_until text n xs

abbrev Traced : Type 0 → Type 0
Traced W = List Request × W

abbrev pub updates : ModelInfo → Instance → Option String
updates info x = if x.iid == "" then none else update_text info x

module _ {W Tx : Type 0} where
  -- A body of a loop that sends the query of its instance, and nothing else.
  abbrev pub Sends :
      (Instance → Option String)
      → (Tx → ℕ → Instance → Traced W → Option String × Traced W)
      → Type 0
  Sends text body =
      (tx : Tx) (i : ℕ) (x : Instance) (log : List Request) (w : W)
      → (body tx i x (log, w)).1.0 ≡ log ++ query_if (text x) (succeeded (body tx i x (log, w)).0)

  module _ (text : Instance → Option String)
      (body : Tx → ℕ → Instance → Traced W → Option String × Traced W)
      (sends : Sends text body) where
    -- The loop has sent all queries with success, or has stopped at one that failed.
    pub each-sent :
        (tx : Tx) (i : ℕ) (xs : List Instance) (log : List Request) (w : W)
        → ((each_instance (body tx) i xs (log, w)).0 ≡ none)
            × ((each_instance (body tx) i xs (log, w)).1.0 ≡ log ++ sent text xs)
          ⊎ (n : ℕ) × (e : String) × ((each_instance (body tx) i xs (log, w)).0 ≡ some e)
            × (n < length xs)
            × ((each_instance (body tx) i xs (log, w)).1.0 ≡ log ++ sent_until text n xs)
    unfolding each_instance
    each-sent tx i [] log w = inl (refl, sym (append-nil log))
    each-sent tx i (x ∷ xs) log w =
        let first = body tx i x (log, w) in
        let here = sends tx i x log w in
        elim (Option-cases first.0) [
          | inr (e, failed) ↦
              rw (each_instance, failed) (inr (0, e, refl, omega arith, here ∙ rw failed refl))
          | inl passed ↦
              let sent_here : first.1.0 ≡ log ++ query_if (text x) true = here ∙ rw passed refl in
              elim (each-sent tx (i + 1) xs first.1.0 first.1.1) [
                | inl (done, all) ↦
                    rw (each_instance, passed) (inl (done, all ∙ rw (sent_here, append_assoc) refl))
                | inr (n, e, failed, within, some_) ↦
                    rw (each_instance, passed)
                      (inr
                        (suc n, e, failed, omega arith, some_ ∙ rw (sent_here, append_assoc) refl))
              ]
        ]

module _ {W Tx Row : Type 0} (driver : Driver W Tx Row) (m : Manager Tx) where
  pub update_instance-sent :
      (tx : Tx) (x : Instance) (log : List Request) (w : W)
      → (update_instance_in_tx (tracing driver) m tx x (log, w)).1.0
        ≡ log
          ++ query_if
              (updates m.info x)
              (succeeded (update_instance_in_tx (tracing driver) m tx x (log, w)).0)
  unfolding update_instance_in_tx
  update_instance-sent tx x log w = elim (Bool-cases (x.iid == "")) [
    | inl e ↦ rw (update_instance_in_tx, e) (sym (append-nil log))
    | inr e ↦
        rw (update_instance_in_tx, e)
          (elim (Option-cases (update_text m.info x)) [
            | inl t ↦ rw t (sym (append-nil log))
            | inr (q, t) ↦ rw t (elim (Result-cases (driver.query tx q w).0) [
              | inl (_, a) ↦ rw a (ap (λ b. log ++ queries q b ∷ []) (ap is_ok a))
              | inr (_, a) ↦ rw a (ap (λ b. log ++ queries q b ∷ []) (ap is_ok a))
            ])
          ])
  ]
