-- ===== src/Gotype/Sequential/Validation.antt =====
-- What `ValidateSequentialMigrations` of gotype/seq_migrate.go refuses, and what sorting keeps.
use go_typeql.Base.{
  All, String, Bool, true, false, not, ◌&&◌, ◌||◌, ◌==◌, eq_iff, eq_refl, ℕ, suc, List, [], ◌∷◌,
  ◌++◌, contains, Distinct, ltb, length, ◌≡◌, refl, ap, ◌∙◌, inl, inr, arith, Bool-cases,
}
use go_typeql.Gotype.Sequential.Model.{
  SequentialMigration, SeqValidationIssue, is_nil, loop_issues, migration_issues,
  validate_sequential_migrations, has_validation_errors, insert_by_name, sort_by_name, less,
  is_sorted,
}
use go_typeql.Gotype.Sequential.Run.{names_of}

has_validation_errors-append :
    (is js : List SeqValidationIssue)
    → has_validation_errors (is ++ js) ≡ has_validation_errors is || has_validation_errors js
unfolding has_validation_errors
has_validation_errors-append [] js = refl
has_validation_errors-append (i ∷ is) js = ground (arith, has_validation_errors-append is js)

contains-snoc :
    (seen : List String) (name k : String)
    → contains (seen ++ name ∷ []) k ≡ contains seen k || name == k
contains-snoc [] name k = ground arith
contains-snoc (j ∷ seen) name k = ground (arith, contains-snoc seen name k)

module _ {W : Type 0} where
  -- Every migration has a name that no migration before it has, and an Up.
  abbrev pub runnable : List String → List (SequentialMigration W) → Bool
  runnable seen [] = true
  runnable seen (m ∷ ms) =
      let rest = runnable (seen ++ m.name ∷ []) ms in
      not (m.name == "") && not (contains seen m.name) && not (is_nil m.up) && rest

  loop_issues-runnable :
      (i : ℕ) (seen : List String) (ms : List (SequentialMigration W))
      → has_validation_errors (loop_issues i seen ms) ≡ not (runnable seen ms)
  unfolding loop_issues has_validation_errors migration_issues
  loop_issues-runnable i seen [] = refl
  loop_issues-runnable i seen (m ∷ ms) = elim (Bool-cases (m.name == "")) [
    | inl e ↦ rw e refl
    | inr e ↦
        let ih = loop_issues-runnable (suc i) (seen ++ m.name ∷ []) ms in
        elim (Bool-cases (contains seen m.name)) [
          | inl d ↦ rw (e, d) refl
          | inr d ↦ elim (Bool-cases (is_nil m.up)) [
            | inl u ↦ rw (e, d, u) refl
            | inr u ↦ rw (e, d, u) ih
          ]
        ]
  ]

  -- Validation finds an error exactly where some migration has no name, the name of an earlier one or
  -- no Up function; the order of the migrations is never an error.
  pub validate_sequential_migrations-runnable :
      (ms : List (SequentialMigration W))
      → has_validation_errors (validate_sequential_migrations ms) ≡ not (runnable [] ms)
  unfolding validate_sequential_migrations has_validation_errors
  validate_sequential_migrations-runnable ms =
      has_validation_errors-append (loop_issues 0 [] ms) _
      ∙ elim (Bool-cases (not (is_sorted ms) && ltb 1 (length ms))) [
        | inl e ↦ rw (e, loop_issues-runnable 0 [] ms) (ground arith)
        | inr e ↦ rw (e, loop_issues-runnable 0 [] ms) (ground arith)
      ]

  -- The names of runnable migrations are new and distinct.
  abbrev Fresh : List String → List (SequentialMigration W) → Type 0
  Fresh seen ms =
      Distinct (names_of ms)
      × ((k : String) → contains seen k ≡ true → contains (names_of ms) k ≡ false)

  runnable-Distinct :
      (seen : List String) (ms : List (SequentialMigration W))
      → runnable seen ms ≡ true
      → Fresh seen ms
  runnable-Distinct seen [] h = (tt, (λ k e. refl))
  runnable-Distinct seen (m ∷ ms) h =
      let (distinct, fresh) = runnable-Distinct (seen ++ m.name ∷ []) ms (ground arith) in
      (
        (
          fresh m.name (contains-snoc seen m.name m.name ∙ ground (arith, eq_refl m.name)),
          distinct,
        ),
        (λ k e. ground (arith, fresh k, contains-snoc seen m.name k, eq_iff m.name k)),
      )

  contains-insert_by_name :
      (m : SequentialMigration W) (ms : List (SequentialMigration W)) (k : String)
      → contains (names_of (insert_by_name m ms)) k ≡ m.name == k || contains (names_of ms) k
  unfolding insert_by_name
  contains-insert_by_name m [] k = refl
  contains-insert_by_name m (n ∷ ns) k = elim (Bool-cases (less n.name m.name)) [
    | inl e ↦ rw (e, contains-insert_by_name m ns k) (ground arith)
    | inr e ↦ rw e refl
  ]

  contains-sort_by_name :
      (ms : List (SequentialMigration W)) (k : String)
      → contains (names_of (sort_by_name ms)) k ≡ contains (names_of ms) k
  unfolding sort_by_name
  contains-sort_by_name [] k = refl
  contains-sort_by_name (m ∷ ms) k =
      contains-insert_by_name m (sort_by_name ms) k
      ∙ ap (λ b. m.name == k || b) (contains-sort_by_name ms k)

  insert_by_name-Distinct :
      (m : SequentialMigration W) (ms : List (SequentialMigration W))
      → contains (names_of ms) m.name ≡ false
      → Distinct (names_of ms)
      → Distinct (names_of (insert_by_name m ms))
  unfolding insert_by_name
  insert_by_name-Distinct m [] h d = (refl, tt)
  insert_by_name-Distinct m (n ∷ ns) h (hn, dns) = elim (Bool-cases (less n.name m.name)) [
    | inl e ↦ rw e (
      contains-insert_by_name m ns n.name
          ∙ ground (arith, eq_iff n.name m.name, eq_iff m.name n.name),
      insert_by_name-Distinct m ns (ground arith) dns,
    )
    | inr e ↦ rw e (h, (hn, dns))
  ]

  -- Valid migrations have distinct names, and their order by name has.
  pub sort_by_name-Distinct :
      (ms : List (SequentialMigration W))
      → Distinct (names_of ms)
      → Distinct (names_of (sort_by_name ms))
  unfolding sort_by_name
  sort_by_name-Distinct [] d = tt
  sort_by_name-Distinct (m ∷ ms) (h, d) =
      insert_by_name-Distinct m (sort_by_name ms) (contains-sort_by_name ms m.name ∙ h)
        (sort_by_name-Distinct ms d)

  runnable-named :
      (seen : List String) (ms : List (SequentialMigration W))
      → runnable seen ms ≡ true
      → All (λ m. SequentialMigration.name m == "" ≡ false) ms
  runnable-named seen [] h = tt
  runnable-named seen (m ∷ ms) h =
      (ground arith, runnable-named (seen ++ m.name ∷ []) ms (ground arith))

  pub valid-Distinct :
      (ms : List (SequentialMigration W))
      → has_validation_errors (validate_sequential_migrations ms) ≡ false
      → Distinct (names_of (sort_by_name ms))
  valid-Distinct ms h =
      sort_by_name-Distinct ms
        (runnable-Distinct [] ms (ground (arith, validate_sequential_migrations-runnable ms))).0

  -- No name is empty behind a validation without errors.
  pub valid-named :
      (ms : List (SequentialMigration W))
      → has_validation_errors (validate_sequential_migrations ms) ≡ false
      → All (λ m. SequentialMigration.name m == "" ≡ false) ms
  valid-named ms h =
      runnable-named [] ms (ground (arith, validate_sequential_migrations-runnable ms))
