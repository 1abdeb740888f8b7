-- ===== src/Gotype/Migrate/Apply/Executed.antt =====
-- Which statements the migrations of gotype/migrate.go execute.
use text.Mathlib.TextLemmas.{append-eq-nil_iff}
use go_typeql.Base.{
  ◌⊎◌, String, Bool, true, false, ◌==◌, eq_iff, ◌<>◌, List, [], ◌∷◌, ◌++◌, append_assoc, append-nil,
  map, Option, none, some, Result, ok, if◌then◌else◌, All, All-append, lookup, ◌≢◌, ◌≡◌, refl, sym,
  ap, subst, ◌∙◌, inl, inr, arith, Bool-cases, Option-cases, Result-cases,
}
use go_typeql.Tqlgen.Model.{ParsedSchema, EntitySpec, RelationSpec}
use go_typeql.Gotype.Migrate.Diff.{
  SchemaDiff, diff_schema, is_empty, none_in, current_entities, current_relations,
}
use go_typeql.Gotype.Migrate.Operations.{to_type_ql}
use go_typeql.Gotype.Migrate.Plan.{
  generate_migration, generate_migration_with_opts, destructive_operations,
}
use go_typeql.Gotype.Migrate.Plan.Laws.{
  has_breaking_changes-breaking_changes, generate_migration_with_opts-eq, IsDefined,
  generate_migration-map, destructive_operations-map,
}
use go_typeql.Gotype.Migrate.Define.{is_set, build_entity_define, build_relation_define}
use go_typeql.Gotype.Migrate.Diff.Exact.{gather, entity_added, relation_added}
use go_typeql.Gotype.Migrate.Diff.Whole.{diff_schema-exact}
use go_typeql.Gotype.Migrate.Apply.{
  Database, introspect_schema_from_string, execute_each, execute_for, sync_schema,
}

-- The statements that a database was asked to execute, each with whether it succeeded.
abbrev pub Log : Type 0
Log = List (String × Bool)

abbrev pub no_error : {A : Type 0} → Option A → Bool
no_error none = true
no_error (some e) = false

-- A database that keeps them, in order.
abbrev pub recording : {W : Type 0} → Database W → Database (Log × W)
recording db = record {
  schema = λ s. let (r, w) = db.schema s.1 in (r, (s.0, w));
  execute_schema =
      λ stmt s. let (r, w) = db.execute_schema stmt s.1 in (r, (s.0 ++ (stmt, no_error r) ∷ [], w));
}

abbrev pub with_success : List String → Log
with_success stmts = map (λ stmt. (stmt, true)) stmts

-- What a loop over a plan has added to a log: with success all of the plan, each statement executed;
-- otherwise the first statements, executed, and one behind them that failed.
abbrev pub Executes : Log → List String → Log → Bool → Type 0
Executes log plan log' success =
    (success ≡ true) × (log' ≡ log ++ with_success plan)
    ⊎ (taken : List String) × (failing : String) × (rest : List String) × (success ≡ false)
      × (plan ≡ taken ++ failing ∷ rest)
      × (log' ≡ log ++ (with_success taken ++ (failing, false) ∷ []))

All-gather :
    {A C : Type 0} (P : C → Type 0) (f : A → List C)
    → ((x : A) → All P (f x))
    → (xs : List A) → All P (gather f xs)
All-gather P f h [] = tt
All-gather P f h (x ∷ xs) = All-append P (f x) (gather f xs) (h x) (All-gather P f h xs)

is_set-semicolon : (s : String) → is_set (s <> ";") ≡ true
is_set-semicolon s = elim (Bool-cases (s <> ";" == "")) [
  | inl e ↦ absurd (no (append-eq-nil_iff.0 ((eq_iff (s <> ";") "").0 e)).1)
  | inr e ↦ rw e refl
]
  where
    no : ◌≢◌ {A = String} ";" ""
    no e = ground (arith, ap is_set e)

added-entity : (e : EntitySpec) (found : Option EntitySpec) → All IsDefined (entity_added e found)
unfolding build_entity_define
added-entity e none = (is_set-semicolon _, tt)
added-entity e (some cur) = tt

added-relation :
    (r : RelationSpec) (found : Option RelationSpec) → All IsDefined (relation_added r found)
unfolding build_relation_define
added-relation r none = (is_set-semicolon _, tt)
added-relation r (some cur) = tt

-- Every type that a diff adds comes with its definition.
diff_schema-IsDefined :
    (desired current : ParsedSchema)
    → All IsDefined (diff_schema desired current).add_entities
      × All IsDefined (diff_schema desired current).add_relations
diff_schema-IsDefined desired current =
    subst (λ d. All IsDefined (SchemaDiff.add_entities d) × All IsDefined d.add_relations)
      (sym (diff_schema-exact desired current))
      (
        All-gather IsDefined _ (λ e. added-entity e (lookup e.name (current_entities current)))
            desired.entities,
        All-gather IsDefined _ (λ r. added-relation r (lookup r.name (current_relations current)))
            desired.relations,
      )

-- The statements planned: those that add, and with force those that remove.
abbrev pub plan : Bool → SchemaDiff → List String
plan force d =
    generate_migration d ++ (if force then map to_type_ql (destructive_operations d) else [])

nil_of : {A : Type 0} (xs : List A) → none_in xs ≡ true → xs ≡ []
nil_of [] h = refl
nil_of (x ∷ xs) h = cc h

is_empty-plan : (force : Bool) (d : SchemaDiff) → is_empty d ≡ true → plan force d ≡ []
unfolding is_empty
is_empty-plan force d h =
    let added = generate_migration-map d in
    let removed = destructive_operations-map d in
    rw
      (
        added,
        removed,
        nil_of d.add_attributes (ground arith),
        nil_of d.add_entities (ground arith),
        nil_of d.add_relations (ground arith),
        nil_of d.add_owns (ground arith),
        nil_of d.add_relates (ground arith),
        nil_of d.remove_owns (ground arith),
        nil_of d.remove_types (ground arith),
      )
      (elim (Bool-cases force) [ inl e ↦ rw e refl | inr e ↦ rw e refl ])

module _ (parse_schema : String → Result String ParsedSchema) (desired : ParsedSchema) {W : Type 0}
    (db : Database W) where
  pub execute_each-Executes :
      (log : Log) (plan : List String) (w : W)
      → let out = execute_each parse_schema desired (recording db) plan (log, w) in
        Executes log plan (out.1).0 (no_error out.0)
  unfolding execute_each
  execute_each-Executes log [] w = inl (refl, sym (append-nil log))
  execute_each-Executes log (stmt ∷ stmts) w = elim (Option-cases (db.execute_schema stmt w).0) [
    | inr (cause, e) ↦
        rw (e, execute_each)
          (inr ([], stmt, stmts, refl, refl, ap (λ b. log ++ (stmt, b) ∷ []) (ap no_error e)))
    | inl e ↦
        let first = log ++ (stmt, no_error (db.execute_schema stmt w).0) ∷ [] in
        let here : (more : Log) → first ++ more ≡ log ++ ((stmt, true) ∷ more) =
          λ more. rw (ap no_error e) (append_assoc log ((stmt, true) ∷ []) more) in
        elim (execute_each-Executes first stmts (db.execute_schema stmt w).1) [
          | inl (done, logged) ↦
              rw (e, execute_each) (inl (done, logged ∙ here (with_success stmts)))
          | inr (taken, failing, rest, failed, split, logged) ↦
              rw (e, execute_each)
                (inr (
                  stmt ∷ taken,
                  failing,
                  rest,
                  failed,
                  ap (λ ss. stmt ∷ ss) split,
                  logged ∙ here (with_success taken ++ (failing, false) ∷ []),
                ))
        ]
  ]

  -- A sync that gets as far as a diff does nothing where it is empty, with or without its options, and
  -- executes its statements where it is not.
  sync_schema-diff :
      (force skip : Bool) (w : W) (text : String) (current : ParsedSchema)
      → (db.schema w).0 ≡ ok text
      → introspect_schema_from_string parse_schema desired text ≡ ok current
      → let d = diff_schema desired current in
        sync_schema parse_schema desired db force skip w ≡ (
          if is_empty d
          then (some d, none, (db.schema w).1)
          else execute_for parse_schema desired db d
              (if force then generate_migration_with_opts true d else generate_migration d)
              (db.schema w).1)
  unfolding sync_schema
  sync_schema-diff force skip w text current f p =
      let d = diff_schema desired current in
      elim (Bool-cases (is_empty d)) [
        | inl e ↦
            let calm = (has_breaking_changes-breaking_changes d).2 e in
            rw (sync_schema, f, p, e, calm) (ground arith)
        | inr e ↦ rw (sync_schema, f, p, e) (ground arith)
      ]

  statements-plan :
      (force : Bool) (current : ParsedSchema)
      → let d = diff_schema desired current in
        (if force then generate_migration_with_opts true d else generate_migration d) ≡ plan force d
  statements-plan true current =
      let (es, rs) = diff_schema-IsDefined desired current in
      generate_migration_with_opts-eq true (diff_schema desired current) es rs
  statements-plan false current = sym (append-nil _)

  -- The option to skip an existing schema changes nothing: without it an empty diff is skipped as well.
  sync_schema-skip :
      (force skip : Bool) (w : W)
      → sync_schema parse_schema desired db force skip w
        ≡ sync_schema parse_schema desired db force false w
  unfolding sync_schema
  sync_schema-skip force skip w = elim (Result-cases (db.schema w).0) [
    | inr (e, f) ↦ rw (sync_schema, f) refl
    | inl (text, f) ↦
        elim (Result-cases (introspect_schema_from_string parse_schema desired text)) [
          | inr (e, p) ↦ rw (sync_schema, f, p) refl
          | inl (current, p) ↦
              sync_schema-diff force skip w text current f p
              ∙ sym (sync_schema-diff force false w text current f p)
        ]
  ]

module _ (parse_schema : String → Result String ParsedSchema) (desired : ParsedSchema) {W : Type 0}
    (db : Database W) where
  -- Where the schema of the database is fetched and parsed, SyncSchema returns the diff. Its plan is the
  -- statements that add what the diff lacks and, only with force, behind them those that remove what is not
  -- desired: either it returns no error and has executed all of the plan in order, each with success, or it
  -- returns an error and has executed the first statements with success and stopped at one that failed.
  pub sync_schema-Executes :
      (force skip : Bool) (log : Log) (w : W) (text : String) (current : ParsedSchema)
      → (db.schema w).0 ≡ ok text
      → introspect_schema_from_string parse_schema desired text ≡ ok current
      → let out = sync_schema parse_schema desired (recording db) force skip (log, w) in
        (out.0 ≡ some (diff_schema desired current))
        × Executes log (plan force (diff_schema desired current)) (out.2).0 (no_error out.1)
  unfolding execute_for
  sync_schema-Executes force skip log w text current f p =
      let d = diff_schema desired current in
      let steps =
        sync_schema-diff parse_schema desired (recording db) force skip (log, w) text current f p in
      elim (Bool-cases (is_empty d)) [
        | inl e ↦
            rw steps (rw e (refl, inl (refl, rw (is_empty-plan force d e) (sym (append-nil log)))))
        | inr e ↦ rw steps (
            rw e (
              refl,
              subst
                  (λ ss.
                    let out =
                      execute_each parse_schema desired (recording db)
                        (if force
                          then generate_migration_with_opts true d
                          else generate_migration d)
                        (log, (db.schema w).1) in
                    Executes log ss (out.1).0 (no_error out.0))
                  (statements-plan parse_schema desired db force current)
                  (execute_each-Executes parse_schema desired db log _ (db.schema w).1),
            ))
      ]
