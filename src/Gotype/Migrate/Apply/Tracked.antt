-- ===== src/Gotype/Migrate/Apply/Tracked.antt =====
-- Which statements `MigrateWithStateFromSchema` of gotype/migrate_state.go executes.
use go_typeql.Base.{
  ◌⊎◌, ap, subst, String, Bool, true, false, [], append-nil, none, some, Result, ok, if◌then◌else◌,
  ◌≡◌, refl, sym, inl, inr, Option-cases,
}
use go_typeql.Tqlgen.Model.{ParsedSchema}
use go_typeql.Gotype.Migrate.Diff.{SchemaDiff, diff_schema, is_empty}
use go_typeql.Gotype.Migrate.Plan.{generate_migration, summary}
use go_typeql.Gotype.Migrate.Apply.{
  Database, MigrateError, MigrationState, Migrated, introspect_schema_from_string, execute_each,
  hash_input, migrate_with_state_from_schema,
}
use go_typeql.Gotype.Migrate.Apply.Executed.{
  Log, no_error, recording, Executes, execute_each-Executes,
}

-- A migration state beside a list of statements, which it leaves alone.
abbrev pub beside : {W : Type 0} → MigrationState W → MigrationState (Log × W)
beside state = record {
  ensure_schema = λ s. let (r, w) = state.ensure_schema s.1 in (r, (s.0, w));
  is_applied = λ h s. let (r, w) = state.is_applied h s.1 in (r, (s.0, w));
  record_ = λ h t s. let (r, w) = state.record_ h t s.1 in (r, (s.0, w));
}

module _ (parse_schema : String → Result String ParsedSchema) (desired : ParsedSchema) {W : Type 0}
    (db : Database W) (state : MigrationState W) (sha256_hex : String → String) where
  abbrev pub tracked : String → Log × W → Migrated (Log × W)
  tracked text s =
      migrate_with_state_from_schema parse_schema desired (recording db) (beside state) sha256_hex
        text s

  abbrev pub hash_of : SchemaDiff → String
  hash_of d = sha256_hex (hash_input (generate_migration d))

  -- Where the state is ready, the schema is parsed, the diff is not empty and the state answers whether
  -- its statements have been applied: the diff is returned; no statement is executed where they have been;
  -- otherwise they are all executed in order with success, or the first ones are and one behind them has
  -- failed. No error is returned only in the former case, and there the only error is that the record of
  -- the migration failed.
  pub migrate_with_state_from_schema-Executes :
      (log : Log) (w : W) (text : String) (current : ParsedSchema) (applied : Bool)
      → (state.ensure_schema w).0 ≡ none
      → introspect_schema_from_string parse_schema desired text ≡ ok current
      → is_empty (diff_schema desired current) ≡ false
      → (state.is_applied (hash_of (diff_schema desired current)) (state.ensure_schema w).1).0
        ≡ ok applied
      → ((tracked text (log, w)).0 ≡ some (diff_schema desired current))
        × (done : Bool) × Executes log
            (if applied then [] else generate_migration (diff_schema desired current))
            ((tracked text (log, w)).2).0
            done
        × ((tracked text (log, w)).1 ≡ none → done ≡ true)
        × (done ≡ true
            → (tracked text (log, w)).1 ≡ none
              ⊎ (applied ≡ false)
                × (cause : String) × (tracked text (log, w)).1
                    ≡ some (MigrateError.record_failed cause))
  unfolding migrate_with_state_from_schema
  migrate_with_state_from_schema-Executes log w text current true ready parsed full checked =
      rw (migrate_with_state_from_schema, ready, parsed, full, checked)
        (refl, true, inl (refl, sym (append-nil log)), (λ _. refl), (λ _. inl refl))
  migrate_with_state_from_schema-Executes log w text current false ready parsed full checked =
      let d = diff_schema desired current in
      let w₂ = (state.is_applied (hash_of d) (state.ensure_schema w).1).1 in
      let ran = execute_each parse_schema desired (recording db) (generate_migration d) (log, w₂) in
      let executed = execute_each-Executes parse_schema desired db log (generate_migration d) w₂ in
      elim (Option-cases ran.0) [
        | inr (e, r) ↦
            rw (migrate_with_state_from_schema, ready, parsed, full, checked, r)
              (
                refl,
                false,
                subst (Executes log (generate_migration d) ran.1.0) (ap no_error r) executed,
                (λ h. cc h),
                (λ h. cc h),
              )
        | inl r ↦
            let all =
              subst (Executes log (generate_migration d) ran.1.0) (ap no_error r) executed in
            elim (Option-cases (state.record_ (hash_of d) (summary d) ran.1.1).0) [
              | inr (e, k) ↦
                  rw (migrate_with_state_from_schema, ready, parsed, full, checked, r, k)
                    (refl, true, all, (λ h. refl), (λ h. inr (refl, e, refl)))
              | inl k ↦
                  rw (migrate_with_state_from_schema, ready, parsed, full, checked, r, k)
                    (refl, true, all, (λ h. refl), (λ h. inl refl))
            ]
      ]
