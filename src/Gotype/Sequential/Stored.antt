-- ===== src/Gotype/Sequential/Stored.antt =====
-- gotype/seq_migrate.go over the store of gotype/seq_migrate_state.go: runs and rollbacks of migrations on
-- a database that holds rows.
use go_typeql.Base.{
  String, not, ◌&&◌, ◌||◌, ℕ, suc, pos, List, [], ◌++◌, false, Option, none, ok, Dict, lookup, keys,
  index, take, contains, All, ◌≡◌,
}
use go_typeql.Gotype.Sequential.Model.{
  SequentialMigration, SeqMigrationRecord, is_nil, sort_by_name,
}
use go_typeql.Gotype.Sequential.Run.{
  StateStore, SeqError, SeqOptions, names_of, load_applied, run_sequential_migrations,
}
use go_typeql.Gotype.Sequential.Pending.{unapplied, through}
use go_typeql.Gotype.Sequential.Records.{KeepsRecords}
use go_typeql.Gotype.Sequential.Again.{run-again}
use go_typeql.Gotype.Sequential.Outcomes.{run-recorded, run-order}
use go_typeql.Gotype.Sequential.Rollback.{rollback_sequential_migration, sort_descending}
use go_typeql.Gotype.Sequential.Undone.{DownsKeepRecords, rollback-deleted}
use go_typeql.Gotype.Sequential.Queries.{Cell, Session, seq_migration_state}
use go_typeql.Gotype.Sequential.Rows.{KeepsRows}
use go_typeql.Gotype.Sequential.Rows.Collected.{held}
use go_typeql.Gotype.Sequential.Rows.Lawful.{
  seq_migration_state-IsLawful, seq_migration_state-DeletesRecords,
}

module _ (sha256_hex : String → String) (parse_time : String → Option String) {W : Type 0}
    (db : Session W) (rows : W → List (Dict Cell)) (keeps_rows : KeepsRows db rows) where
  abbrev stored : StateStore W
  stored = seq_migration_state parse_time db

  abbrev view : W → Dict SeqMigrationRecord
  view = held parse_time rows

  module _ (opts : SeqOptions W) where
    abbrev run : List (SequentialMigration W) → W → List String × Option SeqError × W
    run ms w = run_sequential_migrations sha256_hex stored opts ms w

    -- On a database that holds rows, with migrations and a logger that leave the records alone: behind a
    -- run with no target and no dry run that returned no error, a second run applies nothing and leaves
    -- the records as they are; and where it can load the records it returns no error: its checksums agree
    -- and nothing is pending.
    pub run_sequential_migrations-again :
        (ms : List (SequentialMigration W)) (w : W)
        → ((s : String) (w : W) → view (opts.logger s w) ≡ view w)
        → All (KeepsRecords view) ms
        → opts.dry_run ≡ false
        → opts.target ≡ ""
        → (run ms w).1 ≡ none
        → ((run ms (run ms w).2).0 ≡ [])
          × (view (run ms (run ms w).2).2 ≡ view (run ms w).2)
          × ((d : Dict SeqMigrationRecord)
              → (load_applied sha256_hex stored (run ms w).2).0 ≡ ok d
              → (run ms (run ms w).2).1 ≡ none)
    run_sequential_migrations-again =
        run-again sha256_hex stored view
          (seq_migration_state-IsLawful parse_time db rows keeps_rows) opts

    -- On a database that holds rows, with migrations and a logger that leave the records alone, and
    -- whatever a run that is no dry run returns, an error or none: a name has a record behind it exactly
    -- where it had one before or is among the names returned.
    pub run_sequential_migrations-recorded :
        (ms : List (SequentialMigration W)) (w : W)
        → ((s : String) (w : W) → view (opts.logger s w) ≡ view w)
        → All (KeepsRecords view) ms
        → opts.dry_run ≡ false
        → (k : String)
        → is_nil (lookup k (view (run ms w).2))
          ≡ is_nil (lookup k (view w)) && not (contains (run ms w).0 k)
    run_sequential_migrations-recorded =
        run-recorded sha256_hex stored view
          (seq_migration_state-IsLawful parse_time db rows keeps_rows) opts

    -- What a run applies, in order: on a database that holds rows, and for a run that is no dry run, the
    -- names returned are those of the first migrations of the list of migrations by name that have no
    -- record, cut behind the target; of all of them where no error is returned.
    pub run_sequential_migrations-order :
        (ms : List (SequentialMigration W)) (w : W)
        → opts.dry_run ≡ false
        → (taken rest : List (SequentialMigration W)) × (through opts.target
              (unapplied (view w) (sort_by_name ms))
            ≡ taken ++ rest)
          × ((run ms w).0 ≡ names_of taken)
          × ((run ms w).1 ≡ none → rest ≡ [])
    run_sequential_migrations-order =
        run-order sha256_hex stored view
          (seq_migration_state-IsLawful parse_time db rows keeps_rows) opts

  abbrev rollback : List (SequentialMigration W) → ℕ → W → List String × Option SeqError × W
  rollback ms n w = rollback_sequential_migration sha256_hex stored ms (pos n) w

  -- On a database that holds rows, with Downs that leave the records alone, a rollback of a positive
  -- number of steps returns the first names, all where it returns no error, of the applied names in
  -- descending order, cut to that number; and whatever it returns, a name has no record behind it exactly
  -- where it had none before or is among the names returned.
  pub rollback_sequential_migration-deleted :
      (ms : List (SequentialMigration W)) (n : ℕ) (w : W)
      → DownsKeepRecords view (index (λ m. SequentialMigration.name m) ms [])
      → ((taken rest : List String) × (take (suc n) (sort_descending (keys (view w)))
            ≡ taken ++ rest)
          × ((rollback ms (suc n) w).0 ≡ taken)
          × ((rollback ms (suc n) w).1 ≡ none → rest ≡ []))
        × ((k : String)
            → is_nil (lookup k (view (rollback ms (suc n) w).2))
              ≡ is_nil (lookup k (view w)) || contains (rollback ms (suc n) w).0 k)
  rollback_sequential_migration-deleted =
      rollback-deleted sha256_hex stored view
        (seq_migration_state-DeletesRecords parse_time db rows keeps_rows)
        (seq_migration_state-IsLawful parse_time db rows keeps_rows)
