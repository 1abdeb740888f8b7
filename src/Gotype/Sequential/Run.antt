-- ===== src/Gotype/Sequential/Run.antt =====
-- The runners of gotype/seq_migrate.go, over the store of applied migrations that
-- gotype/seq_migrate_state.go keeps in the database.
use go_typeql.Base.{
  String, Bool, not, ◌<>◌, ◌==◌, List, [], ◌∷◌, ◌++◌, map, Option, none, some, Result, ok, err,
  if◌then◌else◌, Dict, lookup, separated,
}
use go_typeql.Gotype.Migrate.Define.{is_set}
use go_typeql.Gotype.Sequential.Model.{
  Effect, SequentialMigration, SeqMigrationRecord, TqlStatements, is_nil,
  validate_sequential_migrations, has_validation_errors, format_issues, sort_by_name,
}

-- The operations of `seqMigrationState`, and the clock-free part of the world they act on.
pub record StateStore (W : Type 0) : Type 0 where
  pub ensure_schema : W → Option String × W
  pub applied : W → Result String (Dict SeqMigrationRecord) × W
  pub record_ : String → String → W → Option String × W
  pub delete_ : String → W → Option String × W

-- The errors that the runners return, with the causes that they wrap.
pub data SeqError : Type 0 where
  validation_failed : String → SeqError
  ensure_failed query_failed : String → SeqError
  checksum_mismatch : String → String → String → SeqError
  migration_failed record_failed delete_failed : String → String → SeqError
  not_found no_down : String → SeqError

pub record SeqOptions (W : Type 0) : Type 0 where
  pub dry_run : Bool
  pub target : String
  pub logger : String → W → W

-- What is hashed for a migration: its Up statements, a bar, its Down statements.
unfoldable pub checksum_input : TqlStatements → String
checksum_input s = separated "" s.up <> ("|" <> separated "" s.down)

module _ (sha256_hex : String → String) {W : Type 0} where
  unfoldable pub migration_checksum : SequentialMigration W → String
  unfolding checksum_input
  migration_checksum m = elim m.statements [ none ↦ "" | some s ↦ sha256_hex (checksum_input s) ]

  unfoldable pub verify_seq_checksums :
      List (SequentialMigration W) → Dict SeqMigrationRecord → Option SeqError
  verify_seq_checksums [] applied = none
  verify_seq_checksums (m ∷ ms) applied =
      let rest = verify_seq_checksums ms applied in
      let current = migration_checksum m in
      elim (lookup m.name applied) [
        | none ↦ rest
        | some rec ↦
            if not (is_set rec.checksum)
            then rest
            else if not (is_set current)
            then rest
            else if current == rec.checksum
            then rest
            else some (SeqError.checksum_mismatch m.name rec.checksum current)
      ]

-- A call of an Up or Down. A nil one would panic, which its callers rule out.
abbrev pub call : {W : Type 0} → Option (Effect W) → W → Option String × W
call none w = (some "nil function", w)
call (some f) w = f w

module _ {W : Type 0} where
  unfoldable pub pending_seq_migrations :
      List (SequentialMigration W) → Dict SeqMigrationRecord → String → List (SequentialMigration W)
  pending_seq_migrations [] applied target = []
  pending_seq_migrations (m ∷ ms) applied target =
      let rest = pending_seq_migrations ms applied target in
      if not (is_nil (lookup m.name applied))
      then rest
      else if not (is_set target)
      then m ∷ rest
      else if m.name == target
      then m ∷ []
      else m ∷ rest

  -- Every statement of a migration, reported behind a label.
  unfoldable pub log_statements : (String → W → W) → List String → W → W
  log_statements log [] w = w
  log_statements log (s ∷ ss) w = log_statements log ss (log ("[dry-run]   " <> s) w)

  unfoldable pub log_pending : String → (String → W → W) → List (SequentialMigration W) → W → W
  unfolding log_statements
  log_pending label log [] w = w
  log_pending label log (m ∷ ms) w =
      let w₁ = log ("[dry-run] " <> (label <> (": " <> m.name))) w in
      log_pending label log ms
        (elim m.statements [ none ↦ w₁ | some s ↦ log_statements log s.up w₁ ])

  abbrev pub names_of : List (SequentialMigration W) → List String
  names_of = map (λ m. SequentialMigration.name m)

module _ (sha256_hex : String → String) {W : Type 0} (store : StateStore W) where
  -- The loop that applies: the names done, an error, and the world.
  unfoldable pub apply_pending :
      (String → W → W)
      → List String
      → List (SequentialMigration W)
      → W
      → List String × Option SeqError × W
  apply_pending log done [] w = (done, none, w)
  apply_pending log done (m ∷ ms) w =
      let w₁ = log ("applying: " <> m.name) w in
      let (failed, w₂) = call m.up w₁ in
      elim failed [
        | some cause ↦ (done, some (SeqError.migration_failed m.name cause), w₂)
        | none ↦
            let (unrecorded, w₃) = store.record_ m.name (migration_checksum sha256_hex m) w₂ in
            elim unrecorded [
              | some cause ↦ (done, some (SeqError.record_failed m.name cause), w₃)
              | none ↦ apply_pending log (done ++ m.name ∷ []) ms (log ("applied: " <> m.name) w₃)
            ]
      ]

  unfoldable pub stamp_pending :
      (String → W → W)
      → List String
      → List (SequentialMigration W)
      → W
      → List String × Option SeqError × W
  stamp_pending log done [] w = (done, none, w)
  stamp_pending log done (m ∷ ms) w =
      let (unrecorded, w₁) = store.record_ m.name (migration_checksum sha256_hex m) w in
      elim unrecorded [
        | some cause ↦ (done, some (SeqError.record_failed m.name cause), w₁)
        | none ↦ stamp_pending log (done ++ m.name ∷ []) ms (log ("stamped: " <> m.name) w₁)
      ]

  -- The state schema is ensured and the applied migrations are read.
  unfoldable pub load_applied : W → Result SeqError (Dict SeqMigrationRecord) × W
  load_applied w =
      let (failed, w₁) = store.ensure_schema w in
      elim failed [
        | some cause ↦ (err (SeqError.ensure_failed cause), w₁)
        | none ↦
            let (answer, w₂) = store.applied w₁ in
            elim answer [
              | err cause ↦ (err (SeqError.query_failed cause), w₂)
              | ok applied ↦ (ok applied, w₂)
            ]
      ]

  unfoldable pub prepare_seq_migrations :
      List (SequentialMigration W)
      → W
      → Result SeqError (List (SequentialMigration W) × Dict SeqMigrationRecord) × W
  unfolding load_applied
  prepare_seq_migrations ms w =
      let issues = validate_sequential_migrations ms in
      if has_validation_errors issues
      then (err (SeqError.validation_failed (format_issues issues)), w)
      else let (loaded, w₁) = load_applied w in
        elim loaded [ err e ↦ (err e, w₁) | ok applied ↦ (ok (sort_by_name ms, applied), w₁) ]

  unfoldable pub run_sequential_migrations :
      SeqOptions W → List (SequentialMigration W) → W → List String × Option SeqError × W
  unfolding prepare_seq_migrations
  run_sequential_migrations opts ms w =
      let (prepared, w₁) = prepare_seq_migrations ms w in
      elim prepared [
        | err e ↦ ([], some e, w₁)
        | ok (sorted, applied) ↦ elim (verify_seq_checksums sha256_hex sorted applied) [
          | some e ↦ ([], some e, w₁)
          | none ↦
              let pending = pending_seq_migrations sorted applied opts.target in
              if opts.dry_run
              then (names_of pending, none, log_pending "pending" opts.logger pending w₁)
              else apply_pending opts.logger [] pending w₁
        ]
      ]

  unfoldable pub stamp_sequential_migrations :
      SeqOptions W → List (SequentialMigration W) → W → List String × Option SeqError × W
  unfolding load_applied
  stamp_sequential_migrations opts [] w = ([], none, w)
  stamp_sequential_migrations opts (m ∷ ms) w =
      let (loaded, w₁) = load_applied w in
      elim loaded [
        | err e ↦ ([], some e, w₁)
        | ok applied ↦
            let pending = pending_seq_migrations (sort_by_name (m ∷ ms)) applied opts.target in
            if opts.dry_run
            then (names_of pending, none, log_pending "stamp" opts.logger pending w₁)
            else stamp_pending opts.logger [] pending w₁
      ]
