-- ===== src/Gotype/Migrate/Apply.antt =====
-- The functions of gotype/migrate.go and gotype/migrate_state.go that migrate a database.
pub mod Executed
pub mod Tracked
use go_typeql.Base.{
  String, Bool, true, false, not, ◌&&◌, ◌||◌, ◌==◌, ◌<>◌, List, [], ◌∷◌, Option, none, some, Result,
  ok, err, if◌then◌else◌,
}
use go_typeql.Tqlgen.Model.{ParsedSchema}
use go_typeql.Gotype.Migrate.Diff.{SchemaDiff, diff_schema, is_empty}
use go_typeql.Gotype.Migrate.Plan.{
  generate_migration, generate_migration_with_opts, has_breaking_changes, summary,
}

-- What the migrations use of a `Database`: `Schema` and `ExecuteSchema`.
pub record Database (W : Type 0) : Type 0 where
  pub schema : W → Result String String × W
  pub execute_schema : String → W → Option String × W

-- What they use of a `MigrationState`.
pub record MigrationState (W : Type 0) : Type 0 where
  pub ensure_schema : W → Option String × W
  pub is_applied : String → W → Result String Bool × W
  pub record_ : String → String → W → Option String × W

pub data MigrateError : Type 0 where
  fetch_failed parse_failed : String → MigrateError
  execute_failed : String → String → MigrateError
  ensure_failed check_failed record_failed : String → MigrateError

abbrev pub Migrated : Type 0 → Type 0
Migrated W = Option SchemaDiff × Option MigrateError × W

abbrev empty_schema : ParsedSchema
empty_schema = record {
  attributes = [];
  entities = [];
  relations = [];
  functions = [];
  structs = [];
}

-- The text that `HashStatements` hashes.
unfoldable pub hash_input : List String → String
hash_input [] = ""
hash_input (s ∷ ss) = s <> ("\n" <> hash_input ss)

-- `parse_schema` is `tqlgen.ParseSchema`, and `desired` what `registryToParseSchema` makes of the
-- registered models.
module _ (parse_schema : String → Result String ParsedSchema) (desired : ParsedSchema) where
  unfoldable pub introspect_schema_from_string : String → Result String ParsedSchema
  introspect_schema_from_string s = if s == "" then ok empty_schema else parse_schema s

  module _ {W : Type 0} (db : Database W) where
    -- The loop over the statements.
    unfoldable pub execute_each : List String → W → Option MigrateError × W
    execute_each [] w = (none, w)
    execute_each (stmt ∷ stmts) w =
        let (failed, w₁) = db.execute_schema stmt w in
        elim failed [
          | some cause ↦ (some (MigrateError.execute_failed stmt cause), w₁)
          | none ↦ execute_each stmts w₁
        ]

    -- The loop, and the diff returned with its error.
    unfoldable pub execute_for : SchemaDiff → List String → W → Migrated W
    unfolding execute_each
    execute_for d stmts w = let (failed, w₁) = execute_each stmts w in (some d, failed, w₁)

    unfoldable pub migrate_from_schema : String → W → Migrated W
    unfolding introspect_schema_from_string execute_for
    migrate_from_schema current_text w = elim (introspect_schema_from_string current_text) [
      | err cause ↦ (none, some (MigrateError.parse_failed cause), w)
      | ok current ↦
          let d = diff_schema desired current in
          if is_empty d then (some d, none, w) else execute_for d (generate_migration d) w
    ]

    unfoldable pub migrate : W → Migrated W
    unfolding migrate_from_schema
    migrate w =
        let (fetched, w₁) = db.schema w in
        elim fetched [
          | err cause ↦ (none, some (MigrateError.fetch_failed cause), w₁)
          | ok current_text ↦ migrate_from_schema current_text w₁
        ]

    -- `SyncSchema`, with its two options as flags.
    unfoldable pub sync_schema : Bool → Bool → W → Migrated W
    unfolding introspect_schema_from_string execute_for
    sync_schema force skip_if_match w =
        let (fetched, w₁) = db.schema w in
        elim fetched [
          | err cause ↦ (none, some (MigrateError.fetch_failed cause), w₁)
          | ok current_text ↦ elim (introspect_schema_from_string current_text) [
            | err cause ↦ (none, some (MigrateError.parse_failed cause), w₁)
            | ok current ↦
                let d = diff_schema desired current in
                if skip_if_match && (is_empty d && not (has_breaking_changes d))
                then (some d, none, w₁)
                else if is_empty d && (not force || not (has_breaking_changes d))
                then (some d, none, w₁)
                else if force
                then execute_for d (generate_migration_with_opts true d) w₁
                else execute_for d (generate_migration d) w₁
          ]
        ]

    unfoldable pub migrate_with_state_from_schema :
        MigrationState W → (String → String) → String → W → Migrated W
    unfolding introspect_schema_from_string execute_each hash_input
    migrate_with_state_from_schema state sha256_hex current_text w =
        let (unensured, w₁) = state.ensure_schema w in
        elim unensured [
          | some cause ↦ (none, some (MigrateError.ensure_failed cause), w₁)
          | none ↦ elim (introspect_schema_from_string current_text) [
            | err cause ↦ (none, some (MigrateError.parse_failed cause), w₁)
            | ok current ↦
                let d = diff_schema desired current in
                let stmts = generate_migration d in
                let hash = sha256_hex (hash_input stmts) in
                let (checked, w₂) = state.is_applied hash w₁ in
                if is_empty d then (some d, none, w₁) else elim checked [
                  | err cause ↦ (none, some (MigrateError.check_failed cause), w₂)
                  | ok applied ↦
                      if applied
                      then (some d, none, w₂)
                      else let (failed, w₃) = execute_each stmts w₂ in
                        elim failed [
                          | some e ↦ (some d, some e, w₃)
                          | none ↦
                              let (unrecorded, w₄) = state.record_ hash (summary d) w₃ in
                              elim unrecorded [
                                | some cause ↦ (some d, some (MigrateError.record_failed cause), w₄)
                                | none ↦ (some d, none, w₄)
                              ]
                        ]
                ]
          ]
        ]
