-- ===== src/Gotype/Tests.antt =====
-- Runs of gotype/migrate.go on concrete schemas.
use go_typeql.Base.{
  Bool, false, ◌⊎◌, Result, ok, some, none, if◌then◌else◌, ◌==◌, ◌++◌, map, All, String, true,
  false, List, [], ◌∷◌, index, insert, lookup, join, ◌≡◌, ◌↔◌, refl,
}
use go_typeql.Tqlgen.Model.{
  ParsedSchema, AttributeSpec, EntitySpec, RelationSpec, OwnsSpec, RelatesSpec,
}
use go_typeql.Gotype.Migrate.Define.{build_owns_annots}
use go_typeql.Gotype.Migrate.Operations.{to_type_ql, is_destructive}
use go_typeql.Gotype.Migrate.Apply.Tracked.{tracked, migrate_with_state_from_schema-Executes}
use go_typeql.Gotype.Migrate.Apply.{
  MigrateError, MigrationState, Database, Migrated, sync_schema, introspect_schema_from_string,
}
use go_typeql.Gotype.Migrate.Apply.Executed.{
  Log, no_error, recording, plan, Executes, sync_schema-Executes,
}
use go_typeql.Gotype.Migrate.Plan.{
  generate_migration, generate_migration_with_opts, operations, destructive_operations,
}
use go_typeql.Gotype.Migrate.Plan.Laws.{generate_migration_with_opts-eq, operations-is_destructive}
use go_typeql.Gotype.Migrate.Diff.{
  SchemaDiff, is_empty, diff_schema, diff_attributes, diff_entities, diff_entity, diff_owns,
  diff_relations, diff_relation, diff_relates, diff_removed,
}
use go_typeql.Gotype.Migrate.Diff.Whole.{exact_diff, diff_schema-exact}
use go_typeql.Gotype.Migrate.Diff.Covered.{AddsNothing, Covers, diff_schema-AddsNothing_iff}
use go_typeql.Gotype.Migrate.Diff.Same.{diff_schema_self}

abbrev attribute_spec : String → AttributeSpec
attribute_spec n = record {
  name = n;
  value_type = "string";
  doc = "";
  meta = [];
  regex = "";
  values = [];
  range_op = "";
}

abbrev owns_spec : String → OwnsSpec
owns_spec n = record {
  attribute = n;
  key = true;
  unique = false;
  card = "0..2";
  doc = "";
  meta = [];
}

abbrev entity_spec : String → List OwnsSpec → EntitySpec
entity_spec n os = record {
  name = n;
  parent = "";
  abstract = false;
  doc = "";
  meta = [];
  owns = os;
  plays = [];
}

abbrev relation_spec : String → List RelatesSpec → RelationSpec
relation_spec n rs = record {
  name = n;
  parent = "";
  abstract = true;
  doc = "";
  meta = [];
  relates = rs;
  owns = [];
  plays = [];
}

abbrev relates_spec : String → RelatesSpec
relates_spec n = record { role = n; as_parent = ""; card = "1"; doc = ""; meta = [] }

-- Two entity types and a relation type.
abbrev library : ParsedSchema
library = record {
  attributes = attribute_spec "name" ∷ attribute_spec "isbn" ∷ [];
  entities =
      entity_spec "author" (owns_spec "name" ∷ [])
      ∷ entity_spec "book" (owns_spec "isbn" ∷ [])
      ∷ [];
  relations = relation_spec "wrote" (relates_spec "writer" ∷ relates_spec "work" ∷ []) ∷ [];
  functions = [];
  structs = [];
}

-- One of its entity types, with nothing owned, and a type that it has not.
abbrev old_library : ParsedSchema
old_library = record {
  attributes = attribute_spec "name" ∷ [];
  entities = entity_spec "author" [] ∷ entity_spec "scroll" [] ∷ [];
  relations = relation_spec "wrote" (relates_spec "writer" ∷ []) ∷ [];
  functions = [];
  structs = [];
}

upgrade_removes : SchemaDiff.remove_types (diff_schema library old_library) ≡ "scroll" ∷ []
unfolding diff_schema diff_attributes diff_entities diff_entity diff_owns diff_relations
    diff_relation diff_relates diff_removed index insert lookup build_owns_annots join
upgrade_removes = refl

upgrade_relates :
    SchemaDiff.add_relates (diff_schema library old_library)
    ≡ record { type_name = "wrote"; role = "work"; card = "1" } ∷ []
unfolding diff_schema diff_attributes diff_entities diff_entity diff_owns diff_relations
    diff_relation diff_relates diff_removed index insert lookup build_owns_annots join
upgrade_relates = refl

upgrade_owns :
    SchemaDiff.add_owns (diff_schema library old_library)
    ≡ record { type_name = "author"; attribute = "name"; annots = "@key @card(0..2)" } ∷ []
unfolding diff_schema diff_attributes diff_entities diff_entity diff_owns diff_relations
    diff_relation diff_relates diff_removed index insert lookup build_owns_annots join
upgrade_owns = refl

diff_schema-exact_example : diff_schema library old_library ≡ exact_diff library old_library
diff_schema-exact_example = diff_schema-exact library old_library

diff_schema-AddsNothing_iff_example :
    AddsNothing (diff_schema old_library library) ↔ Covers library old_library
diff_schema-AddsNothing_iff_example = diff_schema-AddsNothing_iff old_library library

diff_schema_self_example : is_empty (diff_schema library library) ≡ true
diff_schema_self_example = diff_schema_self library (refl, (refl, tt)) (refl, tt)

abbrev upgrade : SchemaDiff
upgrade = record {
  add_attributes = record { name = "isbn"; value_type = "string" } ∷ [];
  add_entities = record { type_ql = "entity book;" } ∷ [];
  add_relations = [];
  add_owns = record { type_name = "author"; attribute = "name"; annots = "@key" } ∷ [];
  add_relates = [];
  remove_owns = [];
  remove_types = "scroll" ∷ [];
}

upgrade_statements :
    generate_migration_with_opts true upgrade
    ≡ "define attribute isbn, value string;" ∷ "define entity book;"
      ∷ "define author owns name @key;" ∷ "undefine entity scroll;" ∷ []
unfolding generate_migration_with_opts operations destructive_operations to_type_ql
upgrade_statements = refl

generate_migration_with_opts-eq_example :
    generate_migration_with_opts true upgrade
    ≡ generate_migration upgrade ++ map to_type_ql (destructive_operations upgrade)
generate_migration_with_opts-eq_example = generate_migration_with_opts-eq true upgrade (refl, tt) tt

operations-is_destructive_example :
    All (λ op. is_destructive op ≡ false) (operations upgrade)
    × All (λ op. is_destructive op ≡ true) (destructive_operations upgrade)
operations-is_destructive_example = operations-is_destructive upgrade

-- A database whose schema is a name, that refuses to remove.
abbrev strict_db : Database Unit
strict_db = record {
  schema = λ w. (ok "old", w);
  execute_schema =
      λ stmt w. (if stmt == "undefine entity scroll;" then some "refused" else none, w);
}

abbrev parse_old : String → Result String ParsedSchema
parse_old text = ok old_library

introspected : introspect_schema_from_string parse_old library "old" ≡ ok old_library
unfolding introspect_schema_from_string
introspected = refl

abbrev synced : Migrated (Log × Unit)
synced = sync_schema parse_old library (recording strict_db) true false ([], tt)

sync_schema-Executes_example :
    (synced.0 ≡ some (diff_schema library old_library))
    × Executes [] (plan true (diff_schema library old_library)) (synced.2).0 (no_error synced.1)
sync_schema-Executes_example =
    sync_schema-Executes parse_old library strict_db true false [] tt "old" old_library refl
      introspected

-- A state in which nothing has been applied.
abbrev fresh_state : MigrationState Unit
fresh_state = record {
  ensure_schema = λ w. (none, w);
  is_applied = λ h w. (ok false, w);
  record_ = λ h t w. (none, w);
}

abbrev text_itself : String → String
text_itself text = text

upgrade_wanted : is_empty (diff_schema library old_library) ≡ false
unfolding is_empty diff_schema diff_attributes diff_entities diff_entity diff_owns diff_relations
    diff_relation diff_relates diff_removed index insert lookup
upgrade_wanted = refl

abbrev first_run : Migrated (Log × Unit)
first_run = tracked parse_old library strict_db fresh_state text_itself "old" ([], tt)

migrate_with_state_from_schema-Executes_example :
    (first_run.0 ≡ some (diff_schema library old_library))
    × (done : Bool) × Executes []
        (generate_migration (diff_schema library old_library))
        (first_run.2).0
        done
    × (first_run.1 ≡ none → done ≡ true)
    × (done ≡ true
        → first_run.1 ≡ none
          ⊎ (false ≡ false)
            × (cause : String) × first_run.1 ≡ some (MigrateError.record_failed cause))
migrate_with_state_from_schema-Executes_example =
    migrate_with_state_from_schema-Executes parse_old library strict_db fresh_state text_itself []
      tt "old" old_library false refl introspected upgrade_wanted refl
