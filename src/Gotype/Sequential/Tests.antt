-- ===== src/Gotype/Sequential/Tests.antt =====
-- Runs of gotype/seq_migrate.go on a store that is a dictionary.
use go_typeql.Base.{
  String, Bool, true, false, not, List, [], ◌∷◌, none, some, ok, ◌<>◌, Dict, lookup, insert, keys,
  delete, contains, if◌then◌else◌, ◌≡◌, refl,
}
use go_typeql.Gotype.Sequential.Model.{
  SequentialMigration, SeqMigrationRecord, sort_by_name, validate_sequential_migrations,
  has_validation_errors, less,
}
use go_typeql.Gotype.Sequential.Run.{
  StateStore, SeqOptions, run_sequential_migrations, pending_seq_migrations, prepare_seq_migrations,
  load_applied, apply_pending, verify_seq_checksums,
}
use go_typeql.Gotype.Sequential.Validation.{runnable, validate_sequential_migrations-runnable}
use go_typeql.Gotype.Sequential.Pending.{unapplied, through, pending_seq_migrations-through}
use go_typeql.Gotype.Sequential.Queries.{record_head, delete_head, record_query, delete_query}
use go_typeql.Gotype.Sequential.Queries.Literals.{Names, record_query-Names}

abbrev World : Type 0
World = Dict SeqMigrationRecord

abbrev memory : StateStore World
memory = record {
  ensure_schema = λ w. (none, w);
  applied = λ w. (ok w, w);
  record_ = λ name sum w. (none, insert name record { applied_at = none; checksum = sum } w);
  delete_ = λ name w. (none, delete name w);
}

abbrev hash : String → String
hash s = "#" <> s

abbrev migration : String → Bool → SequentialMigration World
migration name fails = record {
  name = name;
  up = some (λ w. (if fails then some "boom" else none, w));
  down = none;
  statements = some (record { up = ("define " <> name) ∷ []; down = [] });
}

abbrev three : List (SequentialMigration World)
three = migration "c" true ∷ migration "a" false ∷ migration "b" false ∷ []

abbrev two : List (SequentialMigration World)
two = migration "b" false ∷ migration "a" false ∷ []

abbrev plain : SeqOptions World
plain = record { dry_run = false; target = ""; logger = λ s w. w }

three_run : (run_sequential_migrations hash memory plain three []).0 ≡ "a" ∷ "b" ∷ []
unfolding run_sequential_migrations prepare_seq_migrations load_applied apply_pending
    verify_seq_checksums pending_seq_migrations sort_by_name validate_sequential_migrations
    has_validation_errors lookup insert less
three_run = refl

-- The first two migrations by name are applied; the third fails, and is not recorded.
three_records : contains (keys (run_sequential_migrations hash memory plain three []).2) "b" ≡ true
unfolding run_sequential_migrations prepare_seq_migrations load_applied apply_pending
    verify_seq_checksums pending_seq_migrations sort_by_name validate_sequential_migrations
    has_validation_errors lookup insert less
three_records = refl

validate_sequential_migrations-runnable_example :
    has_validation_errors (validate_sequential_migrations (migration "" false ∷ two))
    ≡ not (runnable [] (migration "" false ∷ two))
validate_sequential_migrations-runnable_example =
    validate_sequential_migrations-runnable (migration "" false ∷ two)

abbrev one_applied : Dict SeqMigrationRecord
one_applied = ("a", record { applied_at = none; checksum = "#define a|" }) ∷ []

pending_seq_migrations-through_example :
    pending_seq_migrations three one_applied "b" ≡ through "b" (unapplied one_applied three)
pending_seq_migrations-through_example = pending_seq_migrations-through one_applied three "b"

two_run : (run_sequential_migrations hash memory plain two []).1 ≡ none
unfolding run_sequential_migrations prepare_seq_migrations load_applied apply_pending
    verify_seq_checksums pending_seq_migrations sort_by_name validate_sequential_migrations
    has_validation_errors lookup insert less
two_run = refl

record_query-Names_example :
    Names record_head "a\"b" (record_query "a\"b" "" "2026-01-01T00:00:00")
    × Names delete_head "a\"b" (delete_query "a\"b")
record_query-Names_example = record_query-Names "a\"b" "" "2026-01-01T00:00:00"
