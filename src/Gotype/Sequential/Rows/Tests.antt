-- ===== src/Gotype/Sequential/Rows/Tests.antt =====
-- gotype/seq_migrate.go and gotype/seq_migrate_state.go, run on a database that is a list of rows: it
-- reads the queries that it is sent, and refuses what it cannot read.
use go_typeql.Base.{
  separated, String, Bool, true, false, ◌==◌, ◌<>◌, <>_assoc, nil-<>, cons-<>, List, [], ◌∷◌, ◌++◌,
  Option, none, some, Result, ok, err, if◌then◌else◌, not, ◌&&◌, ◌||◌, Dict, lookup, insert, keys,
  index, contains, take, pos, ◌≡◌, ◌⊎◌, refl, sym, ap, ◌∙◌, inl, inr, Bool-cases, Option-cases,
  arith,
}
use go_typeql.Ast.Escape.{read_literal}
use go_typeql.Gotype.Tags.{strip}
use go_typeql.Gotype.Migrate.Define.{is_set}
use go_typeql.Gotype.Sequential.Model.{
  SequentialMigration, SeqMigrationRecord, is_nil, sort_by_name, validate_sequential_migrations,
  has_validation_errors, less,
}
use go_typeql.Gotype.Sequential.Run.{
  StateStore, SeqError, SeqOptions, run_sequential_migrations, pending_seq_migrations, names_of,
  prepare_seq_migrations, load_applied, call, migration_checksum, apply_pending,
  verify_seq_checksums,
}
use go_typeql.Gotype.Sequential.Pending.{unapplied, through}
use go_typeql.Gotype.Sequential.Rollback.{rollback_sequential_migration, sort_descending}
use go_typeql.Gotype.Sequential.Undone.{DownsKeepRecords}
use go_typeql.Gotype.Sequential.Stored.{
  run_sequential_migrations-again, run_sequential_migrations-recorded,
  run_sequential_migrations-order, rollback_sequential_migration-deleted,
}
use go_typeql.Gotype.Sequential.Queries.{
  Cell, text, Session, record_head, delete_head, escape_tql, seq_migration_state,
}
use go_typeql.Gotype.Sequential.Rows.{
  at_head, sum_head, Inserts, Removes, without, Shows, KeepsRows,
}
use go_typeql.Gotype.Sequential.Rows.Collected.{held}

abbrev Table : Type 0
Table = List (Dict Cell)

abbrev Answer : Type 0
Answer = Result String Table × Table

abbrev moment : String
moment = "2026-01-01T00:00:00"

abbrev row : String → String → Dict Cell
row name sum =
    if is_set sum
    then ("name", text name) ∷ ("checksum", text sum) ∷ []
    else ("name", text name) ∷ []

-- The row of a name and of the text behind its literal.
abbrev add_row : String → String → Table → Answer
add_row name rest w = elim (strip (at_head <> moment) rest) [
  | none ↦ (err "syntax", w)
  | some tail ↦ elim (strip sum_head tail) [
    | none ↦ (ok [], w ++ row name "" ∷ [])
    | some more ↦ elim (read_literal false more) [
      | none ↦ (err "syntax", w)
      | some (sum, end) ↦ (ok [], w ++ row name sum ∷ [])
    ]
  ]
]

abbrev insertion : String → Table → Answer
insertion body w = elim (read_literal false body) [
  | none ↦ (err "syntax", w)
  | some (name, rest) ↦ add_row name rest w
]

abbrev deletion : String → Table → Answer
deletion body w = elim (read_literal false body) [
  | none ↦ (err "syntax", w)
  | some (name, rest) ↦ (ok [], without name w)
]

abbrev execute : String → Table → Answer
execute query w = elim (strip record_head query) [
  | some body ↦ insertion body w
  | none ↦ elim (strip delete_head query) [ some body ↦ deletion body w | none ↦ (err "syntax", w) ]
]

abbrev table : Session Table
table = record {
  execute_schema = λ query w. (none, w);
  execute_read = λ query w. (ok w, w);
  execute_write = execute;
  now = λ w. moment;
}

strip-<> : (p s : String) → strip p (p <> s) ≡ some s
unfolding strip
strip-<> String.[] s = rw nil-<> refl
strip-<> (String.◌∷◌ c p) s = rw cons-<> (ground (arith, strip-<> p s))

apart : (body : String) → strip record_head (delete_head <> body) ≡ none
unfolding strip
apart body = rw cons-<> refl

no_sum : strip sum_head ";" ≡ none
unfolding strip
no_sum = refl

inserted :
    (name sum query : String) (w : Table)
    → Inserts name sum moment query
    → execute query w ≡ (ok [], w ++ row name sum ∷ [])
inserted name sum query w (body, rest, is, read, tail) =
    rw is (rw (execute, strip-<> record_head body) (rw (insertion, read) (added tail)))
  where
    added :
        ((rest ≡ at_head <> (moment <> ";")) × (sum ≡ "")
          ⊎ (more : String) × (rest ≡ at_head <> (moment <> (sum_head <> more)))
            × (read_literal false more ≡ some (sum, ";")))
        → add_row name rest w ≡ (ok [], w ++ row name sum ∷ [])
    added (inl (e, none_)) =
        let stripped : strip (at_head <> moment) rest ≡ some ";" =
          ap (strip (at_head <> moment)) e ∙ strip-<> (at_head <> moment) ";" in
        rw none_ (rw (add_row, stripped) (rw no_sum refl))
    added (inr (more, e, read_sum)) =
        let stripped : strip (at_head <> moment) rest ≡ some (sum_head <> more) =
          ap (strip (at_head <> moment)) (e ∙ sym (<>_assoc at_head moment (sum_head <> more)))
          ∙ strip-<> (at_head <> moment) (sum_head <> more) in
        rw (add_row, stripped) (rw (strip-<> sum_head more) (rw read_sum refl))

removed :
    (name query : String) (w : Table)
    → Removes name query
    → execute query w ≡ (ok [], without name w)
removed name query w (body, is, read) =
    rw is (rw (execute, apart body) (rw (strip-<> delete_head body) (rw (deletion, read) refl)))

row-Shows : (name sum : String) → Shows name sum (row name sum)
unfolding lookup
row-Shows name sum = elim (Bool-cases (is_set sum)) [
  | inl e ↦ rw e (refl, refl)
  | inr e ↦ rw e (refl, refl)
]

add_row-unwritten :
    (name rest cause : String) (w : Table)
    → (add_row name rest w).0 ≡ err cause
    → (add_row name rest w).1 ≡ w
add_row-unwritten name rest cause w h = elim (Option-cases (strip (at_head <> moment) rest)) [
  | inl e ↦ rw (add_row, e) refl
  | inr (tail, e) ↦ elim (Option-cases (strip sum_head tail)) [
    | inl f ↦ cc (rw (add_row, e, f) at h)
    | inr (more, f) ↦ elim (Option-cases (read_literal false more)) [
      | inl g ↦ rw (add_row, e) (rw f (rw g refl))
      | inr (_, g) ↦ cc (rw (add_row, e, f, g) at h)
    ]
  ]
]

unwritten :
    (query cause : String) (w : Table) → (execute query w).0 ≡ err cause → (execute query w).1 ≡ w
unwritten query cause w h = elim (Option-cases (strip record_head query)) [
  | inr (body, e) ↦ elim (Option-cases (read_literal false body)) [
    | inl f ↦ rw (execute, e) (rw (insertion, f) refl)
    | inr ((name, rest), f) ↦
        rw (execute, e)
          (rw (insertion, f)
            (add_row-unwritten name rest cause w (rw (execute, e, insertion, f) at h)))
  ]
  | inl e ↦ elim (Option-cases (strip delete_head query)) [
    | inl f ↦ rw (execute, e) (rw f refl)
    | inr (body, f) ↦ elim (Option-cases (read_literal false body)) [
      | inl g ↦ rw (execute, e) (rw f (rw (deletion, g) refl))
      | inr (_, g) ↦ cc (rw (execute, e, f, deletion, g) at h)
    ]
  ]
]

table-KeepsRows : KeepsRows table (λ w. w)
table-KeepsRows = record {
  defined = λ w. refl;
  fetched = λ w. refl;
  answered = λ w found e. cc e;
  inserted = λ name sum query w out e ok_.
      (row name sum, row-Shows name sum, ap (λ p. p.1) (inserted name sum query w e));
  removed = λ name query w out e ok_. ap (λ p. p.1) (removed name query w e);
  unwritten = unwritten;
}

abbrev no_time : String → Option String
no_time s = none

abbrev view : Table → Dict SeqMigrationRecord
view = held no_time (λ w. w)

abbrev stored : StateStore Table
stored = seq_migration_state no_time table

abbrev hash : String → String
hash s = "#" <> s

abbrev migration : String → Bool → SequentialMigration Table
migration name fails = record {
  name = name;
  up = some (λ w. (if fails then some "boom" else none, w));
  down = some (λ w. (none, w));
  statements = some (record { up = ("define " <> name) ∷ []; down = [] });
}

abbrev three : List (SequentialMigration Table)
three = migration "c" true ∷ migration "a" false ∷ migration "b" false ∷ []

abbrev two : List (SequentialMigration Table)
two = migration "b" false ∷ migration "a" false ∷ []

abbrev plain : SeqOptions Table
plain = record { dry_run = false; target = ""; logger = λ s w. w }

abbrev run : List (SequentialMigration Table) → Table → List String × Option SeqError × Table
run ms w = run_sequential_migrations hash stored plain ms w

run_sequential_migrations-recorded_example :
    is_nil (lookup "b" (view (run three []).2))
    ≡ is_nil (lookup "b" (view [])) && not (contains (run three []).0 "b")
run_sequential_migrations-recorded_example =
    run_sequential_migrations-recorded hash no_time table (λ w. w) table-KeepsRows plain three []
      (λ s w. refl) ((λ w. refl), ((λ w. refl), ((λ w. refl), tt))) refl "b"

run_sequential_migrations-order_example :
    (taken rest : List (SequentialMigration Table)) × (through ""
        (unapplied (view []) (sort_by_name three))
      ≡ taken ++ rest)
    × ((run three []).0 ≡ names_of taken)
    × ((run three []).1 ≡ none → rest ≡ [])
run_sequential_migrations-order_example =
    run_sequential_migrations-order hash no_time table (λ w. w) table-KeepsRows plain three [] refl

-- The table behind a run holds the rows of its two migrations.
both_applied : run two [] ≡ ("a" ∷ "b" ∷ [], none, row "a" "#define a|" ∷ row "b" "#define b|" ∷ [])
unfolding run_sequential_migrations prepare_seq_migrations load_applied apply_pending
    verify_seq_checksums pending_seq_migrations sort_by_name validate_sequential_migrations
    has_validation_errors lookup insert less seq_migration_state strip escape_tql migration_checksum
    read_literal separated
both_applied = refl

abbrev after_two : Table
after_two = (run two []).2

run_sequential_migrations-again_example :
    ((run two after_two).0 ≡ [])
    × (view (run two after_two).2 ≡ view after_two)
    × ((d : Dict SeqMigrationRecord)
        → (load_applied hash stored after_two).0 ≡ ok d
        → (run two after_two).1 ≡ none)
run_sequential_migrations-again_example =
    run_sequential_migrations-again hash no_time table (λ w. w) table-KeepsRows plain two []
      (λ s w. refl) ((λ w. refl), ((λ w. refl), tt)) refl refl (ap (λ out. out.1) both_applied)

abbrev by_name_two : Dict (SequentialMigration Table)
by_name_two = index (λ m. SequentialMigration.name m) two []

abbrev after_down : Option (SequentialMigration Table) → Table → Table
after_down none w = w
after_down (some m) w = (call m.down w).1

two-DownsKeepRecords : DownsKeepRecords view by_name_two
unfolding index insert lookup
two-DownsKeepRecords name m e w = ap view (sym (ap (λ found. after_down found w) e) ∙ quiet)
  where
    quiet : after_down (lookup name by_name_two) w ≡ w
    quiet = elim (Bool-cases ("b" == name)) [
      | inl p ↦ rw p refl
      | inr p ↦ rw p (elim (Bool-cases ("a" == name)) [ inl q ↦ rw q refl | inr q ↦ rw q refl ])
    ]

abbrev one_applied : Table
one_applied = row "a" "" ∷ []

abbrev undone : List String × Option SeqError × Table
undone = rollback_sequential_migration hash stored two (pos 1) one_applied

rollback_sequential_migration-deleted_example :
    ((taken rest : List String) × (take 1 (sort_descending (keys (view one_applied)))
        ≡ taken ++ rest)
      × (undone.0 ≡ taken)
      × (undone.1 ≡ none → rest ≡ []))
    × ((k : String)
        → is_nil (lookup k (view undone.2))
          ≡ is_nil (lookup k (view one_applied)) || contains undone.0 k)
rollback_sequential_migration-deleted_example =
    rollback_sequential_migration-deleted hash no_time table (λ w. w) table-KeepsRows two 0
      one_applied two-DownsKeepRecords
