-- ===== src/Gotype/Sequential/Rows.antt =====
-- gotype/seq_migrate_state.go on a database that holds rows: what is asked of the database.
pub mod Collected
pub mod Lawful
mod Tests
use go_typeql.Base.{
  String, true, false, ◌==◌, ◌<>◌, <>_assoc, eq_iff, List, [], ◌∷◌, ◌++◌, Option, none, some,
  Result, ok, err, if◌then◌else◌, Dict, lookup, insert, lookup-insert, ◌⊎◌, ◌≡◌, refl, sym, ap, ◌∙◌,
  inl, inr, Bool-cases, Result-cases, arith,
}
use go_typeql.Ast.Escape.{read_literal}
use go_typeql.Gotype.Migrate.Define.{is_set}
use go_typeql.Gotype.Sequential.Model.{SeqMigrationRecord}
use go_typeql.Gotype.Sequential.Run.{StateStore}
use go_typeql.Gotype.Sequential.Kept.{parts}
use go_typeql.Gotype.Sequential.Store.{IsLawful}
use go_typeql.Gotype.Sequential.Undone.{DeletesRecords}
use go_typeql.Gotype.Sequential.Queries.{
  Cell, text, unwrap_value, Session, schema_text, applied_query, record_head, delete_head,
  checksum_clause, escape_tql, record_query, delete_query, text_of, record_of, collect,
  seq_migration_state,
}
use go_typeql.Gotype.Sequential.Queries.Literals.{read_literal-escape_tql, record_query-Names}

abbrev pub at_head : String
at_head = ",\nhas seq-migration-applied-at "

abbrev pub sum_head : String
sum_head = ",\nhas seq-migration-checksum \""

-- A query that inserts a record, as a reader of its literals understands it.
abbrev pub Inserts : String → String → String → String → Type 0
Inserts name sum now query =
    (body rest : String) × (query ≡ record_head <> body)
    × (read_literal false body ≡ some (name, rest))
    × ((rest ≡ at_head <> (now <> ";")) × (sum ≡ "")
        ⊎ (more : String) × (rest ≡ at_head <> (now <> (sum_head <> more)))
          × (read_literal false more ≡ some (sum, ";")))

-- A query that deletes the records of a name.
abbrev pub Removes : String → String → Type 0
Removes name query =
    (body : String) × (query ≡ delete_head <> body)
    × (read_literal false body ≡ some (name, ";\ndelete $m;"))

abbrev pub cell_text : Cell → String
cell_text (text s) = s
cell_text _ = ""

abbrev pub name_of : Dict Cell → String
name_of row = cell_text (unwrap_value (lookup "name" row))

abbrev pub without : String → List (Dict Cell) → List (Dict Cell)
without name [] = []
without name (row ∷ rows) =
    let rest = without name rows in if name == name_of row then rest else row ∷ rest

-- A row with a name and a checksum, where there is one.
abbrev pub Shows : String → String → Dict Cell → Type 0
Shows name sum row =
    (lookup "name" row ≡ some (text name))
    × (lookup "checksum" row ≡ (if is_set sum then some (text sum) else none))

-- What is asked of a database that holds rows: the define query changes none; a fetch changes none and
-- returns them where it succeeds; an insertion adds its row and a deletion takes out the rows of its name
-- where they succeed, and change none where they fail.
pub record KeepsRows {W : Type 0} (db : Session W) (rows : W → List (Dict Cell)) : Type 0 where
  pub defined : (w : W) → rows (db.execute_schema schema_text w).1 ≡ rows w
  pub fetched : (w : W) → rows (db.execute_read applied_query w).1 ≡ rows w
  pub answered :
      (w : W) (found : List (Dict Cell))
      → (db.execute_read applied_query w).0 ≡ ok found
      → found ≡ rows w
  pub inserted :
      (name sum query : String) (w : W) (out : List (Dict Cell))
      → Inserts name sum (db.now w) query
      → (db.execute_write query w).0 ≡ ok out
      → (row : Dict Cell) × Shows name sum row
        × (rows (db.execute_write query w).1 ≡ rows w ++ row ∷ [])
  pub removed :
      (name query : String) (w : W) (out : List (Dict Cell))
      → Removes name query
      → (db.execute_write query w).0 ≡ ok out
      → rows (db.execute_write query w).1 ≡ without name (rows w)
  pub unwritten :
      (query cause : String) (w : W)
      → (db.execute_write query w).0 ≡ err cause
      → rows (db.execute_write query w).1 ≡ rows w

pub unset : (s : String) → is_set s ≡ false → s ≡ ""
unset s h = (eq_iff s "").0 (ground arith)

pub record_query-Inserts :
    (name sum now : String) → Inserts name sum now (record_query name sum now)
unfolding record_query
record_query-Inserts name sum now = elim (Bool-cases (is_set sum)) [
  | inl e ↦
      rw (checksum_clause, e)
        (
          escape_tql name
              <> ("\"" <> (at_head <> (now <> (sum_head <> (escape_tql sum <> ("\"" <> ";")))))),
          at_head <> (now <> (sum_head <> (escape_tql sum <> ("\"" <> ";")))),
          ap (λ t. record_head <> (escape_tql name <> t))
                (<>_assoc "\"" at_head (now <> ((sum_head <> (escape_tql sum <> "\"")) <> ";")))
              ∙ ap (λ t. record_head <> (escape_tql name <> ("\"" <> (at_head <> (now <> t)))))
                  (<>_assoc sum_head (escape_tql sum <> "\"") ";"
                    ∙ ap (λ t. sum_head <> t) (<>_assoc (escape_tql sum) "\"" ";")),
          read_literal-escape_tql name _,
          inr (escape_tql sum <> ("\"" <> ";"), refl, read_literal-escape_tql sum ";"),
        )
  | inr e ↦
      rw (checksum_clause, e)
        (
          escape_tql name <> ("\"" <> (at_head <> (now <> ";"))),
          at_head <> (now <> ";"),
          ap (λ t. record_head <> (escape_tql name <> t)) (<>_assoc "\"" at_head (now <> ";")),
          read_literal-escape_tql name _,
          inl (refl, unset sum e),
        )
]

pub delete_query-Removes : (name : String) → Removes name (delete_query name)
unfolding delete_query
delete_query-Removes name =
    (escape_tql name <> ("\"" <> ";\ndelete $m;"), refl, read_literal-escape_tql name _)
