-- ===== src/Gotype/Sequential/Queries.antt =====
-- gotype/seq_migrate_state.go: the queries that keep the store of applied migrations.
pub mod Literals
use go_typeql.Base.{
  String, Bool, true, false, ◌==◌, ◌<>◌, List, [], ◌∷◌, Option, none, some, Result, ok, err,
  if◌then◌else◌, Dict, lookup, insert,
}
use go_typeql.Ast.Escape.{replace_all}
use go_typeql.Gotype.Migrate.Define.{is_set}
use go_typeql.Gotype.Sequential.Model.{SeqMigrationRecord}
use go_typeql.Gotype.Sequential.Run.{StateStore}

-- `escapeTQL` of gotype/migrate_state.go.
unfoldable pub escape_tql : String → String
unfolding replace_all
escape_tql s = let s₁ = replace_all "\\" "\\\\" s in replace_all "\"" "\\\"" s₁

-- A cell of a result row: nothing, a string, a time by its formatted text, a document with the cell
-- under its key "value", or anything else.
pub data Cell : Type 0 where
  null : Cell
  text : String → Cell
  time : String → Cell
  wrapped : Cell → Cell
  other : Cell

-- `unwrapValue` of a cell, `null` where the row has no such key.
unfoldable pub unwrap_value : Option Cell → Cell
unwrap_value none = null
unwrap_value (some (wrapped c)) = c
unwrap_value (some c) = c

-- What the store uses of a `Database`; `now` is the present time as a TypeQL literal.
pub record Session (W : Type 0) : Type 0 where
  pub execute_schema : String → W → Option String × W
  pub execute_read : String → W → Result String (List (Dict Cell)) × W
  pub execute_write : String → W → Result String (List (Dict Cell)) × W
  pub now : W → String

abbrev pub schema_text : String
schema_text =
    "define\nattribute seq-migration-name, value string;\nattribute seq-migration-applied-at, value datetime;\nattribute seq-migration-checksum, value string;\nentity seq-migration-record,\n    owns seq-migration-name @key,\n    owns seq-migration-applied-at,\n    owns seq-migration-checksum;"

abbrev pub applied_query : String
applied_query =
    "match\n$m isa seq-migration-record;\nfetch {\n  \"name\": $m.seq-migration-name,\n  \"applied-at\": $m.seq-migration-applied-at,\n  \"checksum\": $m.seq-migration-checksum\n};"

abbrev pub record_head : String
record_head = "insert\n$m isa seq-migration-record,\nhas seq-migration-name \""

abbrev pub delete_head : String
delete_head = "match\n$m isa seq-migration-record, has seq-migration-name \""

abbrev pub checksum_clause : String → String
checksum_clause sum =
    if is_set sum then ",\nhas seq-migration-checksum \"" <> (escape_tql sum <> "\"") else ""

unfoldable pub record_query : String → String → String → String
record_query name sum now =
    record_head
    <> (escape_tql name
        <> ("\",\nhas seq-migration-applied-at " <> (now <> (checksum_clause sum <> ";"))))

unfoldable pub delete_query : String → String
delete_query name = delete_head <> (escape_tql name <> "\";\ndelete $m;")

abbrev failure : {A : Type 0} → Result String A → Option String
failure (ok a) = none
failure (err e) = some e

-- `parse_time` is time.Parse of an RFC 3339 text, formatted again.
module _ (parse_time : String → Option String) where
  unfoldable pub time_of : Cell → Option String
  time_of (time t) = some t
  time_of (text s) = parse_time s
  time_of _ = none

  unfoldable pub text_of : Cell → String
  text_of (text s) = s
  text_of _ = ""

  unfoldable pub record_of : Dict Cell → SeqMigrationRecord
  unfolding time_of text_of unwrap_value
  record_of row = record {
    applied_at = time_of (unwrap_value (lookup "applied-at" row));
    checksum = text_of (unwrap_value (lookup "checksum" row));
  }

  -- The loop over the rows.
  unfoldable pub collect : Dict SeqMigrationRecord → List (Dict Cell) → Dict SeqMigrationRecord
  unfolding record_of text_of unwrap_value
  collect applied [] = applied
  collect applied (row ∷ rows) =
      let name = text_of (unwrap_value (lookup "name" row)) in
      collect (if name == "" then applied else insert name (record_of row) applied) rows

  -- The operations of `seqMigrationState`.
  unfoldable pub seq_migration_state : {W : Type 0} → Session W → StateStore W
  unfolding collect record_query delete_query
  seq_migration_state db = record {
    ensure_schema = λ w. db.execute_schema schema_text w;
    applied = λ w.
        let (rows, w₁) = db.execute_read applied_query w in
        elim rows [ err e ↦ (err e, w₁) | ok rs ↦ (ok (collect [] rs), w₁) ];
    record_ = λ name sum w.
        let (done, w₁) = db.execute_write (record_query name sum (db.now w)) w in
        (failure done, w₁);
    delete_ =
        λ name w. let (done, w₁) = db.execute_write (delete_query name) w in (failure done, w₁);
  }
