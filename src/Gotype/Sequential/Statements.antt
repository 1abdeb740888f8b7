-- ===== src/Gotype/Sequential/Statements.antt =====
-- gotype/seq_migrate.go: `TQLMigration`, a migration made of statements that are sent to the database.
mod Sent
mod Tests
use Prim.Native.Char.{code}
use Prim.Native.String
use go_typeql.Base.{
  has_prefix_lower, ◌==◌, String, Bool, true, false, ◌&&◌, ◌||◌, List, [], ◌∷◌, ℕ, ◌+◌, Option,
  none, some, Result, ok, err, leb, eqb, has_prefix, if◌then◌else◌,
}
use go_typeql.Gotype.Tags.{trim_left, trim_right}
use go_typeql.Gotype.Session.{Driver, TransactionType, write, schema, execute_write, execute_schema}
use go_typeql.Gotype.Sequential.Model.{Effect, TqlStatements, SequentialMigration}

unfoldable pub infer_tx_type : String → String
infer_tx_type stmt =
    let trimmed = trim_right (trim_left stmt) in
    if has_prefix_lower "define" trimmed
      || has_prefix_lower "undefine" trimmed
      || has_prefix_lower "redefine" trimmed
    then "schema"
    else "write"

-- A result without its value.
abbrev pub error_of : {A W : Type 0} → Result String A × W → Option String × W
error_of (err e, w) = (some e, w)
error_of (ok a, w) = (none, w)

module _ {W Tx Row : Type 0} (driver : Driver W Tx Row) where
  unfoldable pub exec_stmt : String → Effect W
  exec_stmt stmt w =
      if infer_tx_type stmt == "schema"
      then execute_schema driver stmt w
      else error_of (execute_write driver stmt w)

  -- The loop of `Up` and `Down`.
  unfoldable pub exec_all : List String → Effect W
  unfolding exec_stmt
  exec_all [] w = (none, w)
  exec_all (stmt ∷ stmts) w =
      let (failed, w₁) = exec_stmt stmt w in
      elim failed [ some e ↦ (some e, w₁) | none ↦ exec_all stmts w₁ ]

  abbrev pub effect_of : List String → Option (Effect W)
  effect_of [] = none
  effect_of (stmt ∷ stmts) = some (exec_all (stmt ∷ stmts))

  -- The raw statements, where there are any.
  abbrev pub raw_statements : List String → List String → Option TqlStatements
  raw_statements [] [] = none
  raw_statements up down = some (record { up = up; down = down })

  unfoldable pub tql_migration : String → List String → List String → SequentialMigration W
  unfolding exec_all
  tql_migration name up down = record {
    name = name;
    up = effect_of up;
    down = effect_of down;
    statements = raw_statements up down;
  }
