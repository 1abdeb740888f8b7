-- ===== src/Gotype/Sequential/Statements/Tests.antt =====
-- A migration of statements of gotype/seq_migrate.go, run on a driver that refuses one of them.
use go_typeql.Base.{
  true, false, has_prefix_lower, lower_code, String, List, [], ◌∷◌, none, some, ok, err, ◌==◌, ◌≡◌,
  refl, if◌then◌else◌,
}
use go_typeql.Gotype.Tags.{trim_left, trim_right, is_space}
use go_typeql.Gotype.Session.{Driver, write, schema, execute_write, execute_schema}
use go_typeql.Gotype.Session.Trace.{Request, tracing, opens, queries, commits, closes}
use go_typeql.Gotype.Sequential.Model.{Effect}
use go_typeql.Gotype.Sequential.Statements.{infer_tx_type, exec_stmt, exec_all, tql_migration}
use go_typeql.Gotype.Sequential.Statements.Sent.{Ran, tql_migration-Ran}

abbrev refusing : String → Driver Unit Unit String
refusing text = record {
  cancelled = λ w. none;
  open_ = λ t w. (ok tt, w);
  query = λ tx q w. if q == text then (err "refused", w) else (ok [], w);
  commit = λ tx w. (none, w);
  close_ = λ tx w. w;
}

inferred :
    (infer_tx_type "  DEFİNE entity person;" ≡ "schema")
    × (infer_tx_type "\n\tundefine person;" ≡ "schema")
    × (infer_tx_type "# about\ndefine entity person;" ≡ "write")
    × (infer_tx_type "insert $x isa person;" ≡ "write")
unfolding infer_tx_type has_prefix_lower lower_code trim_left trim_right is_space
inferred = (refl, refl, refl, refl)

-- What the second statement asks for is the end of the log.
stops_at_second :
    exec_all
      (tracing (refusing "insert b;"))
      ("define a;" ∷ "insert b;" ∷ "insert c;" ∷ [])
      ([], tt)
    ≡ (
      some "refused",
      (
        opens schema true
            ∷ queries "define a;" true
            ∷ commits true
            ∷ closes
            ∷ opens write true
            ∷ queries "insert b;" false
            ∷ closes
            ∷ [],
        tt,
      ),
    )
unfolding exec_all exec_stmt execute_schema execute_write infer_tx_type has_prefix_lower lower_code
    trim_left trim_right is_space
stops_at_second = refl

tql_migration-Ran_example :
    (up down : Effect (List Request × Unit {0})) × ((tql_migration
        (tracing (refusing "insert b;"))
        "001"
        ("define a;" ∷ "insert b;" ∷ [])
        ("undefine a;" ∷ [])).up
      ≡ some up)
    × ((tql_migration
          (tracing (refusing "insert b;"))
          "001"
          ("define a;" ∷ "insert b;" ∷ [])
          ("undefine a;" ∷ [])).down
        ≡ some down)
    × Ran ("define a;" ∷ "insert b;" ∷ []) [] (up ([], tt)).1.0 (up ([], tt)).0
    × Ran ("undefine a;" ∷ []) [] (down ([], tt)).1.0 (down ([], tt)).0
tql_migration-Ran_example =
    tql_migration-Ran (refusing "insert b;") "001" "define a;" "undefine a;" ("insert b;" ∷ []) []
      [] tt
