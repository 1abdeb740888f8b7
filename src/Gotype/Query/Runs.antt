-- ===== src/Gotype/Query/Runs.antt =====
-- gotype/query.go: the calls that send a query and read instances, and the bulk updates. A panic of a
-- filter leaves no world behind it.
mod Tests
use mathlib.Core.Option
use go_typeql.Base.{
  String, true, List, [], ◌∷◌, map, ℕ, ◌+◌, ℤ, pos, itoa, Option, none, some, Result, ok, err,
  ◌>>=◌, ◌<>◌, join,
}
use go_typeql.Ast.Nodes.{GoValue}
use go_typeql.Ast.Literals.{format_go_value}
use go_typeql.Ast.Compiler.{CompileError}
use go_typeql.Gotype.Session.{Driver, write, execute_read}
use go_typeql.Gotype.Models.{ModelInfo, Instance}
use go_typeql.Gotype.Models.Strategy.{build_fetch_all}
use go_typeql.Gotype.Filter.{Panic}
use go_typeql.Gotype.Manager.{
  RowReader, Manager, context, context_at, finish, update_instance_in_tx,
}
use go_typeql.Gotype.Manager.Writes.{each_instance}
use go_typeql.Gotype.Manager.Reads.{hydrate_results}
use go_typeql.Gotype.Query.{
  Query, build_match_clause, build_query, build_count_query, count_and_change, limit_to,
}

-- What is set, in the order in which the code ranges over the map.
abbrev pub Updates : Type 0
Updates = List (String × GoValue)

try_match_lines : ℕ → Updates → List String
try_match_lines i [] = []
try_match_lines i ((attr, v) ∷ us) =
    ("try { $e has " <> (attr <> (" $old" <> (itoa (pos i) <> "; };"))))
    ∷ try_match_lines (i + 1) us

try_delete_lines : ℕ → Updates → List String
try_delete_lines i [] = []
try_delete_lines i (u ∷ us) =
    ("try { $old" <> (itoa (pos i) <> " of $e; };")) ∷ try_delete_lines (i + 1) us

abbrev pub has_part : String × GoValue → String
has_part (attr, v) = "has " <> (attr <> (" " <> format_go_value v))

-- The query of a bulk update, behind its match.
unfoldable pub change_text : String → Updates → String
unfolding try_match_lines try_delete_lines
change_text matched us =
    matched
    <> ("\n"
        <> (join "\n" (try_match_lines 0 us)
            <> ("\ndelete\n"
                <> (join "\n" (try_delete_lines 0 us)
                    <> ("\ninsert $e " <> (join ", " (map has_part us) <> ";"))))))

-- `buildQuery` with its fetch clause.
unfoldable pub built : ModelInfo → Query → ℕ → Result Panic (Result CompileError String × ℕ)
built info q n = elim (build_fetch_all info "e") [
  | err e ↦ build_match_clause info q n >>= λ r. ok (err e, r.1)
  | ok fetch ↦ build_query info fetch q n >>= λ r. ok (ok r.0, r.1)
]

module _ {W Tx Row : Type 0} (driver : Driver W Tx Row) (rows : RowReader Row)
    (explain : CompileError → String) (m : Manager Tx) where
  abbrev pub QueryCall : Type 0 → Type 0
  QueryCall A = Result Panic ((Result String A × W) × ℕ)

  -- `Execute` behind the building of its query.
  unfoldable pub execute_built : Result CompileError String → W → Result String (List Instance) × W
  execute_built (err e) w = (err (context "query" m.info <> ("build: " <> explain e)), w)
  execute_built (ok text) w =
      let (answer, w₁) = execute_read driver text w in
      elim answer [
        | err e ↦ (err (context "query" m.info <> e), w₁)
        | ok found ↦ (hydrate_results driver rows explain m found, w₁)
      ]

  unfoldable pub execute : Query → ℕ → W → QueryCall (List Instance)
  unfolding built execute_built
  execute q n w = built m.info q n >>= λ r. ok (execute_built r.0 w, r.1)

  -- The query keeps the limit.
  unfoldable pub first : Query → ℕ → W → QueryCall (Option Instance)
  unfolding execute
  first q n w = execute (limit_to (pos 1) q) n w >>= λ r.
      let one : Result String (Option Instance) = elim r.0.0 [
        | err e ↦ err e
        | ok xs ↦ elim xs [ [] ↦ ok none | x ∷ _ ↦ ok (some x) ]
      ] in
      ok ((one, r.0.1), r.1)

  -- The body of the last loop of `UpdateWith`.
  unfoldable pub persist : Tx → ℕ → Instance → W → Option String × W
  persist tx i x w =
      let (failed, w₁) = update_instance_in_tx driver m tx x w in
      (Option.map (λ e. context_at "update_with" m.info i <> e) failed, w₁)

  abbrev pub returned : Option String × List Instance × W → Result String (List Instance) × W
  returned (some e, xs, w) = (err e, w)
  returned (none, xs, w) = (ok xs, w)

  -- `UpdateWith` behind the fetch, in its transaction.
  unfoldable pub update_found :
      (Instance → Instance) → Tx → List Instance → W → Result String (List Instance) × W
  unfolding persist
  update_found change tx [] w = (ok [], driver.close_ tx w)
  update_found change tx (x ∷ xs) w =
      let changed = map change (x ∷ xs) in
      let (failed, w₁) = each_instance (persist tx) 0 changed w in
      elim failed [
        | some e ↦ (err e, driver.close_ tx w₁)
        | none ↦ returned (finish driver m "update_with" tx true changed w₁)
      ]

  unfoldable pub update_built :
      (Instance → Instance) → Result CompileError String → W → Result String (List Instance) × W
  unfolding update_found
  update_built change text w =
      let (opened, w₁) = driver.open_ write w in
      elim opened [
        | err e ↦ (err (context "update_with" m.info <> e), w₁)
        | ok tx ↦ elim text [
          | err e ↦
              (err (context "update_with" m.info <> ("build: " <> explain e)), driver.close_ tx w₁)
          | ok q ↦
              let (answer, w₂) = driver.query tx q w₁ in
              elim answer [
                | err e ↦
                    (err (context "update_with" m.info <> ("fetch: " <> e)), driver.close_ tx w₂)
                | ok found ↦ elim (hydrate_results driver rows explain m found) [
                  | err e ↦ (
                    err (context "update_with" m.info <> ("hydrate: " <> e)),
                    driver.close_ tx w₂,
                  )
                  | ok xs ↦ update_found change tx xs w₂
                ]
              ]
        ]
      ]

  -- The function that changes an instance sees that instance alone.
  unfoldable pub update_with : (Instance → Instance) → Query → ℕ → W → QueryCall (List Instance)
  unfolding built update_built
  update_with change q n w = built m.info q n >>= λ r. ok (update_built change r.0 w, r.1)

  -- `Update`.
  unfoldable pub update_matching : Updates → Query → ℕ → W → QueryCall ℤ
  unfolding change_text
  update_matching [] q n w = ok ((ok (pos 0), w), n)
  update_matching (u ∷ us) q n w = build_match_clause m.info q n >>= λ r.
      build_count_query m.info q r.1 >>= λ c.
      ok (count_and_change driver rows m.info "bulk_update" c.0 (change_text r.0 (u ∷ us)) w, c.1)
