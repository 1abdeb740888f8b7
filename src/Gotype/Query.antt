-- ===== src/Gotype/Query.antt =====
-- gotype/query.go: the query builder. A `Query` is what its chained calls have gathered, with the model of
-- its manager; the patterns of a filter may panic, and the counter of their scopes is passed on.
pub mod Aggregates
pub mod Runs
mod Together
mod Text
mod Tests
use go_typeql.Base.{
  String, Bool, true, false, List, [], ◌∷◌, ◌++◌, map, ℕ, ◌+◌, ℤ, pos, itoa, ltb_ℤ, Option, none,
  some, Result, ok, err, ◌>>=◌, ◌<>◌, ◌==◌, join, if◌then◌else◌,
}
use go_typeql.Ast.Compiler.{CompileError}
use go_typeql.Gotype.Session.{Driver, write, execute_read}
use go_typeql.Gotype.Models.{ModelInfo, Instance}
use go_typeql.Gotype.Models.Strategy.{build_fetch_all}
use go_typeql.Gotype.Filter.{
  Filter, Filters, Panic, Outcome, no_filters, filter_, all_patterns, sanitize_var,
}
use go_typeql.Gotype.Filter.Constructors.{append_filters}
use go_typeql.Gotype.Manager.{RowReader, context}

pub record OrderClause : Type 0 where
  pub attr : String
  pub desc : Bool

pub record Query : Type 0 where
  pub filters : Filters
  pub order_by : List OrderClause
  pub limit : ℤ
  pub offset : ℤ

abbrev pub new_query : Query
new_query = record { filters = no_filters; order_by = []; limit = pos 0; offset = pos 0 }

unfoldable pub filter_by : Filters → Query → Query
filter_by fs q = record q { filters = append_filters q.filters fs }

unfoldable pub order_asc : String → Query → Query
order_asc attr q = record q { order_by = q.order_by ++ record { attr = attr; desc = false } ∷ [] }

unfoldable pub order_desc : String → Query → Query
order_desc attr q = record q { order_by = q.order_by ++ record { attr = attr; desc = true } ∷ [] }

unfoldable pub limit_to : ℤ → Query → Query
limit_to n q = record q { limit = n }

unfoldable pub offset_by : ℤ → Query → Query
offset_by n q = record q { offset = n }

-- The loop that writes each pattern on a line of its own.
unfoldable pub write_lines : String → List String → String
write_lines b [] = b
write_lines b (p ∷ ps) = write_lines ((b <> "\n") <> p) ps

-- A text, with the counter behind it.
abbrev pub Built : Type 0
Built = Result Panic (String × ℕ)

unfoldable pub build_match_clause : ModelInfo → Query → ℕ → Built
unfolding write_lines
build_match_clause info q n = all_patterns q.filters "e" n >>= λ r.
    ok (write_lines ("match\n$e isa " <> (info.type_name <> ";")) r.0, r.1)

abbrev pub sort_var : OrderClause → String
sort_var o = "$" <> sanitize_var ("e__" <> o.attr)

-- The two loops over the order clauses; the flag is `i > 0`.
unfoldable pub write_sort_has : String → List OrderClause → String
write_sort_has b [] = b
write_sort_has b (o ∷ os) =
    write_sort_has (b <> ("\n$e has " <> (o.attr <> (" " <> (sort_var o <> ";"))))) os

unfoldable pub write_sort_keys : Bool → String → List OrderClause → String
write_sort_keys later b [] = b
write_sort_keys later b (o ∷ os) =
    write_sort_keys true
      ((if later then b <> ", " else b) <> (sort_var o <> (if o.desc then " desc" else " asc"))) os

unfoldable pub write_sort : String → List OrderClause → String
unfolding write_sort_has write_sort_keys
write_sort b [] = b
write_sort b (o ∷ os) =
    write_sort_keys false (write_sort_has b (o ∷ os) <> "\nsort ") (o ∷ os) <> ";"

unfoldable pub write_count : String → String → ℤ → String
write_count b keyword n =
    if ltb_ℤ (pos 0) n then b <> ("\n" <> (keyword <> (" " <> (itoa n <> ";")))) else b

-- `buildQuery` behind its fetch clause.
unfoldable pub build_query : ModelInfo → String → Query → ℕ → Built
unfolding write_sort write_count build_match_clause
build_query info fetch q n = build_match_clause info q n >>= λ r. ok (
  write_count (write_count (write_sort r.0 q.order_by) "offset" q.offset) "limit" q.limit
      <> ("\n" <> fetch),
  r.1,
)

unfoldable pub build_count_query : ModelInfo → Query → ℕ → Built
unfolding build_match_clause
build_count_query info q n =
    build_match_clause info q n >>= λ r. ok (r.0 <> "\nreduce $count = count($e);", r.1)

unfoldable pub build_delete_query : ModelInfo → Query → ℕ → Built
unfolding build_match_clause
build_delete_query info q n = build_match_clause info q n >>= λ r. ok (r.0 <> "\ndelete $e;", r.1)

-- The rows' first count, zero where there is no row.
abbrev pub first_count : {Row : Type 0} → (Row → ℤ) → List Row → ℤ
first_count count_of [] = pos 0
first_count count_of (row ∷ more) = count_of row

module _ {W Tx Row : Type 0} (driver : Driver W Tx Row) (rows : RowReader Row)
    (info : ModelInfo) where
  unfoldable pub count : Query → ℕ → W → Result Panic ((Result String ℤ × W) × ℕ)
  count q n w = build_count_query info q n >>= λ r.
      let (answer, w₁) = execute_read driver r.0 w in
      let counted : Result String ℤ = elim answer [
        | err e ↦ err (context "count" info <> e)
        | ok found ↦ ok (first_count rows.count_of found)
      ] in
      ok ((counted, w₁), r.1)

  unfoldable pub exists : Query → ℕ → W → Result Panic ((Result String Bool × W) × ℕ)
  unfolding count
  exists q n w = count q n w >>= λ r.
      let found : Result String Bool = elim r.0.0 [ err e ↦ err e | ok c ↦ ok (ltb_ℤ (pos 0) c) ] in
      ok ((found, r.0.1), r.1)

  -- `Delete` and `Update` behind the building of their two queries: the matches are counted, then changed.
  unfoldable pub count_and_change : String → String → String → W → Result String ℤ × W
  count_and_change op count_query change_query w =
      let (opened, w₁) = driver.open_ write w in
      elim opened [
        | err e ↦ (err (context op info <> e), w₁)
        | ok tx ↦
            let (counts, w₂) = driver.query tx count_query w₁ in
            elim counts [
              | err e ↦ (err (context op info <> ("count: " <> e)), driver.close_ tx w₂)
              | ok found ↦
                  let (answer, w₃) = driver.query tx change_query w₂ in
                  elim answer [
                    | err e ↦ (err (context op info <> e), driver.close_ tx w₃)
                    | ok _ ↦
                        let (failed, w₄) = driver.commit tx w₃ in
                        elim failed [
                          | some e ↦
                              (err (context op info <> ("commit: " <> e)), driver.close_ tx w₄)
                          | none ↦ (ok (first_count rows.count_of found), driver.close_ tx w₄)
                        ]
                  ]
            ]
      ]

  unfoldable pub delete : Query → ℕ → W → Result Panic ((Result String ℤ × W) × ℕ)
  unfolding count_and_change
  delete q n w = build_count_query info q n >>= λ c.
      build_delete_query info q c.1 >>= λ d. ok (count_and_change "delete" c.0 d.0 w, d.1)
