-- ===== src/Gotype/Query/Aggregates.antt =====
-- gotype/query.go: the texts of the aggregate queries, single, several and grouped, and of a call of a
-- schema function.
mod Groups
mod Tests
use go_typeql.Base.{
  String, true, false, List, [], ◌∷◌, ◌++◌, map, ℕ, ◌+◌, pos, itoa, Option, none, some, ok, ◌>>=◌,
  ◌<>◌, ◌==◌, join, Dict, lookup, insert, if◌then◌else◌,
}
use go_typeql.Ast.Nodes.{GoValue}
use go_typeql.Ast.Literals.{format_go_value}
use go_typeql.Gotype.Models.{ModelInfo}
use go_typeql.Gotype.Filter.{Filters, all_patterns, attr_var, has_pattern, sanitize_var}
use go_typeql.Gotype.Query.{Query, Built}

pub record AggregateQuery : Type 0 where
  pub filters : Filters
  pub attr : String
  pub fn : String

abbrev aggregate_by : String → Query → String → AggregateQuery
aggregate_by fn q attr = record { filters = q.filters; attr = attr; fn = fn }

abbrev pub sum : Query → String → AggregateQuery
sum = aggregate_by "sum"

abbrev pub avg : Query → String → AggregateQuery
avg = aggregate_by "mean"

abbrev pub min : Query → String → AggregateQuery
min = aggregate_by "min"

abbrev pub max : Query → String → AggregateQuery
max = aggregate_by "max"

abbrev pub median : Query → String → AggregateQuery
median = aggregate_by "median"

abbrev pub std : Query → String → AggregateQuery
std = aggregate_by "std"

abbrev pub variance : Query → String → AggregateQuery
variance = aggregate_by "variance"

-- The match of an aggregate: the type, the patterns of the filters, and the attributes that are bound.
abbrev pub match_lines : ModelInfo → List String → List String → String
match_lines info patterns bound =
    "match\n" <> join "\n" (("$e isa " <> (info.type_name <> ";")) ∷ (patterns ++ bound))

-- The query that `Execute` sends.
unfoldable pub aggregate_text : ModelInfo → AggregateQuery → ℕ → Built
aggregate_text info aq n = all_patterns aq.filters "e" n >>= λ r. ok (
  match_lines info r.0 (has_pattern "e" aq.attr ∷ [])
      <> ("\nreduce $result = " <> (aq.fn <> ("($" <> (attr_var "e" aq.attr <> ");")))),
  r.1,
)

pub record AggregateSpec : Type 0 where
  pub attr : String
  pub fn : String

abbrev pub function_name : String → String
function_name fn = if fn == "avg" then "mean" else fn

abbrev pub assignment : String → String → String → String
assignment result fn var = "$" <> (result <> (" = " <> (fn <> ("($" <> (var <> ")")))))

assignments : ℕ → List AggregateSpec → List String
assignments i [] = []
assignments i (s ∷ ss) =
    assignment ("result" <> itoa (pos i)) (function_name s.fn) (attr_var "e" s.attr)
    ∷ assignments (i + 1) ss

-- The query that `Query.Aggregate` sends, for one spec or more.
unfoldable pub aggregates_text : ModelInfo → Query → List AggregateSpec → ℕ → Built
unfolding assignments
aggregates_text info q specs n = all_patterns q.filters "e" n >>= λ r. ok (
  match_lines info r.0 (map (λ s. has_pattern "e" (AggregateSpec.attr s)) specs)
      <> ("\nreduce " <> (join ", " (assignments 0 specs) <> ";")),
  r.1,
)

-- The loop that binds the attributes of the specs: the lines that it has added, and the variable of each
-- attribute.
unfoldable pub bind_attrs :
    String → List AggregateSpec → List String → Dict String → List String × Dict String
bind_attrs group_by [] lines vars = (lines, vars)
bind_attrs group_by (s ∷ ss) lines vars = elim (s.attr == group_by) [
  | true ↦ bind_attrs group_by ss lines (insert s.attr (attr_var "e" group_by) vars)
  | false ↦ elim (lookup s.attr vars) [
    | some v ↦ bind_attrs group_by ss lines vars
    | none ↦
        bind_attrs group_by ss (lines ++ has_pattern "e" s.attr ∷ [])
          (insert s.attr (attr_var "e" s.attr) vars)
  ]
]

-- What is read of a map of strings where the key is missing.
abbrev pub or_empty : Option String → String
or_empty none = ""
or_empty (some v) = v

abbrev pub result_key : AggregateSpec → String
result_key s = s.fn <> ("_" <> s.attr)

abbrev pub group_reduce : Dict String → AggregateSpec → String
group_reduce vars s = assignment (sanitize_var (result_key s)) s.fn (or_empty (lookup s.attr vars))

-- The query that `GroupByQuery.Aggregate` sends, for one spec or more.
unfoldable pub group_text : ModelInfo → Filters → String → List AggregateSpec → ℕ → Built
unfolding bind_attrs
group_text info filters group_by specs n = all_patterns filters "e" n >>= λ r.
    let (lines, vars) = bind_attrs group_by specs (has_pattern "e" group_by ∷ []) [] in
    ok (
      match_lines info r.0 lines
          <> ("\nreduce "
              <> (join ", " (map (group_reduce vars) specs)
                  <> (", group $" <> (attr_var "e" group_by <> ";")))),
      r.1,
    )

pub record FunctionQuery : Type 0 where
  pub func_name : String
  pub args : List String

abbrev pub new_function_query : String → FunctionQuery
new_function_query func_name = record { func_name = func_name; args = [] }

unfoldable pub arg : GoValue → FunctionQuery → FunctionQuery
arg value fq = record fq { args = fq.args ++ format_go_value value ∷ [] }

unfoldable pub arg_raw : String → FunctionQuery → FunctionQuery
arg_raw expr fq = record fq { args = fq.args ++ expr ∷ [] }

unfoldable pub build_function_query : FunctionQuery → String
build_function_query fq =
    "let $result = " <> (fq.func_name <> ("(" <> (join ", " fq.args <> ");\nreturn $result;")))
