-- ===== src/Gotype/Query/Aggregates/Tests.antt =====
-- Runs of the aggregate queries of gotype/query.go.
use go_typeql.Base.{
  String, true, List, [], ◌∷◌, map, ok, ◌>>=◌, ◌<>◌, ◌≡◌, refl, join, itoa, lookup, insert, All,
  Distinct, contains, pos,
}
use go_typeql.Ast.Nodes.{str, int}
use go_typeql.Ast.Escape.{replace_all, escape_string}
use go_typeql.Ast.Literals.{format_go_value}
use go_typeql.Gotype.Models.{ModelInfo, entity_kind}
use go_typeql.Gotype.Filter.{to_patterns, attr_var, no_filters, all_patterns, has_pattern}
use go_typeql.Gotype.Query.{new_query}
use go_typeql.Gotype.Query.Aggregates.{
  AggregateSpec, match_lines, avg, aggregate_text, aggregates_text, bind_attrs, group_text,
  new_function_query, arg, arg_raw, build_function_query,
}
use go_typeql.Gotype.Query.Aggregates.Groups.{bound_reduce, group_text-bound}

abbrev person : ModelInfo
person = record {
  kind = entity_kind;
  type_name = "person";
  fields = [];
  roles = [];
  key_fields = [];
}

abbrev specs : List AggregateSpec
specs =
    record { attr = "age"; fn = "avg" }
    ∷ record { attr = "age"; fn = "max" }
    ∷ record { attr = "home-city"; fn = "count" }
    ∷ []

average :
    aggregate_text person (avg new_query "age") 2
    ≡ ok ("match\n$e isa person;\n$e has age $e__age;\nreduce $result = mean($e__age);", 2)
unfolding aggregate_text join to_patterns replace_all
average = refl

-- Several aggregates translate `avg`.
several :
    aggregates_text person new_query specs 2
    ≡ ok (
      join "\n" (
          "match" ∷ "$e isa person;" ∷ "$e has age $e__age;" ∷ "$e has age $e__age;"
          ∷ "$e has home-city $e__home_city;"
          ∷ "reduce $result0 = mean($e__age), $result1 = max($e__age), $result2 = count($e__home_city);"
          ∷ []),
      2,
    )
unfolding aggregates_text join itoa to_patterns replace_all
several = refl

-- Grouped ones do not.
grouped :
    group_text person no_filters "home-city" specs 2
    ≡ ok (
      join "\n" (
          "match" ∷ "$e isa person;" ∷ "$e has home-city $e__home_city;" ∷ "$e has age $e__age;"
          ∷ "reduce $avg_age = avg($e__age), $max_age = max($e__age), $count_home_city = count($e__home_city), group $e__home_city;"
          ∷ []),
      2,
    )
unfolding group_text bind_attrs join lookup insert to_patterns replace_all
grouped = refl

call_text :
    build_function_query
      (arg_raw "$x" (arg (str "Ada") (arg (int (pos 3)) (new_function_query "near"))))
    ≡ "let $result = near(3, \"Ada\", $x);\nreturn $result;"
unfolding build_function_query arg arg_raw join itoa format_go_value escape_string
call_text = refl

group_text-bound_example :
    (names : List String) × Distinct names
    × (contains names "home-city" ≡ true)
    × All (λ s. contains names (AggregateSpec.attr s) ≡ true) specs
    × ((k : String)
        → contains names k ≡ true
        → contains ("home-city" ∷ map (λ s. AggregateSpec.attr s) specs) k ≡ true)
    × (group_text person no_filters "home-city" specs 2
        ≡ all_patterns no_filters "e" 2 >>= λ r. ok (
          match_lines person r.0 (map (has_pattern "e") names)
              <> ("\nreduce "
                  <> (join ", " (map bound_reduce specs)
                      <> (", group $" <> (attr_var "e" "home-city" <> ";")))),
          r.1,
        ))
group_text-bound_example = group_text-bound person no_filters "home-city" specs 2
