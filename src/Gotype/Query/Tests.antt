-- ===== src/Gotype/Query/Tests.antt =====
-- Runs of gotype/query.go on a query with a filter, an order and a limit.
use go_typeql.Base.{true, false, [], ◌∷◌, ◌++◌, pos, ok, ◌>>=◌, ◌≡◌, refl, join, replace_text, itoa}
use go_typeql.Ast.Nodes.{str}
use go_typeql.Ast.Escape.{replace_all, escape_string}
use go_typeql.Ast.Literals.{format_go_value}
use go_typeql.Gotype.Models.{ModelInfo, entity_kind}
use go_typeql.Gotype.Filter.{comparison, no_filters, filter_, to_patterns, all_patterns}
use go_typeql.Gotype.Filter.Constructors.{eq, append_filters}
use go_typeql.Gotype.Query.{
  Query, new_query, filter_by, order_asc, order_desc, limit_to, build_query, build_match_clause,
  write_sort, write_sort_has, write_sort_keys, write_count,
}
use go_typeql.Gotype.Query.Text.{tail_lines, build_query-join}

abbrev person : ModelInfo
person = record {
  kind = entity_kind;
  type_name = "person";
  fields = [];
  roles = [];
  key_fields = [];
}

abbrev oldest : Query
oldest = record {
  filters =
      filter_ (comparison (record { attr = "name"; op = "=="; value = str "Ada"; negated = false }))
        no_filters;
  order_by =
      record { attr = "age"; desc = true } ∷ record { attr = "birth-date"; desc = false } ∷ [];
  limit = pos 5;
  offset = pos 0;
}

chained :
    limit_to (pos 5) (
      order_asc "birth-date"
        (order_desc "age" (filter_by (filter_ (eq "name" (str "Ada")) no_filters) new_query)))
    ≡ oldest
unfolding limit_to order_asc order_desc filter_by append_filters eq
chained = refl

oldest_text :
    build_query person "fetch {};" oldest 0
    ≡ ok (
      join "\n" (
          "match" ∷ "$e isa person;" ∷ "$e has name $e__name;" ∷ "$e__name == \"Ada\";"
          ∷ "$e has age $e__age;" ∷ "$e has birth-date $e__birth_date;"
          ∷ "sort $e__age desc, $e__birth_date asc;" ∷ "limit 5;" ∷ "fetch {};" ∷ []),
      0,
    )
unfolding build_query build_match_clause write_sort write_sort_has write_sort_keys write_count
    to_patterns eq join replace_text replace_all itoa format_go_value escape_string
oldest_text = refl

build_query-join_example :
    build_query person "fetch {};" oldest 0
    ≡ all_patterns oldest.filters "e" 0 >>= λ r.
        ok (join "\n" ("match" ∷ ("$e isa person;") ∷ (r.0 ++ tail_lines oldest "fetch {};")), r.1)
build_query-join_example = build_query-join person "fetch {};" oldest 0
