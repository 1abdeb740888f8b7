-- ===== src/Ast/Fluent/Stages/Shortcuts.antt =====
-- ast/fluent.go: `UpdateAttribute`, `DeleteArtifact` and `PaginatedSearch`.
use go_typeql.Base.{
  String, List, [], ◌∷◌, map, Option, none, some, ℤ, pos, ltb_ℤ, ◌<>◌, ◌==◌, <>_assoc, nil-<>,
  <>-nil, join, separated, map_result, if◌then◌else◌, ok, ◌>>=◌, ◌≡◌, refl, Result-cases, inl, inr,
  eqb, code,
}
use go_typeql.Ast.Nodes.{Pattern}
use go_typeql.Ast.Clauses.{FetchItem, SortClause}
use go_typeql.Ast.Compiler.{
  Compiled, compile_batch, write_batch, compile, compile_clause, compile_value, compile_pattern,
  compile_statement, compile_stmt_block, compile_entity_pattern, join_compiled, write_compiled,
  write_constraints,
}
use go_typeql.Ast.Builders.{Argument, value_from_go, or_pattern, entity}
use go_typeql.Ast.Fluent.{build, fluent_match, blank, ensure_var}
use go_typeql.Ast.Fluent.Stages.{Matcher, set_attribute, match_by_identifier, delete_thing, old_var}

unfoldable pub update_attribute : String → String → String → Argument → Compiled
update_attribute var_name type_name attr_name v =
    build (set_attribute attr_name v (fluent_match var_name type_name))

pub record DeleteArtifactOptions : Type 0 where
  pub var_name : String
  pub id_attr : String
  pub matcher : Matcher

abbrev or_default : String → String → String
or_default s default = if s == "" then default else s

unfoldable pub delete_artifact_with_options : String → String → DeleteArtifactOptions → Compiled
delete_artifact_with_options identifier type_name opts =
    let var_name = or_default opts.var_name "n" in
    let id_attr = or_default opts.id_attr "display_id" in
    build (
      delete_thing
        (match_by_identifier identifier id_attr opts.matcher (fluent_match var_name type_name)))

unfoldable pub delete_artifact : String → String → Compiled
unfolding delete_artifact_with_options
delete_artifact identifier type_name =
    delete_artifact_with_options identifier type_name
      (record { var_name = ""; id_attr = ""; matcher = none })

pub record PaginatedSearchOptions : Type 0 where
  pub var_name : String
  pub limit : ℤ
  pub offset : ℤ
  pub sort : String
  pub fetch_iid_key : String
  pub fetch_entity_key : String

-- One type is matched alone, several as alternatives.
pub search_patterns : String → List String → List Pattern
search_patterns v [] = []
search_patterns v (t ∷ []) = Pattern.entity (entity v t []) ∷ []
search_patterns v (t ∷ u ∷ types) =
    or_pattern (map (λ t'. Pattern.entity (entity v t' []) ∷ []) (t ∷ u ∷ types)) ∷ []

-- A dash in front asks for the descending order.
pub search_sort : String → String → Option SortClause
search_sort v String.[] = none
search_sort v (String.◌∷◌ c rest) =
    if eqb (code c) b'-'
    then some (record { variable = ensure_var (v <> ("." <> rest)); direction = "desc" })
    else some
        (record { variable = ensure_var (v <> ("." <> String.◌∷◌ c rest)); direction = "asc" })

pub count_if_positive : ℤ → Option ℤ
count_if_positive n = if ltb_ℤ (pos 0) n then some n else none

unfoldable pub paginated_search : List String → PaginatedSearchOptions → Compiled
unfolding search_patterns search_sort count_if_positive
paginated_search types opts =
    let v = ensure_var (or_default opts.var_name "n") in
    build (record (blank v (search_patterns v types)) {
      sort_clause = search_sort v opts.sort;
      offset_clause = count_if_positive opts.offset;
      limit_clause = count_if_positive opts.limit;
      fetch_items =
          FetchItem.function (or_default opts.fetch_iid_key "_iid") "iid" v
          ∷ FetchItem.wildcard (or_default opts.fetch_entity_key "entity") v
          ∷ [];
    })

-- UpdateAttribute matches the thing and its old value, deletes that value and inserts the new one: the
-- text is this, whatever the names and the value, and all three parts speak of the same variable.
pub update_attribute-eq :
    (var_name type_name attr_name : String) (v : Argument)
    → update_attribute var_name type_name attr_name v
      ≡ compile_value (value_from_go v) >>= λ literal.
          let x = ensure_var var_name in
          let old = old_var attr_name in
          ok (
            join "\n" (
              ("match\n"
                <> (x
                    <> (" "
                        <> ("isa"
                            <> (" "
                                <> (type_name
                                    <> (";\n"
                                        <> (x
                                            <> (" has "
                                                <> (attr_name <> (" " <> (old <> ";"))))))))))))
              ∷ ("delete" <> ("\n" <> (old <> (" of " <> (x <> ";")))))
              ∷ ("insert" <> ("\n" <> (x <> (" has " <> (attr_name <> (" " <> (literal <> ";")))))))
              ∷ []))
unfolding update_attribute set_attribute fluent_match build compile_batch write_batch compile
    compile_clause compile_pattern compile_statement compile_stmt_block compile_entity_pattern
    join_compiled write_compiled write_constraints join separated map_result
update_attribute-eq var_name type_name attr_name v =
    elim (Result-cases (compile_value (value_from_go v))) [
      | inl (literal, e) ↦ rw e (simp (<>_assoc, nil-<>, <>-nil))
      | inr (failed, e) ↦ rw e refl
    ]
