-- ===== src/Ast/Fluent/Stages/Tests.antt =====
-- Runs of ast/builders.go and ast/fluent.go on concrete calls.
use go_typeql.Base.{
  true, List, [], ◌∷◌, ◌++◌, pos, ok, is_ok, ◌≡◌, refl, join, itoa, map_result, has_prefix, ◌<>◌,
  ◌>>=◌,
}
use go_typeql.Ast.Nodes.{str, int}
use go_typeql.Ast.Clauses.{FetchItem}
use go_typeql.Ast.Compiler.{
  compile, compile_batch, compile_clause, compile_pattern, compile_entity_pattern,
  compile_constraint, compile_value, compile_statement, compile_stmt_block, compile_fetch_item,
  join_compiled,
}
use go_typeql.Ast.Literals.{format_literal}
use go_typeql.Ast.Escape.{escape_string}
use go_typeql.Ast.Builders.{plain, fetch_attr_path, value_from_go}
use go_typeql.Ast.Fluent.{
  build, fluent_match, ensure_var, sanitize_identifier, add_pattern_constraint,
}
use go_typeql.Ast.Fluent.Stages.{
  OutputCall, MatchCall, has, set, delete_thing_, fetch_, select_, limit_, run_match, run_output,
  old_var, set_attribute, delete_thing, match_by_identifier,
}
use go_typeql.Ast.Fluent.Stages.Output.{
  fetched, selected, last_sort, last_limit, last_offset, run_output-eq,
}
use go_typeql.Ast.Fluent.Stages.Compiles.{call_known, is_ok-fluent_match}
use go_typeql.Ast.Fluent.Stages.Shortcuts.{
  update_attribute, delete_artifact, paginated_search, update_attribute-eq,
}

path_of_two : fetch_attr_path "n" "$p.name" ≡ FetchItem.attribute "n" "$p" "name"
unfolding fetch_attr_path
path_of_two = refl

path_of_three : fetch_attr_path "n" "$p.a.b" ≡ FetchItem.attribute "n" "$p.a.b" ""
unfolding fetch_attr_path
path_of_three = refl

-- UpdateAttribute, DeleteArtifact by IID and by attribute, and PaginatedSearch.
queries :
    (update_attribute "p" "person" "full-name" (plain (str "A"))
      ≡ ok (
          join "\n" (
            "match\n$p isa person;" ∷ "$p has full-name $old_full_name;"
            ∷ "delete\n$old_full_name of $p;" ∷ "insert\n$p has full-name \"A\";" ∷ [])))
    × (delete_artifact "0x12" "doc" ≡ ok "match\n$n isa doc, iid 0x12;\ndelete\n$n;")
    × (delete_artifact "D-1" "doc" ≡ ok "match\n$n isa doc, has display_id \"D-1\";\ndelete\n$n;")
    × (paginated_search ("a" ∷ "b" ∷ []) (record {
      var_name = "";
      limit = pos 5;
      offset = pos 0;
      sort = "-name";
      fetch_iid_key = "";
      fetch_entity_key = "";
    })
        ≡ ok (
            join "\n" (
              "match\n{ $n isa a; } or { $n isa b; };"
              ∷ "fetch {\n  \"_iid\": iid($n),\n  \"entity\": $n.*\n};"
              ∷ "sort $n.name desc;\nlimit 5;" ∷ [])))
unfolding update_attribute delete_artifact paginated_search set_attribute delete_thing
    match_by_identifier add_pattern_constraint fluent_match ensure_var sanitize_identifier
    value_from_go has_prefix build compile_batch compile compile_clause compile_pattern
    compile_entity_pattern compile_constraint compile_value compile_statement compile_stmt_block
    compile_fetch_item join_compiled format_literal escape_string join itoa map_result
queries = (refl, refl, refl, refl)

abbrev calls : List OutputCall
calls = limit_ (pos 2) ∷ fetch_ "p" ("name" ∷ []) ∷ limit_ (pos 3) ∷ select_ ("p" ∷ []) ∷ []

abbrev changes : List MatchCall
changes = has "age" (plain (int (pos 3))) ∷ set "name" (plain (str "B")) ∷ delete_thing_ ∷ []

run_output-eq_example :
    run_output calls (fluent_match "p" "person") ≡ record (fluent_match "p" "person") {
      fetch_items = (fluent_match "p" "person").fetch_items ++ fetched calls;
      select_vars = (fluent_match "p" "person").select_vars ++ selected calls;
      sort_clause = last_sort (fluent_match "p" "person").sort_clause calls;
      offset_clause = last_offset (fluent_match "p" "person").offset_clause calls;
      limit_clause = last_limit (fluent_match "p" "person").limit_clause calls;
    }
run_output-eq_example = run_output-eq calls (fluent_match "p" "person")

is_ok-fluent_match_example :
    is_ok (build (run_output calls (run_match changes (fluent_match "p" "person")))) ≡ true
unfolding call_known
is_ok-fluent_match_example = is_ok-fluent_match "p" "person" changes calls refl

update_attribute-eq_example :
    update_attribute "p" "person" "name" (plain (str "B"))
    ≡ compile_value (value_from_go (plain (str "B"))) >>= λ literal.
        let x = ensure_var "p" in
        let old = old_var "name" in
        ok (
          join "\n" (
            ("match\n"
              <> (x
                  <> (" "
                      <> ("isa"
                          <> (" "
                              <> ("person"
                                  <> (";\n"
                                      <> (x
                                          <> (" has " <> ("name" <> (" " <> (old <> ";"))))))))))))
            ∷ ("delete" <> ("\n" <> (old <> (" of " <> (x <> ";")))))
            ∷ ("insert" <> ("\n" <> (x <> (" has " <> ("name" <> (" " <> (literal <> ";")))))))
            ∷ []))
update_attribute-eq_example = update_attribute-eq "p" "person" "name" (plain (str "B"))
