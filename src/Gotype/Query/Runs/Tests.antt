-- ===== src/Gotype/Query/Runs/Tests.antt =====
-- Runs of the calls of gotype/query.go on a driver whose fetch finds one person.
use go_typeql.Base.{true, String, false, [], ◌∷◌, pos, none, ok, ◌≡◌, refl, join, itoa}
use go_typeql.Ast.Nodes.{str, int}
use go_typeql.Ast.Escape.{escape_string}
use go_typeql.Ast.Literals.{format_go_value}
use go_typeql.Ast.Compiler.{
  CompileError, compile, compile_clause, compile_fetch_item, join_compiled,
}
use go_typeql.Ast.Builders.{plain}
use go_typeql.Gotype.Tags.{empty_tag}
use go_typeql.Gotype.Session.{Driver, write}
use go_typeql.Gotype.Session.Trace.{tracing, opens, queries, commits, closes}
use go_typeql.Gotype.Models.{ModelInfo, Instance, entity_kind, value, nil_player, single_value}
use go_typeql.Gotype.Models.Strategy.{build_fetch_all}
use go_typeql.Gotype.Manager.{RowReader, Manager, finish, update_text, update_instance_in_tx}
use go_typeql.Gotype.Manager.Writes.{each_instance}
use go_typeql.Gotype.Manager.Reads.{hydrate_results}
use go_typeql.Gotype.Filter.{to_patterns}
use go_typeql.Gotype.Query.{new_query, build_query, build_match_clause, write_sort, write_count}
use go_typeql.Gotype.Query.Runs.{
  built, change_text, update_with, update_built, update_found, persist,
}

abbrev echo : Driver Unit Unit String
echo = record {
  cancelled = λ w. none;
  open_ = λ t w. (ok tt, w);
  query = λ tx q w. (ok ("0x1" ∷ []), w);
  commit = λ tx w. (none, w);
  close_ = λ tx w. w;
}

abbrev person : ModelInfo
person = record {
  kind = entity_kind;
  type_name = "person";
  fields =
      record {
        tag = record empty_tag { name = "name" };
        field_name = "Name";
        field_index = 1;
        is_slice = false;
      }
      ∷ [];
  roles = [];
  key_fields = [];
}

abbrev named : String → String → Instance
named i name = record {
  iid = i;
  field = λ k. value (plain (str name));
  player_of = λ k. nil_player;
}

abbrev reader : RowReader String
reader = record {
  iid_of = λ row. row;
  count_of = λ row. pos 1;
  hydrate = λ row. ok (named row "Ada");
}

abbrev manager : Manager Unit
manager = record { info = person; tx = none }

abbrev explain : CompileError → String
explain e = "compile"

abbrev rename : Instance → Instance
rename x = named x.iid "Eve"

changed_text :
    change_text "match\n$e isa person;" (("name", str "Eve") ∷ ("age", int (pos 3)) ∷ [])
    ≡ join "\n" (
        "match" ∷ "$e isa person;" ∷ "try { $e has name $old0; };" ∷ "try { $e has age $old1; };"
        ∷ "delete" ∷ "try { $old0 of $e; };" ∷ "try { $old1 of $e; };"
        ∷ "insert $e has name \"Eve\", has age 3;" ∷ [])
unfolding change_text join itoa format_go_value escape_string
changed_text = refl

abbrev fetch_text : String
fetch_text = "match\n$e isa person;\nfetch {\n  \"_iid\": iid($e),\n  \"name\": $e.name\n};"

-- The fetch, the update of what was found, and the commit go through one transaction.
update_with_log :
    update_with (tracing echo) reader explain manager rename new_query 4 ([], tt)
    ≡ ok (
      (
        ok (named "0x1" "Eve" ∷ []),
        (
          opens write true
              ∷ queries fetch_text true
              ∷ queries
                  (join "\n" (
                    "match\n$e isa person, iid 0x1;" ∷ "try { $e has name $old0; };" ∷ "delete"
                    ∷ "try { $old0 of $e; };" ∷ "insert $e has name \"Eve\";" ∷ []))
                  true
              ∷ commits true
              ∷ closes
              ∷ [],
          tt,
        ),
      ),
      4,
    )
unfolding update_with update_built update_found persist built build_query build_match_clause
    write_sort write_count build_fetch_all compile compile_clause compile_fetch_item join_compiled
    join each_instance update_instance_in_tx update_text single_value format_go_value escape_string
    itoa finish hydrate_results to_patterns
update_with_log = refl
