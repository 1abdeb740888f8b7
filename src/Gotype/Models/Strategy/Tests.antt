-- ===== src/Gotype/Models/Strategy/Tests.antt =====
-- Runs of gotype/strategy.go on a registered entity and a relation.
use go_typeql.Base.{
  String, true, false, [], ◌∷◌, ℕ, zero, suc, pos, ok, ◌≡◌, refl, join, itoa, map_result,
}
use go_typeql.Ast.Nodes.{str, int}
use go_typeql.Ast.Escape.{escape_string}
use go_typeql.Ast.Literals.{format_literal, format_go_value}
use go_typeql.Ast.Compiler.{
  compile, compile_clause, compile_stmt_block, compile_statement, compile_value, compile_fetch_item,
  compile_pattern, compile_entity_pattern, compile_constraint, join_compiled,
}
use go_typeql.Ast.Builders.{plain, value_from_go}
use go_typeql.Gotype.Tags.{empty_tag}
use go_typeql.Gotype.Models.{
  ModelInfo, FieldInfo, Held, Instance, Player, entity_kind, relation_kind, nil_pointer, pointer,
  value, slice, nil_player, unregistered, player, field_values, single_value,
}
use go_typeql.Gotype.Models.Strategy.{
  build_insert_query, build_put_query, build_match_by_key, build_fetch_all, entity_insert_or_put,
  entity_match_by_key, relation_insert_or_put,
}
use go_typeql.Gotype.Models.Strategy.Texts.{Written, build_insert_query-put}

abbrev field : String → ℕ → FieldInfo
field name i = record {
  tag = record empty_tag { name = name };
  field_name = name;
  field_index = i;
  is_slice = false;
}

abbrev person : ModelInfo
person = record {
  kind = entity_kind;
  type_name = "person";
  fields = field "name" 1 ∷ record (field "tag" 2) { is_slice = true } ∷ field "age" 3 ∷ [];
  roles = [];
  key_fields = field "name" 1 ∷ [];
}

abbrev ada_field : ℕ → Held
ada_field zero = nil_pointer
ada_field (suc zero) = value (plain (str "Ada"))
ada_field (suc (suc zero)) = slice "[a b]" (plain (str "a") ∷ plain (str "b") ∷ [])
ada_field (suc (suc (suc i))) = nil_pointer

abbrev ada : Instance
ada = record { iid = ""; field = ada_field; player_of = λ i. nil_player }

abbrev employment : ModelInfo
employment = record {
  kind = relation_kind;
  type_name = "employment";
  fields = field "since" 3 ∷ [];
  roles =
      record {
        role_name = "employee";
        field_name = "Employee";
        field_index = 1;
        player_type_name = "person";
      }
      ∷ record {
        role_name = "employer";
        field_name = "Employer";
        field_index = 2;
        player_type_name = "company";
      }
      ∷ [];
  key_fields = [];
}

abbrev employed_player : ℕ → Player
employed_player zero = nil_player
employed_player (suc zero) = player person "" ada_field
employed_player (suc (suc i)) = unregistered

abbrev employed : Instance
employed = record {
  iid = "";
  field = λ i. pointer (plain (int (pos 7)));
  player_of = employed_player;
}

queries :
    (build_put_query person ada "e"
      ≡ ok "put\n$e isa person;\n$e has name \"Ada\";\n$e has tag \"a\";\n$e has tag \"b\";")
    × (build_match_by_key person ada "e" ≡ ok "match\n$e isa person, has name \"Ada\";")
    × (build_fetch_all person "e"
        ≡ ok
            "fetch {\n  \"_iid\": iid($e),\n  \"name\": $e.name,\n  \"tag\": [$e.tag],\n  \"age\": $e.age\n};")
    × (build_put_query employment employed "e"
        ≡ ok (
            join "\n" (
              "match\n$employee isa person, has name \"Ada\";"
              ∷ "put\n$e isa employment, links (employee: $employee)," ∷ "has since 7;" ∷ [])))
unfolding build_put_query build_match_by_key build_fetch_all field_values single_value value_from_go
    compile compile_clause compile_stmt_block compile_statement compile_value compile_fetch_item
    compile_pattern compile_entity_pattern compile_constraint join_compiled format_literal
    format_go_value escape_string join itoa map_result entity_insert_or_put entity_match_by_key
    relation_insert_or_put
queries = (refl, refl, refl, refl)

build_insert_query-put_example :
    Written "e"
      (build_put_query employment employed "e")
      (build_insert_query employment employed "e")
build_insert_query-put_example = build_insert_query-put employment employed "e"
