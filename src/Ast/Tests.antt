-- ===== src/Ast/Tests.antt =====
-- Runs of ast/compiler.go on concrete queries.
use go_typeql.Base.{
  false, true, List, [], ◌∷◌, ◌<>◌, some, ok, err, ◌>>=◌, is_ok, join, map_result, ◌≡◌, refl, pos,
  itoa,
}
use go_typeql.Ast.Escape.{
  escape_string, escape_each, read_literal, escape_string-eq-escape_each,
  read_literal-escape_string,
}
use go_typeql.Ast.Nodes.{
  Operand, Constraint, Pattern, Statement, EntityPattern, RelationPattern, str, pointer, literal,
}
use go_typeql.Ast.Clauses.{Clause, QueryNode, ReduceAssignment}
use go_typeql.Ast.Literals.{format_literal, format_go_value}
use go_typeql.Ast.Literals.ReadBack.{read_quoted, read_quoted-format_go_value, string_behind}
use go_typeql.Ast.Compiler.{
  compile, compile_batch, compile_clause, compile_entity_pattern, compile_relation_pattern,
  compile_constraint, unexpected_operand, compile_value, compile_operand, compile_reduce_clause,
  compile_reduce_assignment, relation_head, link_roles, regular_roles,
}
use go_typeql.Ast.Joins.{compile_batch-join, compile_entity_pattern-join}
use go_typeql.Ast.Known.{known_node}
use go_typeql.Ast.Known.Total.{is_ok-compile}
use go_typeql.Ast.Relations.{compile_relation_pattern-join}

-- $p isa person, has name "Al\"x"
abbrev person : EntityPattern
person = record {
  variable = "$p";
  type_name = "person";
  constraints =
      Constraint.has "name" (Operand.value (literal (str "Al\"x") "string"))
      ∷ Constraint.iid "0x1"
      ∷ [];
  is_strict = true;
}

person_text : compile_entity_pattern person ≡ ok "$p isa! person, has name \"Al\\\"x\", iid 0x1"
unfolding compile_entity_pattern compile_constraint compile_value format_literal escape_string
person_text = refl

-- A relation pattern with nothing but a bare link.
abbrev bare_link : RelationPattern
bare_link = record {
  variable = "";
  type_name = "";
  is_strict = false;
  role_players = record { role = "links"; player_var = "$x" } ∷ [];
  constraints = Constraint.iid "0x2" ∷ [];
}

bare_link_text : compile_relation_pattern bare_link ≡ ok "links ($x), iid 0x2"
unfolding compile_relation_pattern compile_constraint
bare_link_text = refl

-- An aggregate is no value: as the expression of a reduce assignment it is refused.
abbrev counted : ReduceAssignment
counted = record {
  variable = "$n";
  expression = Operand.aggregate (record { func_name = "count"; var = "$p"; attr_name = "" });
}

aggregate_refused :
    compile
      (QueryNode.clause (Clause.reduce (record { assignments = counted ∷ []; group_by = "" })))
    ≡ err unexpected_operand
unfolding compile compile_clause compile_reduce_clause compile_reduce_assignment compile_operand
    map_result
aggregate_refused = refl

offset_text : compile (QueryNode.clause (Clause.offset (pos 20))) ≡ ok "offset 20;"
unfolding compile compile_clause itoa
offset_text = refl

escape_string-eq-escape_each_example : escape_string "a\\\n" ≡ escape_each "a\\\n"
escape_string-eq-escape_each_example = escape_string-eq-escape_each "a\\\n"

read_literal-escape_string_example :
    read_literal false (escape_string "x\"; delete $p;" <> ("\"" <> ";"))
    ≡ some ("x\"; delete $p;", ";")
read_literal-escape_string_example = read_literal-escape_string "x\"; delete $p;" ";"

read_quoted-format_go_value_example :
    (format_go_value (pointer "0xc0" (str "t\t")) ≡ format_literal (str "t\t") "string")
    × (read_quoted (format_go_value (pointer "0xc0" (str "t\t")) <> ", has")
        ≡ some ("t\t", ", has"))
unfolding string_behind
read_quoted-format_go_value_example =
    read_quoted-format_go_value (pointer "0xc0" (str "t\t")) "t\t" ", has" refl

abbrev two_nodes : List QueryNode
two_nodes = QueryNode.pattern_ (Pattern.raw "a") ∷ QueryNode.pattern_ (Pattern.raw "b") ∷ []

compile_batch-join_example :
    compile_batch two_nodes "" ≡ map_result compile two_nodes >>= λ ss. ok (join "\n" ss)
compile_batch-join_example = compile_batch-join two_nodes ""

compile_entity_pattern-join_example :
    compile_entity_pattern person
    ≡ map_result compile_constraint person.constraints >>= λ ss.
        ok (join ", " ("$p isa! person" ∷ ss))
compile_entity_pattern-join_example = compile_entity_pattern-join person

is_ok-compile_example :
    is_ok (compile (QueryNode.statement Statement.unknown))
    ≡ known_node (QueryNode.statement Statement.unknown)
is_ok-compile_example = is_ok-compile (QueryNode.statement Statement.unknown)

compile_relation_pattern-join_example :
    compile_relation_pattern bare_link
    ≡ map_result compile_constraint bare_link.constraints >>= λ ss.
        ok (join ", " ("links ($x)" ∷ ss))
unfolding relation_head link_roles regular_roles
compile_relation_pattern-join_example = compile_relation_pattern-join bare_link
