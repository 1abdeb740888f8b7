-- ===== src/Ast/Compiler/Statements.antt =====
-- The statements of ast/compiler.go.
use go_typeql.Base.{
  String, List, [], ◌∷◌, ◌<>◌, map, if◌then◌else◌, ok, err, ◌>>=◌, join, map_result,
}
use go_typeql.Ast.Nodes.{
  Statement, HasStatement, RelationStatement, RolePlayer, raw, has, isa, relation, delete_thing,
  delete_has,
}
use go_typeql.Ast.Compiler.Values.{Compiled, unknown_statement, compile_value}

unfoldable pub role_part : RolePlayer → String
role_part rp = rp.role <> (": " <> rp.player_var)

unfoldable pub attribute_part : HasStatement → Compiled
attribute_part a = compile_value a.value >>= λ s. ok ("has " <> (a.attr_name <> (" " <> s)))

unfoldable pub relation_base : RelationStatement → String
unfolding role_part
relation_base s =
    let roles = "(" <> (join ", " (map role_part s.role_players) <> ")") in
    if s.include_variable
    then s.variable <> (" isa " <> (s.type_name <> (", links " <> roles)))
    else roles <> (" isa " <> s.type_name)

unfoldable pub with_attributes : String → List HasStatement → Compiled
unfolding attribute_part
with_attributes base [] = ok base
with_attributes base (a ∷ as_) =
    map_result attribute_part (a ∷ as_) >>= λ parts. ok (base <> (", " <> join ", " parts))

unfoldable pub compile_statement : Statement → Compiled
unfolding relation_base with_attributes map_result
compile_statement (has s) =
    compile_value s.value >>= λ v. ok (s.subject_var <> (" has " <> (s.attr_name <> (" " <> v))))
compile_statement (isa s) = ok (s.variable <> (" isa " <> s.type_name))
compile_statement (relation s) = with_attributes (relation_base s) s.attributes
compile_statement (delete_thing v) = ok v
compile_statement (delete_has s) = ok (s.attr_var <> (" of " <> s.owner_var))
compile_statement (raw s) = ok s
compile_statement Statement.unknown = err unknown_statement
