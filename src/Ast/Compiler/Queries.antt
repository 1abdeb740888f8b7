-- ===== src/Ast/Compiler/Queries.antt =====
-- The clauses and fetch items of ast/compiler.go, and `Compile` and `CompileBatch`.
use go_typeql.Base.{
  String, Bool, true, false, List, [], ◌∷◌, ◌++◌, ◌<>◌, ◌==◌, if◌then◌else◌, ok, err, ◌>>=◌, join,
  map_result, itoa,
}
use go_typeql.Ast.Nodes.{Statement}
use go_typeql.Ast.Clauses.{
  Clause, FetchItem, LetAssignment, MatchLetClause, ReduceAssignment, ReduceClause, QueryNode,
  match_, match_let, insert, delete, update, put, select, sort, offset, limit, fetch, reduce,
  clause, pattern_, statement, constraint, value, raw, attribute, variable, attribute_list,
  function, wildcard, nested_wildcard,
}
use go_typeql.Ast.Compiler.Values.{
  Compiled, unknown_node, unknown_clause, unknown_fetch_item, compile_value, compile_operand,
  compile_constraint, join_compiled,
}
use go_typeql.Ast.Compiler.Patterns.{compile_pattern}
use go_typeql.Ast.Compiler.Statements.{compile_statement}

unfoldable pub compile_stmt_block : String → List Statement → Compiled
unfolding map_result
compile_stmt_block keyword statements = map_result compile_statement statements >>= λ stmts.
    ok (keyword <> ("\n" <> (join ";\n" stmts <> ";")))

key_part : String → String
key_part key = "\"" <> (key <> "\": ")

unfoldable pub compile_fetch_item : FetchItem → Compiled
unfolding key_part
compile_fetch_item (raw s) = ok s
compile_fetch_item (attribute key var attr) = ok (key_part key <> (var <> ("." <> attr)))
compile_fetch_item (variable key var) = ok (key_part key <> var)
compile_fetch_item (attribute_list key var attr) =
    ok (key_part key <> ("[" <> (var <> ("." <> (attr <> "]")))))
compile_fetch_item (function key f var) = ok (key_part key <> (f <> ("(" <> (var <> ")"))))
compile_fetch_item (wildcard key var) = ok (key_part key <> (var <> ".*"))
compile_fetch_item (nested_wildcard key var) = ok (key_part key <> ("{ " <> (var <> ".* }")))
compile_fetch_item FetchItem.unknown = err unknown_fetch_item

unfoldable pub compile_let_assignment : LetAssignment → Compiled
compile_let_assignment a =
    let op = if a.is_stream then "in" else "=" in
    compile_operand a.expression >>= λ s.
    ok ("let " <> (join ", " a.variables <> (" " <> (op <> (" " <> s)))))

unfoldable pub compile_match_let : MatchLetClause → Compiled
unfolding map_result
compile_match_let c = map_result compile_pattern c.patterns >>= λ lines.
    map_result compile_let_assignment c.assignments >>= λ assignments.
    ok ("match\n" <> (join ";\n" (lines ++ assignments) <> ";"))

unfoldable pub compile_reduce_assignment : ReduceAssignment → Compiled
compile_reduce_assignment a = compile_operand a.expression >>= λ s. ok (a.variable <> (" = " <> s))

unfoldable pub compile_reduce_clause : ReduceClause → Compiled
unfolding map_result
compile_reduce_clause c = map_result compile_reduce_assignment c.assignments >>= λ parts.
    let text = "reduce " <> join ", " parts in
    let grouped = if c.group_by == "" then text else text <> (" groupby " <> c.group_by) in
    ok (grouped <> ";")

unfoldable pub compile_clause : Clause → Compiled
compile_clause (match_ ps) = join_compiled "match\n" ";\n" ";" ps compile_pattern
compile_clause (match_let c) = compile_match_let c
compile_clause (insert ss) = compile_stmt_block "insert" ss
compile_clause (delete ss) = compile_stmt_block "delete" ss
compile_clause (update ss) = compile_stmt_block "update" ss
compile_clause (put ss) = compile_stmt_block "put" ss
compile_clause (fetch items) = join_compiled "fetch {\n  " ",\n  " "\n};" items compile_fetch_item
compile_clause (reduce c) = compile_reduce_clause c
compile_clause (select vars) = ok ("select " <> (join ", " vars <> ";"))
compile_clause (sort c) = ok ("sort " <> (c.variable <> (" " <> (c.direction <> ";"))))
compile_clause (offset n) = ok ("offset " <> (itoa n <> ";"))
compile_clause (limit n) = ok ("limit " <> (itoa n <> ";"))
compile_clause Clause.unknown = err unknown_clause

unfoldable pub compile : QueryNode → Compiled
compile (clause c) = compile_clause c
compile (pattern_ p) = compile_pattern p
compile (statement s) = compile_statement s
compile (constraint c) = compile_constraint c
compile (value v) = compile_value v
compile _ = err unknown_node

-- The loop of `CompileBatch`; the flag is `i > 0`.
unfoldable pub write_batch : String → Bool → String → List QueryNode → Compiled
write_batch sep later b [] = ok b
write_batch sep later b (n ∷ ns) =
    compile n >>= λ s. write_batch sep true ((if later then b <> sep else b) <> s) ns

unfoldable pub compile_batch : List QueryNode → String → Compiled
unfolding write_batch
compile_batch nodes separator =
    write_batch (if separator == "" then "\n" else separator) false "" nodes
