-- ===== src/Gotype/Models/Strategy/Texts.antt =====
-- gotype/strategy.go: what the insert and put queries of an instance have in common.
use go_typeql.Base.{
  String, true, List, [], ◌∷◌, ◌++◌, map, ℕ, Option, none, some, ◌==◌, Bool-cases, Result, ok, err,
  is_ok, map_result, ◌<>◌, <>_assoc, nil-<>, join, ◌≡◌, refl, sym, ap, ◌∙◌, inl, inr,
}
use go_typeql.Ast.Nodes.{Pattern, Statement, Constraint}
use go_typeql.Ast.Clauses.{Clause, QueryNode}
use go_typeql.Ast.Compiler.{
  Compiled, CompileError, compile, compile_clause, compile_statement, compile_stmt_block,
  compile_fetch_item, join_compiled, write_compiled,
}
use go_typeql.Ast.Known.{all_known, known_constraint, known_pattern, known_statement, known_operand}
use go_typeql.Ast.Known.Total.{is_ok-compile, is_ok-map_result, is_ok-statement}
use go_typeql.Ast.Builders.{Argument, value_from_go, has_stmt}
use go_typeql.Ast.Builders.Known.{value_from_go-known}
use go_typeql.Gotype.Models.{
  ModelKind, entity_kind, relation_kind, ModelInfo, FieldInfo, RoleInfo, Held, Player, Instance,
  player, field_values, single_value,
}
use go_typeql.Gotype.Models.Strategy.{
  add_constraint, add_player, insert_parts, var, each_value, key_constraints, player_patterns,
  match_before, entity_insert_or_put, relation_insert_or_put, append_iid_fetch, build_put_query,
  build_insert_query, compile_clause_node, strategy_put, strategy_insert,
}

-- The value of a result that is not an error.
value_of : {A : Type 0} (r : Result CompileError A) → is_ok r ≡ true → (a : A) × (r ≡ ok a)
value_of (ok a) h = (a, refl)
value_of (err e) h = cc

module _ (inst : Instance) (x : String) where
  statement : FieldInfo → Argument → Statement
  statement f a = has_stmt x f.tag.name (value_from_go a)

  map-known :
      (f : FieldInfo) (as_ : List Argument) (rest : List Statement)
      → all_known known_statement rest ≡ true
      → all_known known_statement (map (statement f) as_ ++ rest) ≡ true
  unfolding statement
  map-known f [] rest h = h
  map-known f (a ∷ as_) rest h = rw (value_from_go-known a) (map-known f as_ rest h)

  each_value-known :
      (fs : List FieldInfo) → all_known known_statement (each_value statement inst fs) ≡ true
  unfolding each_value
  each_value-known [] = refl
  each_value-known (f ∷ fs) =
      map-known f (field_values (inst.field f.field_index)) (each_value statement inst fs)
        (each_value-known fs)

add_constraint-known :
    (f : FieldInfo) (o : Option Argument) (rest : List Constraint)
    → all_known known_constraint rest ≡ true
    → all_known known_constraint (add_constraint f o rest) ≡ true
unfolding add_constraint known_operand
add_constraint-known f none rest h = h
add_constraint-known f (some a) rest h = rw (value_from_go-known a) h

key_constraints-known :
    (field : ℕ → Held) (fs : List FieldInfo)
    → all_known known_constraint (key_constraints field fs) ≡ true
unfolding key_constraints
key_constraints-known field [] = refl
key_constraints-known field (f ∷ fs) =
    add_constraint-known f (single_value (field f.field_index)) (key_constraints field fs)
      (key_constraints-known field fs)

add_player-known :
    (r : RoleInfo) (p : Player) (rest : List Pattern × List String)
    → all_known known_pattern rest.0 ≡ true
    → all_known known_pattern (add_player r p rest).0 ≡ true
unfolding add_player known_pattern
add_player-known r (player info i field) rest h = elim (Bool-cases (i == "")) [
  | inl e ↦ rw (e, key_constraints-known field info.key_fields) h
  | inr e ↦ rw e h
]
add_player-known r _ rest h = h

player_patterns-known :
    (inst : Instance) (rs : List RoleInfo)
    → all_known known_pattern (player_patterns inst rs).0 ≡ true
unfolding player_patterns
player_patterns-known inst [] = refl
player_patterns-known inst (r ∷ rs) =
    add_player-known r (inst.player_of r.field_index) (player_patterns inst rs)
      (player_patterns-known inst rs)

match_before-ok :
    (ps : List Pattern)
    → all_known known_pattern ps ≡ true
    → (s : String) × (match_before ps ≡ ok s)
unfolding match_before compile_clause_node
match_before-ok [] h = ("", refl)
match_before-ok (p ∷ ps) h =
    let (s, e) =
      value_of (compile (QueryNode.clause (Clause.match_ (p ∷ ps))))
        (is_ok-compile (QueryNode.clause (Clause.match_ (p ∷ ps))) ∙ h) in
    (s <> "\n", rw e refl)

statements-ok :
    (ss : List Statement)
    → all_known known_statement ss ≡ true
    → (texts : List String) × (map_result compile_statement ss ≡ ok texts)
statements-ok ss h =
    value_of _ (is_ok-map_result compile_statement known_statement ss is_ok-statement ∙ h)

-- The end of an insert query, which asks for the IID of what is inserted.
abbrev pub iid_fetch : String → String
iid_fetch v =
    let call = "\"_iid\": " <> ("iid" <> ("(" <> (var v <> ")"))) in
    "\n" <> (("fetch {\n  " <> call) <> "\n};")

append_iid_fetch-ok : (q v : String) → append_iid_fetch q v ≡ ok (q <> iid_fetch v)
unfolding append_iid_fetch compile_clause_node compile compile_clause compile_fetch_item
    join_compiled write_compiled
append_iid_fetch-ok q v = refl

-- A put and an insert query with the same text before their keyword and behind it.
abbrev pub Written : String → Compiled → Compiled → Type 0
Written v put insert =
    (before : String) × (after : String) × (put ≡ ok (before <> ("put" <> after)))
    × (insert ≡ ok (before <> ("insert" <> (after <> iid_fetch v))))

entity-Written :
    (info : ModelInfo) (inst : Instance) (v : String)
    → (after : String) × (entity_insert_or_put info inst v "put" ≡ ok ("put" <> after))
      × (entity_insert_or_put info inst v "insert" ≡ ok ("insert" <> after))
unfolding entity_insert_or_put compile_clause_node compile compile_clause compile_stmt_block
    statement
entity-Written info inst v =
    let x = var v in
    let statements : List Statement =
      Statement.isa (record { variable = x; type_name = info.type_name })
      ∷ each_value (statement inst x) inst info.fields in
    let (texts, e) = statements-ok statements (each_value-known inst x info.fields) in
    ("\n" <> (join ";\n" texts <> ";"), rw e refl, rw e refl)

relation-Written :
    (info : ModelInfo) (inst : Instance) (v : String)
    → (before : String) × (after : String) × (relation_insert_or_put info inst v "put"
        ≡ ok (before <> ("put" <> after)))
      × (relation_insert_or_put info inst v "insert" ≡ ok (before <> ("insert" <> after)))
unfolding relation_insert_or_put
relation-Written info inst v =
    let (before, e) =
      match_before-ok (player_patterns inst info.roles).0 (player_patterns-known inst info.roles) in
    (before, "\n" <> (join ",\n" (insert_parts info inst v) <> ";"), rw e refl, rw e refl)

strategy-Written :
    (k : ModelKind) (info : ModelInfo) (inst : Instance) (v : String)
    → Written v (strategy_put k info inst v) (strategy_insert k info inst v)
unfolding strategy_put strategy_insert
strategy-Written entity_kind info inst v =
    let (after, put, insert) = entity-Written info inst v in
    (
      "",
      after,
      put ∙ ap ok (sym (nil-<> _)),
      rw insert (append_iid_fetch-ok ("insert" <> after) v ∙ ap ok (simp (<>_assoc, nil-<>))),
    )
strategy-Written relation_kind info inst v =
    let (before, after, put, insert) = relation-Written info inst v in
    (
      before,
      after,
      put,
      rw insert (append_iid_fetch-ok (before <> ("insert" <> after)) v ∙ ap ok (simp <>_assoc)),
    )

-- Insert and put write an instance, of an entity or a relation, in the same way: both queries are built,
-- and they differ only in their keyword and in the fetch of the new IID at the end of the insert.
pub build_insert_query-put :
    (info : ModelInfo) (inst : Instance) (v : String)
    → Written v (build_put_query info inst v) (build_insert_query info inst v)
unfolding build_put_query build_insert_query
build_insert_query-put info inst v = strategy-Written info.kind info inst v
