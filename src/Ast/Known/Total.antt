-- ===== src/Ast/Known/Total.antt =====
-- ast/compiler.go compiles exactly the known nodes.
use go_typeql.Base.{
  String, Bool, ◌&&◌, List, [], ◌∷◌, Option, none, some, Result, ok, err, ◌>>=◌, is_ok, map_result,
  ◌≡◌, refl, ap, ap₂, ◌∙◌,
}
use go_typeql.Ast.Nodes.{
  Value, Operand, Operands, Constraint, Pattern, Patterns, Alternatives, EntityPattern,
  RelationPattern, AttributePattern, Statement, HasStatement, literal, arithmetic, function_call,
  value, text, no_operands, operand,
}
use go_typeql.Ast.Clauses.{Clause, FetchItem, LetAssignment, ReduceAssignment, QueryNode}
use go_typeql.Ast.Compiler.{
  CompileError, Compiled, compile_value, compile_operand, compile_operands, compile_constraint,
  compile_pattern, compile_patterns, compile_alternatives, compile_entity_pattern,
  compile_relation_pattern, compile_attribute_pattern, compile_statement, compile_stmt_block,
  compile_fetch_item, compile_let_assignment, compile_reduce_assignment, compile_match_let,
  compile_reduce_clause, compile_clause, compile, join_compiled, write_parts, add_part,
  attribute_part, with_attributes, relation_base,
}
use go_typeql.Ast.Joins.{join_compiled-join, compile_entity_pattern-join}
use go_typeql.Ast.Known.{
  known_value, known_operand, known_operands, known_constraint, known_pattern, known_patterns,
  known_alternatives, known_statement, known_fetch_item, known_clause, known_node, all_known,
}

module _ {A B : Type 0} where
  is_ok-then :
      (m : Result CompileError A) (k : A → Result CompileError B) (b : Bool)
      → ((a : A) → is_ok (k a) ≡ b)
      → is_ok (m >>= k) ≡ (is_ok m && b)
  is_ok-then (ok a) k b h = h a
  is_ok-then (err e) k b h = refl

  pub is_ok-bind : (m : Result CompileError A) (g : A → B) → is_ok (m >>= λ x. ok (g x)) ≡ is_ok m
  is_ok-bind (ok a) g = refl
  is_ok-bind (err e) g = refl

is_ok-bind₂ :
    {A B C : Type 0} (m : Result CompileError A) (n : Result CompileError B) (g : A → B → C)
    → is_ok (m >>= λ x. n >>= λ y. ok (g x y)) ≡ (is_ok m && is_ok n)
is_ok-bind₂ m n g = is_ok-then m _ (is_ok n) (λ x. is_ok-bind n (g x))

pub is_ok-map_result :
    {A B : Type 0} (f : A → Result CompileError B) (p : A → Bool) (xs : List A)
    → ((x : A) → is_ok (f x) ≡ p x)
    → is_ok (map_result f xs) ≡ all_known p xs
unfolding map_result
is_ok-map_result f p [] h = refl
is_ok-map_result f p (x ∷ xs) h =
    is_ok-bind₂ (f x) (map_result f xs) (λ y ys. y ∷ ys)
    ∙ ap₂ (λ a b. a && b) (h x) (is_ok-map_result f p xs h)

mutual
  unfolding compile_value known_value

  is_ok-value : (v : Value) → is_ok (compile_value v) ≡ known_value v
  is_ok-value (literal v type) = refl
  is_ok-value (arithmetic l op r) =
      is_ok-bind₂ (compile_operand l) (compile_operand r) _
      ∙ ap₂ (λ a b. a && b) (is_ok-operand l) (is_ok-operand r)
  is_ok-value (function_call f args) = is_ok-bind (compile_operands args) _ ∙ is_ok-operands args
  is_ok-value Value.unknown = refl

  is_ok-operand : (a : Operand) → is_ok (compile_operand a) ≡ known_operand a
  is_ok-operand (value v) = is_ok-value v
  is_ok-operand (text s) = refl
  is_ok-operand _ = refl

  is_ok-operands : (as_ : Operands) → is_ok (compile_operands as_) ≡ known_operands as_
  is_ok-operands no_operands = refl
  is_ok-operands (operand a rest) =
      is_ok-bind₂ (compile_operand a) (compile_operands rest) _
      ∙ ap₂ (λ a b. a && b) (is_ok-operand a) (is_ok-operands rest)

is_ok-constraint : (c : Constraint) → is_ok (compile_constraint c) ≡ known_constraint c
unfolding compile_constraint
is_ok-constraint (Constraint.iid i) = refl
is_ok-constraint (Constraint.has attr v) = is_ok-bind (compile_operand v) _ ∙ is_ok-operand v
is_ok-constraint (Constraint.isa type strict) = refl
is_ok-constraint Constraint.unknown = refl

is_ok-write_parts :
    (b : String) (cs : List Constraint) → is_ok (write_parts b cs) ≡ all_known known_constraint cs
unfolding write_parts
is_ok-write_parts b [] = refl
is_ok-write_parts b (c ∷ cs) =
    is_ok-then (compile_constraint c) _ _ (λ s. is_ok-write_parts (add_part b s) cs)
    ∙ ap (λ x. x && all_known known_constraint cs) (is_ok-constraint c)

is_ok-entity :
    (p : EntityPattern)
    → is_ok (compile_entity_pattern p) ≡ all_known known_constraint p.constraints
is_ok-entity p =
    ap is_ok (compile_entity_pattern-join p)
    ∙ is_ok-bind (map_result compile_constraint p.constraints) _
    ∙ is_ok-map_result compile_constraint known_constraint p.constraints is_ok-constraint

is_ok-relation :
    (p : RelationPattern)
    → is_ok (compile_relation_pattern p) ≡ all_known known_constraint p.constraints
is_ok-relation p = unfold compile_relation_pattern in is_ok-write_parts _ p.constraints

is_ok-attribute :
    (p : AttributePattern) (v : Option Value)
    → p.value ≡ v
    → is_ok (compile_attribute_pattern p) ≡ known_pattern (Pattern.attribute p)
unfolding compile_attribute_pattern known_pattern
is_ok-attribute p none e = rw (e, compile_attribute_pattern)
is_ok-attribute p (some v) e =
    rw (e, compile_attribute_pattern) (is_ok-bind (compile_value v) _ ∙ is_ok-value v)

mutual
  unfolding compile_pattern known_pattern

  is_ok-pattern : (p : Pattern) → is_ok (compile_pattern p) ≡ known_pattern p
  is_ok-pattern (Pattern.entity p) = is_ok-entity p
  is_ok-pattern (Pattern.relation p) = is_ok-relation p
  is_ok-pattern (Pattern.comparison p) =
      is_ok-bind (compile_operand p.value) _ ∙ is_ok-operand p.value
  is_ok-pattern (Pattern.attribute p) = is_ok-attribute p p.value refl
  is_ok-pattern (Pattern.not_ ps) = is_ok-bind (compile_patterns ps) _ ∙ is_ok-patterns ps
  is_ok-pattern (Pattern.or_ alts) =
      is_ok-bind (compile_alternatives alts) _ ∙ is_ok-alternatives alts
  is_ok-pattern _ = refl

  is_ok-patterns : (ps : Patterns) → is_ok (compile_patterns ps) ≡ known_patterns ps
  is_ok-patterns Patterns.no_patterns = refl
  is_ok-patterns (Patterns.pattern_ p ps) =
      is_ok-bind₂ (compile_pattern p) (compile_patterns ps) _
      ∙ ap₂ (λ a b. a && b) (is_ok-pattern p) (is_ok-patterns ps)

  is_ok-alternatives :
      (alts : Alternatives) → is_ok (compile_alternatives alts) ≡ known_alternatives alts
  is_ok-alternatives Alternatives.no_alternatives = refl
  is_ok-alternatives (Alternatives.alternative ps alts) =
      is_ok-bind₂ (compile_patterns ps) (compile_alternatives alts) _
      ∙ ap₂ (λ a b. a && b) (is_ok-patterns ps) (is_ok-alternatives alts)

is_ok-attribute_part : (a : HasStatement) → is_ok (attribute_part a) ≡ known_value a.value
unfolding attribute_part
is_ok-attribute_part a = is_ok-bind (compile_value a.value) _ ∙ is_ok-value a.value

is_ok-with_attributes :
    (base : String) (as_ : List HasStatement)
    → is_ok (with_attributes base as_) ≡ all_known (λ a. known_value (HasStatement.value a)) as_
unfolding with_attributes
is_ok-with_attributes base [] = refl
is_ok-with_attributes base (a ∷ as_) =
    is_ok-bind (map_result attribute_part (a ∷ as_)) _
    ∙ is_ok-map_result attribute_part _ (a ∷ as_) is_ok-attribute_part

pub is_ok-statement : (s : Statement) → is_ok (compile_statement s) ≡ known_statement s
unfolding compile_statement
is_ok-statement (Statement.has s) = is_ok-bind (compile_value s.value) _ ∙ is_ok-value s.value
is_ok-statement (Statement.relation s) = is_ok-with_attributes (relation_base s) s.attributes
is_ok-statement _ = refl

is_ok-stmt_block :
    (keyword : String) (ss : List Statement)
    → is_ok (compile_stmt_block keyword ss) ≡ all_known known_statement ss
unfolding compile_stmt_block
is_ok-stmt_block keyword ss =
    is_ok-bind (map_result compile_statement ss) _
    ∙ is_ok-map_result compile_statement known_statement ss is_ok-statement

is_ok-fetch_item : (i : FetchItem) → is_ok (compile_fetch_item i) ≡ known_fetch_item i
unfolding compile_fetch_item
is_ok-fetch_item FetchItem.unknown = refl
is_ok-fetch_item _ = refl

is_ok-let : (a : LetAssignment) → is_ok (compile_let_assignment a) ≡ known_operand a.expression
unfolding compile_let_assignment
is_ok-let a = is_ok-bind (compile_operand a.expression) _ ∙ is_ok-operand a.expression

is_ok-reduce :
    (a : ReduceAssignment) → is_ok (compile_reduce_assignment a) ≡ known_operand a.expression
unfolding compile_reduce_assignment
is_ok-reduce a = is_ok-bind (compile_operand a.expression) _ ∙ is_ok-operand a.expression

is_ok-join_compiled :
    {T : Type 0} (prefix sep suffix : String) (items : List T) (f : T → Compiled) (p : T → Bool)
    → ((x : T) → is_ok (f x) ≡ p x)
    → is_ok (join_compiled prefix sep suffix items f) ≡ all_known p items
is_ok-join_compiled prefix sep suffix items f p h =
    ap is_ok (join_compiled-join prefix sep suffix items f)
    ∙ is_ok-bind (map_result f items) _
    ∙ is_ok-map_result f p items h

is_ok-clause : (c : Clause) → is_ok (compile_clause c) ≡ known_clause c
unfolding compile_clause compile_match_let compile_reduce_clause
is_ok-clause (Clause.match_ ps) =
    is_ok-join_compiled _ _ _ ps compile_pattern known_pattern is_ok-pattern
is_ok-clause (Clause.match_let c) =
    is_ok-bind₂ (map_result compile_pattern c.patterns)
      (map_result compile_let_assignment c.assignments) _
    ∙ ap₂ (λ a b. a && b) (is_ok-map_result compile_pattern known_pattern c.patterns is_ok-pattern)
        (is_ok-map_result compile_let_assignment _ c.assignments is_ok-let)
is_ok-clause (Clause.insert ss) = is_ok-stmt_block "insert" ss
is_ok-clause (Clause.delete ss) = is_ok-stmt_block "delete" ss
is_ok-clause (Clause.update ss) = is_ok-stmt_block "update" ss
is_ok-clause (Clause.put ss) = is_ok-stmt_block "put" ss
is_ok-clause (Clause.fetch items) =
    is_ok-join_compiled _ _ _ items compile_fetch_item known_fetch_item is_ok-fetch_item
is_ok-clause (Clause.reduce c) =
    is_ok-bind (map_result compile_reduce_assignment c.assignments) _
    ∙ is_ok-map_result compile_reduce_assignment _ c.assignments is_ok-reduce
is_ok-clause _ = refl

-- `Compile` succeeds exactly on the nodes all of whose parts are known: no value, operand, pattern,
-- constraint, statement, clause or fetch item of them is nil or of a foreign type, but for the value of an
-- attribute pattern, which is optional and may be nil; and every operand is a value or a variable string.
-- A role player, let assignment, fetch item, aggregate or reduce assignment alone is refused.
pub is_ok-compile : (n : QueryNode) → is_ok (compile n) ≡ known_node n
unfolding compile
is_ok-compile (QueryNode.clause c) = is_ok-clause c
is_ok-compile (QueryNode.pattern_ p) = is_ok-pattern p
is_ok-compile (QueryNode.statement s) = is_ok-statement s
is_ok-compile (QueryNode.constraint c) = is_ok-constraint c
is_ok-compile (QueryNode.value v) = is_ok-value v
is_ok-compile _ = refl
