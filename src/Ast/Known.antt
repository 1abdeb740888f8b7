-- ===== src/Ast/Known.antt =====
-- Which nodes the compiler of ast/compiler.go accepts, told from the nodes alone.
pub mod Total
use go_typeql.Base.{Bool, true, false, ◌&&◌, List, [], ◌∷◌, Option, none, some}
use go_typeql.Ast.Nodes.{
  Value, Operand, Operands, Constraint, Pattern, Patterns, Alternatives, EntityPattern,
  RelationPattern, AttributePattern, ValueComparisonPattern, Statement, HasStatement,
  RelationStatement, literal, arithmetic, function_call, value, text, no_operands, operand,
}
use go_typeql.Ast.Clauses.{Clause, FetchItem, LetAssignment, ReduceAssignment, QueryNode}

unfoldable mutual
  pub known_value : Value → Bool
  known_value (literal v type) = true
  known_value (arithmetic l op r) = known_operand l && known_operand r
  known_value (function_call f args) = known_operands args
  known_value Value.unknown = false

  pub known_operand : Operand → Bool
  known_operand (value v) = known_value v
  known_operand (text s) = true
  known_operand _ = false

  pub known_operands : Operands → Bool
  known_operands no_operands = true
  known_operands (operand a rest) = known_operand a && known_operands rest

abbrev pub known_constraint : Constraint → Bool
known_constraint (Constraint.iid i) = true
known_constraint (Constraint.has attr v) = known_operand v
known_constraint (Constraint.isa type strict) = true
known_constraint Constraint.unknown = false

module _ {ℓ} {A : Type ℓ} (p : A → Bool) where
  abbrev pub all_known : List A → Bool
  all_known [] = true
  all_known (x ∷ xs) = p x && all_known xs

abbrev known_option : Option Value → Bool
known_option none = true
known_option (some v) = known_value v

unfoldable mutual
  pub known_pattern : Pattern → Bool
  known_pattern (Pattern.entity p) = all_known known_constraint p.constraints
  known_pattern (Pattern.relation p) = all_known known_constraint p.constraints
  known_pattern (Pattern.comparison p) = known_operand p.value
  known_pattern (Pattern.attribute p) = known_option p.value
  known_pattern (Pattern.not_ ps) = known_patterns ps
  known_pattern (Pattern.or_ alts) = known_alternatives alts
  known_pattern Pattern.unknown = false
  known_pattern _ = true

  pub known_patterns : Patterns → Bool
  known_patterns Patterns.no_patterns = true
  known_patterns (Patterns.pattern_ p ps) = known_pattern p && known_patterns ps

  pub known_alternatives : Alternatives → Bool
  known_alternatives Alternatives.no_alternatives = true
  known_alternatives (Alternatives.alternative ps alts) =
      known_patterns ps && known_alternatives alts

abbrev pub known_statement : Statement → Bool
known_statement (Statement.has s) = known_value s.value
known_statement (Statement.relation s) =
    all_known (λ a. known_value (HasStatement.value a)) s.attributes
known_statement Statement.unknown = false
known_statement _ = true

abbrev pub known_fetch_item : FetchItem → Bool
known_fetch_item FetchItem.unknown = false
known_fetch_item _ = true

abbrev pub known_let : LetAssignment → Bool
known_let a = known_operand a.expression

abbrev known_reduce : ReduceAssignment → Bool
known_reduce a = known_operand a.expression

abbrev pub known_clause : Clause → Bool
known_clause (Clause.match_ ps) = all_known known_pattern ps
known_clause (Clause.match_let c) =
    all_known known_pattern c.patterns && all_known known_let c.assignments
known_clause (Clause.insert ss) = all_known known_statement ss
known_clause (Clause.delete ss) = all_known known_statement ss
known_clause (Clause.update ss) = all_known known_statement ss
known_clause (Clause.put ss) = all_known known_statement ss
known_clause (Clause.fetch items) = all_known known_fetch_item items
known_clause (Clause.reduce c) = all_known known_reduce c.assignments
known_clause Clause.unknown = false
known_clause _ = true

-- The nodes all of whose parts the compiler knows.
abbrev pub known_node : QueryNode → Bool
known_node (QueryNode.clause c) = known_clause c
known_node (QueryNode.pattern_ p) = known_pattern p
known_node (QueryNode.statement s) = known_statement s
known_node (QueryNode.constraint c) = known_constraint c
known_node (QueryNode.value v) = known_value v
known_node _ = false
