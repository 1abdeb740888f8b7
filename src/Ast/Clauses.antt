-- ===== src/Ast/Clauses.antt =====
-- ast/nodes.go: the clauses of a query, the items of a fetch clause, and the query node itself.
use go_typeql.Base.{String, Bool, List, ℤ}
use go_typeql.Ast.Nodes.{AggregateExpr, Constraint, Operand, Pattern, RolePlayer, Statement, Value}

pub record LetAssignment : Type 0 where
  pub variables : List String
  pub expression : Operand
  pub is_stream : Bool

pub record MatchLetClause : Type 0 where
  pub patterns : List Pattern
  pub assignments : List LetAssignment

pub record SortClause : Type 0 where
  pub variable : String
  pub direction : String

-- The four kinds that name an attribute or a function carry key, variable and that name.
pub data FetchItem : Type 0 where
  raw : String → FetchItem
  attribute : String → String → String → FetchItem
  variable : String → String → FetchItem
  attribute_list : String → String → String → FetchItem
  function : String → String → String → FetchItem
  wildcard : String → String → FetchItem
  nested_wildcard : String → String → FetchItem
  unknown : FetchItem

pub record ReduceAssignment : Type 0 where
  pub variable : String
  pub expression : Operand

pub record ReduceClause : Type 0 where
  pub assignments : List ReduceAssignment
  pub group_by : String

pub data Clause : Type 0 where
  match_ : List Pattern → Clause
  match_let : MatchLetClause → Clause
  insert : List Statement → Clause
  delete : List Statement → Clause
  update : List Statement → Clause
  put : List Statement → Clause
  select : List String → Clause
  sort : SortClause → Clause
  offset : ℤ → Clause
  limit : ℤ → Clause
  fetch : List FetchItem → Clause
  reduce : ReduceClause → Clause
  unknown : Clause

-- The last five nodes belong to none of the interfaces that `Compile` tells apart.
pub data QueryNode : Type 0 where
  clause : Clause → QueryNode
  pattern_ : Pattern → QueryNode
  statement : Statement → QueryNode
  constraint : Constraint → QueryNode
  value : Value → QueryNode
  role_player : RolePlayer → QueryNode
  let_assignment : LetAssignment → QueryNode
  fetch_item : FetchItem → QueryNode
  aggregate : AggregateExpr → QueryNode
  reduce_assignment : ReduceAssignment → QueryNode
