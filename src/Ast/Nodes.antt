-- ===== src/Ast/Nodes.antt =====
-- ast/nodes.go: the nodes of a TypeQL query. A Go interface is a data type with a constructor for
-- each implementation; `unknown` stands for a nil interface, a pointer to a node or a type outside
-- the package, all of which a type switch sends to its default case.
use go_typeql.Base.{String, Bool, List, Option, ℕ, ℤ}

-- What the compiler reads of a float: its `FormatFloat(v, 'f', -1)` text and its `Sprint` text.
pub record FloatText : Type 0 where
  pub fixed : String
  pub printed : String

-- What the compiler reads of a time.Time: its `Format` in the four layouts, its `Sprint` text,
-- whether the clock stands at midnight and whether its location is UTC.
pub record TimeText : Type 0 where
  pub date : String
  pub date_time : String
  pub rfc3339 : String
  pub printed : String
  pub at_midnight : Bool
  pub in_utc : Bool

-- A Go value of type `any`. The sized integers differ in nothing that the compiler prints;
-- a pointer comes with its own `Sprint` text and the value behind it, and `other` is a value of any
-- other type, with whether its reflect.Kind is a scalar one, and its `Sprint` text.
pub data GoValue : Type 0 where
  nil : GoValue
  str : String → GoValue
  bool : Bool → GoValue
  int : ℤ → GoValue
  uint : ℕ → GoValue
  float : FloatText → GoValue
  time : TimeText → GoValue
  nil_pointer : GoValue
  pointer : String → GoValue → GoValue
  other : Bool → String → GoValue

pub record AggregateExpr : Type 0 where
  pub func_name : String
  pub var : String
  pub attr_name : String

-- `Value`, and `Operand` for an `any` that should hold a Value or a variable string.
mutual
  pub data Value : Type 0 where
    function_call : String → Operands → Value
    literal : GoValue → String → Value
    arithmetic : Operand → String → Operand → Value
    unknown : Value

  pub data Operand : Type 0 where
    value : Value → Operand
    text : String → Operand
    aggregate : AggregateExpr → Operand
    foreign : Operand

  pub data Operands : Type 0 where
    no_operands : Operands
    operand : Operand → Operands → Operands

pub record RolePlayer : Type 0 where
  pub role : String
  pub player_var : String

pub data Constraint : Type 0 where
  iid : String → Constraint
  has : String → Operand → Constraint
  isa : String → Bool → Constraint
  unknown : Constraint

pub record EntityPattern : Type 0 where
  pub variable : String
  pub type_name : String
  pub constraints : List Constraint
  pub is_strict : Bool

pub record RelationPattern : Type 0 where
  pub variable : String
  pub type_name : String
  pub is_strict : Bool
  pub role_players : List RolePlayer
  pub constraints : List Constraint

pub record SubTypePattern : Type 0 where
  pub variable : String
  pub parent_type : String

-- `value` is `none` for a nil Value.
pub record AttributePattern : Type 0 where
  pub variable : String
  pub type_name : String
  pub value : Option Value

pub record HasPattern : Type 0 where
  pub thing_var : String
  pub attr_type : String
  pub attr_var : String

pub record ValueComparisonPattern : Type 0 where
  pub var : String
  pub operator : String
  pub value : Operand

pub record IidPattern : Type 0 where
  pub variable : String
  pub iid : String

mutual
  pub data Pattern : Type 0 where
    entity : EntityPattern → Pattern
    relation : RelationPattern → Pattern
    sub_type : SubTypePattern → Pattern
    attribute : AttributePattern → Pattern
    has : HasPattern → Pattern
    comparison : ValueComparisonPattern → Pattern
    not_ : Patterns → Pattern
    or_ : Alternatives → Pattern
    iid : IidPattern → Pattern
    raw : String → Pattern
    unknown : Pattern

  pub data Patterns : Type 0 where
    no_patterns : Patterns
    pattern_ : Pattern → Patterns → Patterns

  pub data Alternatives : Type 0 where
    no_alternatives : Alternatives
    alternative : Patterns → Alternatives → Alternatives

pub record HasStatement : Type 0 where
  pub subject_var : String
  pub attr_name : String
  pub value : Value

pub record IsaStatement : Type 0 where
  pub variable : String
  pub type_name : String

pub record RelationStatement : Type 0 where
  pub variable : String
  pub type_name : String
  pub role_players : List RolePlayer
  pub include_variable : Bool
  pub attributes : List HasStatement

pub record DeleteHasStatement : Type 0 where
  pub attr_var : String
  pub owner_var : String

pub data Statement : Type 0 where
  raw : String → Statement
  has : HasStatement → Statement
  isa : IsaStatement → Statement
  relation : RelationStatement → Statement
  delete_thing : String → Statement
  delete_has : DeleteHasStatement → Statement
  unknown : Statement
