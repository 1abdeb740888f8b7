-- ===== src/Ast/Builders.antt =====
-- ast/builders.go: the functions that make nodes. Of the functions whose body is one composite literal,
-- those that the fluent builders use are here.
pub mod Known
use go_typeql.Base.{String, false, List, [], ◌∷◌, ℤ, eqb, code, if◌then◌else◌}
use go_typeql.Ast.Nodes.{
  GoValue, FloatText, nil, str, bool, int, float, time, Value, Constraint, EntityPattern,
  RelationPattern, RolePlayer, Pattern, Patterns, Alternatives, Statement, literal, value,
}
use go_typeql.Ast.Clauses.{FetchItem}
use go_typeql.Ast.Literals.{format_go_value}

-- A Go value with what its type tells beyond GoValue: a sized integer below int64, and a float32 with
-- the texts of its own and those of the float64 that it converts to.
pub data Argument : Type 0 where
  plain : GoValue → Argument
  small_int : ℤ → Argument
  small_float : FloatText → FloatText → Argument

abbrev pub go_value : Argument → GoValue
go_value (plain v) = v
go_value (small_int z) = int z
go_value (small_float own widened) = float own

abbrev pub entity : String → String → List Constraint → EntityPattern
entity var_name type_name constraints = record {
  variable = var_name;
  type_name = type_name;
  constraints = constraints;
  is_strict = false;
}

abbrev pub relation : String → String → List RolePlayer → List Constraint → RelationPattern
relation var_name type_name role_players constraints = record {
  variable = var_name;
  type_name = type_name;
  is_strict = false;
  role_players = role_players;
  constraints = constraints;
}

abbrev pub has : String → Value → Constraint
has attr_name v = Constraint.has attr_name (value v)

abbrev pub str_lit : String → Value
str_lit s = literal (str s) "string"

abbrev pub has_stmt : String → String → Value → Statement
has_stmt subject_var attr_name v =
    Statement.has (record { subject_var = subject_var; attr_name = attr_name; value = v })

abbrev pub delete_has : String → String → Statement
delete_has attr_var owner_var =
    Statement.delete_has (record { attr_var = attr_var; owner_var = owner_var })

abbrev pub patterns_of : List Pattern → Patterns
patterns_of [] = Patterns.no_patterns
patterns_of (p ∷ ps) = Patterns.pattern_ p (patterns_of ps)

abbrev pub alternatives_of : List (List Pattern) → Alternatives
alternatives_of [] = Alternatives.no_alternatives
alternatives_of (ps ∷ rest) = Alternatives.alternative (patterns_of ps) (alternatives_of rest)

abbrev pub or_pattern : List (List Pattern) → Pattern
or_pattern alternatives = Pattern.or_ (alternatives_of alternatives)

-- strings.Split(path, "."): what stands before each dot and behind the last.
split_dot : String → List String
split_dot String.[] = "" ∷ []
split_dot (String.◌∷◌ c s) =
    let rest = split_dot s in
    if eqb (code c) b'.'
    then "" ∷ rest
    else elim rest [ [] ↦ String.◌∷◌ c "" ∷ [] | p ∷ ps ↦ String.◌∷◌ c p ∷ ps ]

unfoldable pub fetch_attr_path : String → String → FetchItem
unfolding split_dot
fetch_attr_path key attr_path = elim (split_dot attr_path) [
  | [] ↦ FetchItem.attribute key attr_path ""
  | var ∷ rest ↦ elim rest [
    | [] ↦ FetchItem.attribute key attr_path ""
    | attr ∷ more ↦ elim more [
      | [] ↦ FetchItem.attribute key var attr
      | _ ∷ _ ↦ FetchItem.attribute key attr_path ""
    ]
  ]
]

unfoldable pub value_from_go : Argument → Value
value_from_go (plain nil) = str_lit ""
value_from_go (plain (str s)) = str_lit s
value_from_go (plain (int z)) = literal (int z) "long"
value_from_go (plain (float f)) = literal (float f) "double"
value_from_go (plain (bool b)) = literal (bool b) "boolean"
value_from_go (plain (time t)) = literal (str t.rfc3339) "datetime"
value_from_go (small_float own widened) = literal (float widened) "double"
value_from_go a = literal (str (format_go_value (go_value a))) "string"
