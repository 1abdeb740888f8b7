-- ===== src/Ast/Fluent.antt =====
-- ast/fluent.go: the fluent query builders. A builder is its `fluentState`; each method returns the
-- changed copy of it, so a builder is a value here. `clone` copies the list of patterns but not the
-- constraints inside a pattern; the state is as here wherever each builder is continued only once.
mod Stages
use go_typeql.Base.{
  String, Char, code, Bool, true, false, ◌&&◌, ◌||◌, List, [], ◌∷◌, ◌++◌, map, Option, none, some,
  ℤ, ◌<>◌, ◌==◌, join, has_prefix, eqb, leb, if◌then◌else◌,
}
use Prim.Native.String
use go_typeql.Ast.Nodes.{Constraint, Pattern, Statement, HasPattern, EntityPattern, GoValue, str}
use go_typeql.Ast.Clauses.{Clause, FetchItem, LetAssignment, QueryNode, SortClause, MatchLetClause}
use go_typeql.Ast.Nodes.{Operand}
use go_typeql.Ast.Literals.{format_go_value}
use go_typeql.Ast.Compiler.{Compiled, compile_batch}
use go_typeql.Ast.Builders.{Argument, plain, go_value, value_from_go, or_pattern}
use go_typeql.Ast.Builders

pub record FluentState : Type 0 where
  pub main_var : String
  pub match_patterns : List Pattern
  pub match_let : List LetAssignment
  pub delete_statements : List Statement
  pub insert_statements : List Statement
  pub fetch_items : List FetchItem
  pub select_vars : List String
  pub sort_clause : Option SortClause
  pub offset_clause : Option ℤ
  pub limit_clause : Option ℤ

abbrev pub blank : String → List Pattern → FluentState
blank main_var patterns = record {
  main_var = main_var;
  match_patterns = patterns;
  match_let = [];
  delete_statements = [];
  insert_statements = [];
  fetch_items = [];
  select_vars = [];
  sort_clause = none;
  offset_clause = none;
  limit_clause = none;
}

-- The clause of a list, where the list is not empty.
abbrev pub clause_if {ℓ} : {A : Type ℓ} → (List A → Clause) → List A → List QueryNode
clause_if make [] = []
clause_if make (x ∷ xs) = QueryNode.clause (make (x ∷ xs)) ∷ []

abbrev pub clause_of {ℓ} : {A : Type ℓ} → (A → Clause) → Option A → List QueryNode
clause_of make none = []
clause_of make (some x) = QueryNode.clause (make x) ∷ []

abbrev pub match_node : List Pattern → List LetAssignment → List QueryNode
match_node ps [] = clause_if Clause.match_ ps
match_node ps (a ∷ as_) =
    QueryNode.clause (Clause.match_let (record { patterns = ps; assignments = a ∷ as_ })) ∷ []

unfoldable pub nodes : FluentState → List QueryNode
nodes s =
    match_node s.match_patterns s.match_let
    ++ (clause_if Clause.delete s.delete_statements
        ++ (clause_if Clause.insert s.insert_statements
            ++ (clause_if Clause.fetch s.fetch_items
                ++ (clause_if Clause.select s.select_vars
                    ++ (clause_of Clause.sort s.sort_clause
                        ++ (clause_of Clause.offset s.offset_clause
                            ++ clause_of Clause.limit s.limit_clause))))))

unfoldable pub build : FluentState → Compiled
unfolding nodes
build s = compile_batch (nodes s) ""

unfoldable pub ensure_var : String → String
ensure_var v = if has_prefix "$" v then v else "$" <> v

sanitize_char : Char → Char
sanitize_char c =
    let n = code c in
    if (leb b'a' n && leb n b'z') || ((leb b'A' n && leb n b'Z') || (leb b'0' n && leb n b'9'))
    then c
    else "_"

sanitize_each : String → String
unfolding sanitize_char
sanitize_each String.[] = ""
sanitize_each (String.◌∷◌ c s) = String.◌∷◌ (sanitize_char c) (sanitize_each s)

unfoldable pub sanitize_identifier : String → String
unfolding sanitize_each
sanitize_identifier s = if s == "" then "attr" else sanitize_each s

-- The variable of a pattern that has one, and where that is empty or missing, of the patterns behind.
pattern_var : Pattern → String
pattern_var (Pattern.entity p) = p.variable
pattern_var (Pattern.relation p) = p.variable
pattern_var (Pattern.has p) = p.thing_var
pattern_var (Pattern.comparison p) = p.var
pattern_var _ = ""

unfoldable pub infer_main_var : List Pattern → String
unfolding pattern_var
infer_main_var [] = "$n"
infer_main_var (p ∷ ps) =
    let rest = infer_main_var ps in if pattern_var p == "" then rest else pattern_var p

unfoldable pub constrain_first : Constraint → List Pattern → List Pattern
constrain_first c (Pattern.entity p ∷ ps) =
    Pattern.entity (record p { constraints = p.constraints ++ c ∷ [] }) ∷ ps
constrain_first c ps = ps

unfoldable pub add_pattern_constraint : Constraint → FluentState → FluentState
unfolding constrain_first
add_pattern_constraint c s = record s { match_patterns = constrain_first c s.match_patterns }

unfoldable pub fluent_match : String → String → FluentState
unfolding ensure_var
fluent_match var_name type_name =
    let v = ensure_var var_name in blank v (Pattern.entity (Builders.entity v type_name []) ∷ [])

unfoldable pub fluent_patterns : List Pattern → FluentState
unfolding infer_main_var
fluent_patterns patterns = blank (infer_main_var patterns) patterns

function_arg : Argument → String
function_arg (plain (str s)) = if has_prefix "$" s then s else format_go_value (str s)
function_arg a = format_go_value (go_value a)

unfoldable pub match_function : String → List Argument → FluentState
unfolding function_arg
match_function func_name args =
    let call = func_name <> ("(" <> (join ", " (map function_arg args) <> ")")) in
    record (blank "$result" []) {
      match_let =
          record { variables = "$result" ∷ []; expression = Operand.text call; is_stream = false }
          ∷ [];
    }
