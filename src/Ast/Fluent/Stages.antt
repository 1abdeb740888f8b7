-- ===== src/Ast/Fluent/Stages.antt =====
-- ast/fluent.go: the methods of the builders, one function each on the state that a builder holds, and
-- the chains of calls. The methods of MatchOutputBuilder and FunctionOutputBuilder repeat those of
-- MatchBuilder for fetch and select; a chain over a stage is a list of its calls.
mod Output
mod Compiles
mod Shortcuts
mod Tests
use go_typeql.Base.{
  String, Bool, false, List, [], ◌∷◌, ◌++◌, map, Option, none, some, ℤ, ◌<>◌, ◌==◌, has_prefix,
  if◌then◌else◌,
}
use go_typeql.Ast.Nodes.{Pattern, Statement, Constraint, str}
use go_typeql.Ast.Clauses.{FetchItem, LetAssignment, SortClause}
use go_typeql.Ast.Builders.{Argument, plain, value_from_go, or_pattern, has_stmt}
use go_typeql.Ast.Builders
use go_typeql.Ast.Fluent.{FluentState, add_pattern_constraint, ensure_var, sanitize_identifier}

-- An IdentifierMatcher, `none` for a nil one.
abbrev pub Matcher : Type 0
Matcher = Option (String → Bool)

pub prefix_is_iid : String → String → Bool
prefix_is_iid prefix identifier = if prefix == "" then false else has_prefix prefix identifier

pub is_iid : Matcher → String → Bool
unfolding prefix_is_iid
is_iid none identifier = prefix_is_iid "0x" identifier
is_iid (some f) identifier = f identifier

unfoldable pub with_has : String → Argument → FluentState → FluentState
with_has attr_name v s = add_pattern_constraint (Builders.has attr_name (value_from_go v)) s

unfoldable pub with_iid : String → FluentState → FluentState
with_iid i s = add_pattern_constraint (Constraint.iid i) s

unfoldable pub match_by_identifier : String → String → Matcher → FluentState → FluentState
unfolding is_iid with_has with_iid
match_by_identifier identifier attr_name matcher s =
    if is_iid matcher identifier
    then with_iid identifier s
    else with_has attr_name (plain (str identifier)) s

unfoldable pub where_patterns : List Pattern → FluentState → FluentState
where_patterns patterns s = record s { match_patterns = s.match_patterns ++ patterns }

unfoldable pub or_alternatives : List (List Pattern) → FluentState → FluentState
or_alternatives alternatives s = record s {
  match_patterns = s.match_patterns ++ or_pattern alternatives ∷ [];
}

unfoldable pub let_assignments : List LetAssignment → FluentState → FluentState
let_assignments assignments s = record s { match_let = s.match_let ++ assignments }

abbrev pub old_var : String → String
old_var attr_name = "$old_" <> sanitize_identifier attr_name

unfoldable pub set_attribute : String → Argument → FluentState → FluentState
set_attribute attr_name v s = record s {
  match_patterns =
      s.match_patterns
      ++ Pattern.has
          (record { thing_var = s.main_var; attr_type = attr_name; attr_var = old_var attr_name })
        ∷ [];
  delete_statements =
      s.delete_statements ++ Builders.delete_has (old_var attr_name) s.main_var ∷ [];
  insert_statements = s.insert_statements ++ has_stmt s.main_var attr_name (value_from_go v) ∷ [];
}

unfoldable pub delete_has : String → String → FluentState → FluentState
delete_has attr_var owner_var s =
    let attr = if attr_var == "" then "$old" else ensure_var attr_var in
    let owner = if owner_var == "" then s.main_var else ensure_var owner_var in
    record s { delete_statements = s.delete_statements ++ Builders.delete_has attr owner ∷ [] }

unfoldable pub insert_has : String → String → Argument → FluentState → FluentState
insert_has owner_var attr_name v s =
    let owner = if owner_var == "" then s.main_var else ensure_var owner_var in
    record s {
      insert_statements = s.insert_statements ++ has_stmt owner attr_name (value_from_go v) ∷ [];
    }

unfoldable pub delete_thing : FluentState → FluentState
delete_thing s = record s {
  delete_statements = s.delete_statements ++ Statement.delete_thing s.main_var ∷ [];
}

pub fetch_attrs : String → List String → List FetchItem
fetch_attrs v attr_names = map (λ a. FetchItem.attribute a v a) attr_names

unfoldable pub fetch : String → List String → FluentState → FluentState
unfolding fetch_attrs
fetch var_name attr_names s = record s {
  fetch_items = s.fetch_items ++ fetch_attrs (ensure_var var_name) attr_names;
}

unfoldable pub select : List String → FluentState → FluentState
select vars s = record s { select_vars = s.select_vars ++ map ensure_var vars }

unfoldable pub sort_by : String → String → FluentState → FluentState
sort_by variable direction s = record s {
  sort_clause = some (record { variable = ensure_var variable; direction = direction });
}

unfoldable pub limit_to : ℤ → FluentState → FluentState
limit_to count s = record s { limit_clause = some count }

unfoldable pub offset_by : ℤ → FluentState → FluentState
offset_by count s = record s { offset_clause = some count }

-- The methods of MatchStage that stay in it.
pub data MatchCall : Type 0 where
  has : String → Argument → MatchCall
  iid : String → MatchCall
  by_identifier : String → String → Matcher → MatchCall
  where_ : List Pattern → MatchCall
  or_ : List (List Pattern) → MatchCall
  let_ : List LetAssignment → MatchCall
  set : String → Argument → MatchCall
  delete_has_ : String → String → MatchCall
  insert_has_ : String → String → Argument → MatchCall
  delete_thing_ : MatchCall

unfoldable pub apply_match : MatchCall → FluentState → FluentState
unfolding with_has with_iid match_by_identifier where_patterns or_alternatives let_assignments
    set_attribute delete_has insert_has delete_thing
apply_match (has attr_name v) s = with_has attr_name v s
apply_match (iid i) s = with_iid i s
apply_match (by_identifier identifier attr_name matcher) s =
    match_by_identifier identifier attr_name matcher s
apply_match (where_ patterns) s = where_patterns patterns s
apply_match (or_ alternatives) s = or_alternatives alternatives s
apply_match (let_ assignments) s = let_assignments assignments s
apply_match (set attr_name v) s = set_attribute attr_name v s
apply_match (delete_has_ attr_var owner_var) s = delete_has attr_var owner_var s
apply_match (insert_has_ owner_var attr_name v) s = insert_has owner_var attr_name v s
apply_match delete_thing_ s = delete_thing s

-- The methods of MatchResultStage; FunctionResultStage has all of them but `fetch`.
pub data OutputCall : Type 0 where
  fetch_ : String → List String → OutputCall
  select_ : List String → OutputCall
  sort_ : String → String → OutputCall
  limit_ : ℤ → OutputCall
  offset_ : ℤ → OutputCall

unfoldable pub apply_output : OutputCall → FluentState → FluentState
unfolding fetch select sort_by limit_to offset_by
apply_output (fetch_ var_name attr_names) s = fetch var_name attr_names s
apply_output (select_ vars) s = select vars s
apply_output (sort_ variable direction) s = sort_by variable direction s
apply_output (limit_ count) s = limit_to count s
apply_output (offset_ count) s = offset_by count s

unfoldable pub run_match : List MatchCall → FluentState → FluentState
run_match [] s = s
run_match (c ∷ cs) s = run_match cs (apply_match c s)

unfoldable pub run_output : List OutputCall → FluentState → FluentState
run_output [] s = s
run_output (c ∷ cs) s = run_output cs (apply_output c s)
