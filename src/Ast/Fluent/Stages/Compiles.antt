-- ===== src/Ast/Fluent/Stages/Compiles.antt =====
-- ast/fluent.go: the queries that the builders make compile.
use go_typeql.Base.{
  String, Bool, true, ◌&&◌, List, [], ◌∷◌, ◌++◌, Option, none, some, is_ok, ◌≡◌, refl, ap, ap₂, ◌∙◌,
  arith, Bool-cases, inl, inr,
}
use go_typeql.Ast.Nodes.{Constraint, Pattern, Statement, str}
use go_typeql.Ast.Clauses.{Clause, LetAssignment}
use go_typeql.Ast.Compiler.{compile}
use go_typeql.Ast.Joins.{compile_batch-join}
use go_typeql.Ast.Known.{
  all_known, known_constraint, known_pattern, known_patterns, known_alternatives, known_statement,
  known_let, known_fetch_item, known_clause, known_node, known_value,
}
use go_typeql.Ast.Known.Total.{is_ok-bind, is_ok-map_result, is_ok-compile}
use go_typeql.Ast.Builders.{plain, alternatives_of, patterns_of, or_pattern}
use go_typeql.Ast.Builders.Known.{value_from_go-known}
use go_typeql.Ast.Fluent.{
  FluentState, nodes, build, clause_if, clause_of, match_node, add_pattern_constraint,
  constrain_first, fluent_match, ensure_var,
}
use go_typeql.Ast.Fluent.Stages.{
  MatchCall, OutputCall, has, iid, by_identifier, where_, or_, let_, set, delete_has_, insert_has_,
  delete_thing_, fetch_, fetch_attrs, apply_match, apply_output, run_match, run_output, is_iid,
}

module _ {A : Type 0} (p : A → Bool) where
  all_known-append : (xs ys : List A) → all_known p (xs ++ ys) ≡ (all_known p xs && all_known p ys)
  all_known-append [] ys = refl
  all_known-append (x ∷ xs) ys = ground (arith, all_known-append xs ys)

  all_known-both :
      (xs ys : List A)
      → all_known p xs ≡ true
      → all_known p ys ≡ true
      → all_known p (xs ++ ys) ≡ true
  all_known-both xs ys h k = all_known-append xs ys ∙ rw (h, k) refl

pub record IsKnown (s : FluentState) : Type 0 where
  pub patterns : all_known known_pattern s.match_patterns ≡ true
  pub lets : all_known known_let s.match_let ≡ true
  pub deletes : all_known known_statement s.delete_statements ≡ true
  pub inserts : all_known known_statement s.insert_statements ≡ true
  pub fetches : all_known known_fetch_item s.fetch_items ≡ true

clause_if-known :
    {A : Type 0} (make : List A → Clause) (xs : List A)
    → known_clause (make xs) ≡ true
    → all_known known_node (clause_if make xs) ≡ true
clause_if-known make [] h = refl
clause_if-known make (x ∷ xs) h = rw h refl

clause_of-known :
    {A : Type 0} (make : A → Clause) (o : Option A)
    → ((x : A) → known_clause (make x) ≡ true)
    → all_known known_node (clause_of make o) ≡ true
clause_of-known make none h = refl
clause_of-known make (some x) h = rw (h x) refl

match_node-known :
    (ps : List Pattern) (as_ : List LetAssignment)
    → all_known known_pattern ps ≡ true
    → all_known known_let as_ ≡ true
    → all_known known_node (match_node ps as_) ≡ true
match_node-known ps [] h k = clause_if-known Clause.match_ ps h
match_node-known ps (a ∷ as_) h k = rw (h, k) refl

nodes-known : (s : FluentState) → IsKnown s → all_known known_node (nodes s) ≡ true
unfolding nodes
nodes-known s h = simp (
  all_known-append,
  match_node-known s.match_patterns s.match_let h.patterns h.lets,
  clause_if-known Clause.delete s.delete_statements h.deletes,
  clause_if-known Clause.insert s.insert_statements h.inserts,
  clause_if-known Clause.fetch s.fetch_items h.fetches,
  clause_if-known Clause.select s.select_vars refl,
  clause_of-known Clause.sort s.sort_clause (λ _. refl),
  clause_of-known Clause.offset s.offset_clause (λ _. refl),
  clause_of-known Clause.limit s.limit_clause (λ _. refl),
)

is_ok-build : (s : FluentState) → IsKnown s → is_ok (build s) ≡ true
unfolding build
is_ok-build s h =
    ap is_ok (compile_batch-join (nodes s) "")
    ∙ (is_ok-bind _ _
        ∙ (is_ok-map_result compile known_node (nodes s) is_ok-compile ∙ nodes-known s h))

patterns_of-known :
    (ps : List Pattern) → known_patterns (patterns_of ps) ≡ all_known known_pattern ps
unfolding known_patterns
patterns_of-known [] = refl
patterns_of-known (p ∷ ps) = ap (λ b. known_pattern p && b) (patterns_of-known ps)

alternatives_of-known :
    (alts : List (List Pattern))
    → known_alternatives (alternatives_of alts) ≡ all_known (all_known known_pattern) alts
unfolding known_alternatives
alternatives_of-known [] = refl
alternatives_of-known (ps ∷ alts) =
    ap₂ (λ a b. a && b) (patterns_of-known ps) (alternatives_of-known alts)

fetch_attrs-known :
    (v : String) (attrs : List String) → all_known known_fetch_item (fetch_attrs v attrs) ≡ true
unfolding fetch_attrs
fetch_attrs-known v [] = refl
fetch_attrs-known v (a ∷ attrs) = fetch_attrs-known v attrs

-- The patterns and assignments that a call brings with it are known.
unfoldable pub call_known : MatchCall → Bool
call_known (where_ ps) = all_known known_pattern ps
call_known (or_ alts) = all_known (all_known known_pattern) alts
call_known (let_ as_) = all_known known_let as_
call_known _ = true

constrain_first-known :
    (c : Constraint) (ps : List Pattern)
    → known_constraint c ≡ true
    → all_known known_pattern ps ≡ true
    → all_known known_pattern (constrain_first c ps) ≡ true
unfolding constrain_first known_pattern
constrain_first-known c [] k h = refl
constrain_first-known c (Pattern.entity p ∷ ps) k h =
    ground (arith, all_known-append known_constraint p.constraints (c ∷ []))
constrain_first-known c (_ ∷ ps) k h = h

-- A changed list of patterns, deletions or insertions, each with what was there and what is added.
module _ {s : FluentState} (h : IsKnown s) where
  patterns-IsKnown :
      (ps : List Pattern)
      → all_known known_pattern ps ≡ true
      → IsKnown (record s { match_patterns = ps })
  patterns-IsKnown ps k = ground arith

  constraint-IsKnown :
      (c : Constraint) → known_constraint c ≡ true → IsKnown (add_pattern_constraint c s)
  unfolding add_pattern_constraint
  constraint-IsKnown c k =
      patterns-IsKnown (constrain_first c s.match_patterns)
        (constrain_first-known c s.match_patterns k h.patterns)

  added-IsKnown :
      (ps : List Pattern)
      → all_known known_pattern ps ≡ true
      → IsKnown (record s { match_patterns = s.match_patterns ++ ps })
  added-IsKnown ps k =
      patterns-IsKnown (s.match_patterns ++ ps)
        (all_known-both known_pattern s.match_patterns ps h.patterns k)

  delete-IsKnown :
      (st : Statement)
      → known_statement st ≡ true
      → IsKnown (record s { delete_statements = s.delete_statements ++ st ∷ [] })
  delete-IsKnown st k =
      ground (arith, all_known-append known_statement s.delete_statements (st ∷ []))

  insert-IsKnown :
      (st : Statement)
      → known_statement st ≡ true
      → IsKnown (record s { insert_statements = s.insert_statements ++ st ∷ [] })
  insert-IsKnown st k =
      ground (arith, all_known-append known_statement s.insert_statements (st ∷ []))

  let-IsKnown :
      (as_ : List LetAssignment)
      → all_known known_let as_ ≡ true
      → IsKnown (record s { match_let = s.match_let ++ as_ })
  let-IsKnown as_ k = ground (arith, all_known-append known_let s.match_let as_)

apply_match-IsKnown :
    (c : MatchCall) (s : FluentState) → call_known c ≡ true → IsKnown s → IsKnown (apply_match c s)
unfolding apply_match call_known known_pattern known_value
apply_match-IsKnown (has attr v) s k h = constraint-IsKnown h _ (value_from_go-known v)
apply_match-IsKnown (iid i) s k h = constraint-IsKnown h _ refl
apply_match-IsKnown (by_identifier i attr m) s k h = elim (Bool-cases (is_iid m i)) [
  | inl e ↦ rw e (constraint-IsKnown h _ refl)
  | inr e ↦ rw e (constraint-IsKnown h _ (value_from_go-known (plain (str i))))
]
apply_match-IsKnown (where_ ps) s k h = added-IsKnown h ps k
apply_match-IsKnown (or_ alts) s k h =
    added-IsKnown h (or_pattern alts ∷ []) (ground (arith, alternatives_of-known alts))
apply_match-IsKnown (let_ as_) s k h = let-IsKnown h as_ k
apply_match-IsKnown (set attr v) s k h =
    insert-IsKnown (delete-IsKnown (added-IsKnown h _ refl) _ refl) _ (value_from_go-known v)
apply_match-IsKnown (delete_has_ attr owner) s k h = delete-IsKnown h _ refl
apply_match-IsKnown (insert_has_ owner attr v) s k h = insert-IsKnown h _ (value_from_go-known v)
apply_match-IsKnown delete_thing_ s k h = delete-IsKnown h _ refl

run_match-IsKnown :
    (cs : List MatchCall) (s : FluentState)
    → all_known call_known cs ≡ true
    → IsKnown s
    → IsKnown (run_match cs s)
unfolding run_match
run_match-IsKnown [] s k h = h
run_match-IsKnown (c ∷ cs) s k h =
    run_match-IsKnown cs (apply_match c s) (ground arith) (apply_match-IsKnown c s (ground arith) h)

apply_output-IsKnown : (c : OutputCall) (s : FluentState) → IsKnown s → IsKnown (apply_output c s)
unfolding apply_output
apply_output-IsKnown (fetch_ v attrs) s h = ground (
  arith,
  all_known-append known_fetch_item s.fetch_items (fetch_attrs (ensure_var v) attrs),
  fetch_attrs-known (ensure_var v) attrs,
)
apply_output-IsKnown _ s h = ground arith

run_output-IsKnown :
    (cs : List OutputCall) (s : FluentState) → IsKnown s → IsKnown (run_output cs s)
unfolding run_output
run_output-IsKnown [] s h = h
run_output-IsKnown (c ∷ cs) s h =
    run_output-IsKnown cs (apply_output c s) (apply_output-IsKnown c s h)

fluent_match-IsKnown : (var type : String) → IsKnown (fluent_match var type)
unfolding fluent_match known_pattern
fluent_match-IsKnown var type = ground arith

-- Every query that is begun by FluentMatch, continued by any calls of the match stage and then any
-- calls of the output stage compiles, where the patterns and assignments given to Where, Or and Let
-- have no nil or foreign part. All other arguments may be anything.
pub is_ok-fluent_match :
    (var type : String) (cs : List MatchCall) (ds : List OutputCall)
    → all_known call_known cs ≡ true
    → is_ok (build (run_output ds (run_match cs (fluent_match var type)))) ≡ true
is_ok-fluent_match var type cs ds k = is_ok-build _ (
    run_output-IsKnown ds _
      (run_match-IsKnown cs (fluent_match var type) k (fluent_match-IsKnown var type)))
