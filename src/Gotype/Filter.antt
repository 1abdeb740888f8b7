-- ===== src/Gotype/Filter.antt =====
-- gotype/filter.go: query filters and the TypeQL patterns that they generate. A filter is the data that
-- its struct holds; `nil` is a nil interface or pointer, on which ToPatterns panics, and `custom` an
-- implementation of the interface in another package. The counter of the scopes is passed on, as one
-- goroutine sees it.
pub mod Constructors
mod Numbers
mod Scopes
mod Flatten
mod Scalars
mod Tests
use go_typeql.Base.{
  String, Bool, true, false, List, [], ◌∷◌, ◌++◌, map, ℕ, ◌+◌, pos, itoa, Result, ok, err, ◌>>=◌,
  ◌<>◌, ◌==◌, join, replace_text, if◌then◌else◌,
}
use go_typeql.Ast.Escape.{replace_all}
use go_typeql.Ast.Nodes.{GoValue, str, nil_pointer, pointer, other}
use go_typeql.Ast.Literals.{format_go_value}

pub record ComparisonFilter : Type 0 where
  pub attr : String
  pub op : String
  pub value : GoValue
  pub negated : Bool

pub record StringFilter : Type 0 where
  pub attr : String
  pub op : String
  pub pattern_ : String
  pub negated : Bool

pub record InFilter : Type 0 where
  pub attr : String
  pub values : List GoValue
  pub negated : Bool

pub record RangeFilter : Type 0 where
  pub attr : String
  pub min : GoValue
  pub max : GoValue
  pub negated : Bool

pub record RegexFilter : Type 0 where
  pub attr : String
  pub pattern_ : String
  pub negated : Bool

pub record ExistsFilter : Type 0 where
  pub attr : String
  pub negated : Bool

pub record ComputedFilter : Type 0 where
  pub var_name : String
  pub expr : String
  pub op : String
  pub value : GoValue

mutual
  pub data Filter : Type 0 where
    comparison : ComparisonFilter → Filter
    text : StringFilter → Filter
    in_ : InFilter → Filter
    range_ : RangeFilter → Filter
    regex : RegexFilter → Filter
    exists_ : ExistsFilter → Filter
    iid : String → Filter
    iid_in : List String → Filter
    and_ : Filters → Filter
    or_ : Filters → Filter
    not_ : Filter → Filter
    role_player : String → Filter → Filter
    computed : ComputedFilter → Filter
    custom : (String → List String) → Filter
    nil : Filter

  pub data Filters : Type 0 where
    no_filters : Filters
    filter_ : Filter → Filters → Filters

pub data Panic : Type 0 where
  not_scalar : String → Panic
  nil_filter : Panic

-- What ToPatterns returns, with the counter behind it.
abbrev pub Outcome : Type 0
Outcome = Result Panic (List String × ℕ)

unfoldable pub is_scalar_filter_value : GoValue → Bool
is_scalar_filter_value (other scalar s) = scalar
is_scalar_filter_value (pointer s v) = is_scalar_filter_value v
is_scalar_filter_value v = true

unfoldable pub sanitize_var : String → String
sanitize_var name = replace_all "-" "_" name

pub wrap_not : List String → List String
wrap_not patterns = ("not { " <> (join " " patterns <> " };")) ∷ []

negate_if : Bool → List String → List String
unfolding wrap_not
negate_if negated patterns = if negated then wrap_not patterns else patterns

abbrev pub attr_var : String → String → String
attr_var var_name attr = sanitize_var (var_name <> ("__" <> attr))

abbrev pub has_pattern : String → String → String
has_pattern var_name attr =
    "$" <> (var_name <> (" has " <> (attr <> (" $" <> (attr_var var_name attr <> ";")))))

-- `$<variable> <operator> <value>;`.
abbrev pub constraint : String → String → String → String
constraint var op value = "$" <> (var <> (" " <> (op <> (" " <> (value <> ";")))))

pub comparison_patterns : ComparisonFilter → String → List String
unfolding sanitize_var negate_if
comparison_patterns f v =
    let var = attr_var v f.attr in
    let equal = has_pattern v f.attr ∷ constraint var "==" (format_go_value f.value) ∷ [] in
    let compared = has_pattern v f.attr ∷ constraint var f.op (format_go_value f.value) ∷ [] in
    if f.op == "==" then negate_if f.negated equal else negate_if f.negated compared

pub text_patterns : StringFilter → String → List String
unfolding sanitize_var negate_if
text_patterns f v = negate_if f.negated (
    has_pattern v f.attr
    ∷ constraint (attr_var v f.attr) f.op (format_go_value (str f.pattern_))
    ∷ [])

abbrev pub impossible : String → String
impossible v = "$" <> (v <> " iid 0xFFFFFFFFFFFFFFFF;")

pub in_patterns : InFilter → String → List String
unfolding sanitize_var negate_if
in_patterns f v = elim f.values [
  | [] ↦ if f.negated then [] else impossible v ∷ []
  | first ∷ more ↦
      let var = attr_var v f.attr in
      let branch =
        λ (value : GoValue). "{ $" <> (var <> (" == " <> (format_go_value value <> "; }"))) in
      negate_if f.negated
        (has_pattern v f.attr ∷ (join " or " (map branch (first ∷ more)) <> ";") ∷ [])
]

pub range_patterns : RangeFilter → String → List String
unfolding sanitize_var negate_if
range_patterns f v =
    let var = attr_var v f.attr in
    negate_if f.negated (
      has_pattern v f.attr
      ∷ constraint var ">=" (format_go_value f.min)
      ∷ constraint var "<=" (format_go_value f.max)
      ∷ [])

pub regex_patterns : RegexFilter → String → List String
unfolding sanitize_var negate_if
regex_patterns f v = negate_if f.negated (
    has_pattern v f.attr
    ∷ constraint (attr_var v f.attr) "like" (format_go_value (str f.pattern_))
    ∷ [])

pub exists_patterns : ExistsFilter → String → List String
unfolding sanitize_var negate_if
exists_patterns f v =
    let pattern = "$" <> (v <> (" has " <> (f.attr <> (" $" <> (attr_var v f.attr <> "__;"))))) in
    negate_if f.negated (pattern ∷ [])

pub iid_pattern : String → String → String
iid_pattern v i = "$" <> (v <> (" iid " <> (i <> ";")))

pub iid_in_patterns : List String → String → List String
unfolding iid_pattern
iid_in_patterns [] v = impossible v ∷ []
iid_in_patterns (i ∷ []) v = iid_pattern v i ∷ []
iid_in_patterns (i ∷ j ∷ more) v =
    let branch = λ (k : String). "{ $" <> (v <> (" iid " <> (k <> "; }"))) in
    (join " or " (map branch (i ∷ j ∷ more)) <> ";") ∷ []

pub computed_patterns : ComputedFilter → List String
unfolding sanitize_var
computed_patterns f =
    let var = sanitize_var f.var_name in
    ("let $" <> (var <> (" = " <> (f.expr <> ";"))))
    ∷ constraint var f.op (format_go_value f.value)
    ∷ []

pub rename_attr_vars : String → String → String → String
rename_attr_vars pattern var_name scoped_name =
    replace_text ("$" <> (var_name <> "__")) ("$" <> (scoped_name <> "__")) pattern

-- The loop that renames in each pattern, for the scope `<variable>_<letter><number>`.
pub rescope : String → String → ℕ → List String → List String
unfolding rename_attr_vars
rescope v letter n patterns =
    map (λ p. rename_attr_vars p v (v <> ("_" <> (letter <> itoa (pos n))))) patterns

-- `all_patterns` and `alternatives` are the loops of AndFilter and OrFilter.
unfoldable mutual
  unfolding is_scalar_filter_value comparison_patterns text_patterns in_patterns range_patterns
      regex_patterns exists_patterns iid_pattern iid_in_patterns computed_patterns rescope wrap_not
      sanitize_var

  pub to_patterns : Filter → String → ℕ → Outcome
  to_patterns (comparison f) v n =
      if is_scalar_filter_value f.value
      then ok (comparison_patterns f v, n)
      else err (not_scalar f.attr)
  to_patterns (text f) v n = ok (text_patterns f v, n)
  to_patterns (in_ f) v n = ok (in_patterns f v, n)
  to_patterns (range_ f) v n = ok (range_patterns f v, n)
  to_patterns (regex f) v n = ok (regex_patterns f v, n)
  to_patterns (exists_ f) v n = ok (exists_patterns f v, n)
  to_patterns (iid i) v n = ok (iid_pattern v i ∷ [], n)
  to_patterns (iid_in is) v n = ok (iid_in_patterns is v, n)
  to_patterns (and_ fs) v n = all_patterns fs v n
  to_patterns (or_ fs) v n = alternatives fs v n >>= λ r. ok ((join " or " r.0 <> ";") ∷ [], r.1)
  to_patterns (not_ f) v n =
      to_patterns f v (n + 1) >>= λ r. ok (wrap_not (rescope v "n" (n + 1) r.0), r.1)
  to_patterns (role_player role f) v n =
      let role_var = sanitize_var role in
      to_patterns f role_var n >>= λ r.
      ok (("$" <> (v <> (" links (" <> (role <> (": $" <> (role_var <> ");")))))) ∷ r.0, r.1)
  to_patterns (computed f) v n = ok (computed_patterns f, n)
  to_patterns (custom g) v n = ok (g v, n)
  to_patterns nil v n = err nil_filter

  pub all_patterns : Filters → String → ℕ → Outcome
  all_patterns no_filters v n = ok ([], n)
  all_patterns (filter_ f fs) v n =
      to_patterns f v n >>= λ r. all_patterns fs v r.1 >>= λ s. ok (r.0 ++ s.0, s.1)

  pub alternatives : Filters → String → ℕ → Outcome
  alternatives no_filters v n = ok ([], n)
  alternatives (filter_ f fs) v n = to_patterns f v (n + 1) >>= λ r. alternatives fs v r.1 >>= λ s.
      ok (("{ " <> (join " " (rescope v "o" (n + 1) r.0) <> " }")) ∷ s.0, s.1)
