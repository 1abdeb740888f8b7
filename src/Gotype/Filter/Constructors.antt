-- ===== src/Gotype/Filter/Constructors.antt =====
-- gotype/filter.go: the functions that make filters.
use go_typeql.Base.{String, true, false, List, ◌<>◌, join}
use go_typeql.Ast.Nodes.{GoValue}
use go_typeql.Gotype.Filter.{
  Filter, Filters, comparison, text, in_, range_, regex, exists_, and_, no_filters, filter_,
  attr_var, sanitize_var,
}

compare_to : String → String → GoValue → Filter
compare_to op attr value =
    comparison (record { attr = attr; op = op; value = value; negated = false })

unfoldable pub eq : String → GoValue → Filter
unfolding compare_to
eq attr value = compare_to "==" attr value

unfoldable pub neq : String → GoValue → Filter
unfolding compare_to
neq attr value = compare_to "!=" attr value

unfoldable pub gt : String → GoValue → Filter
unfolding compare_to
gt attr value = compare_to ">" attr value

unfoldable pub gte : String → GoValue → Filter
unfolding compare_to
gte attr value = compare_to ">=" attr value

unfoldable pub lt : String → GoValue → Filter
unfolding compare_to
lt attr value = compare_to "<" attr value

unfoldable pub lte : String → GoValue → Filter
unfolding compare_to
lte attr value = compare_to "<=" attr value

unfoldable pub contains : String → String → Filter
contains attr pattern_ =
    text (record { attr = attr; op = "contains"; pattern_ = pattern_; negated = false })

unfoldable pub like : String → String → Filter
like attr pattern_ =
    text (record { attr = attr; op = "like"; pattern_ = pattern_; negated = false })

unfoldable pub starts_with : String → String → Filter
unfolding like
starts_with attr prefix = like attr (prefix <> ".*")

unfoldable pub one_of : String → List GoValue → Filter
one_of attr values = in_ (record { attr = attr; values = values; negated = false })

unfoldable pub not_in : String → List GoValue → Filter
not_in attr values = in_ (record { attr = attr; values = values; negated = true })

unfoldable pub range : String → GoValue → GoValue → Filter
range attr min max = range_ (record { attr = attr; min = min; max = max; negated = false })

unfoldable pub matches : String → String → Filter
matches attr pattern_ = regex (record { attr = attr; pattern_ = pattern_; negated = false })

unfoldable pub has_attr : String → Filter
has_attr attr = exists_ (record { attr = attr; negated = false })

unfoldable pub not_has_attr : String → Filter
not_has_attr attr = exists_ (record { attr = attr; negated = true })

unfoldable pub append_filters : Filters → Filters → Filters
append_filters no_filters gs = gs
append_filters (filter_ f fs) gs = filter_ f (append_filters fs gs)

-- The loop of `And`, which takes the filters of a conjunction out of it.
unfoldable pub flatten : Filters → Filters
unfolding append_filters
flatten no_filters = no_filters
flatten (filter_ (and_ gs) fs) = append_filters gs (flatten fs)
flatten (filter_ f fs) = filter_ f (flatten fs)

unfoldable pub conjunction : Filters → Filter
unfolding flatten
conjunction fs = and_ (flatten fs)

unfoldable pub arithmetic_expr : String → String → String → String → String
unfolding sanitize_var
arithmetic_expr var_name left op right =
    "$" <> (attr_var var_name left <> (" " <> (op <> (" $" <> attr_var var_name right))))

unfoldable pub builtin_func_expr : String → List String → String
builtin_func_expr func_name args = func_name <> ("(" <> (join ", " args <> ")"))
