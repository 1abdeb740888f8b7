-- ===== src/Gotype/Filter/Tests.antt =====
-- Runs of gotype/filter.go on concrete filters.
use go_typeql.Base.{false, [], ◌∷◌, pos, ok, err, is_ok, ◌≡◌, refl, join, replace_text, itoa}
use go_typeql.Ast.Nodes.{str, int, other}
use go_typeql.Ast.Escape.{replace_all, escape_string}
use go_typeql.Ast.Literals.{format_go_value}
use go_typeql.Gotype.Filter.{
  Filter, Filters, and_, or_, not_, no_filters, filter_, to_patterns, not_scalar,
}
use go_typeql.Gotype.Filter.Constructors.{eq, starts_with, not_in, conjunction}
use go_typeql.Gotype.Filter.Flatten.{to_patterns-conjunction}
use go_typeql.Gotype.Filter.Scalars.{is_sound, is_ok-to_patterns}

abbrev named : Filter
named = not_ (eq "full-name" (str "A"))

abbrev either : Filters
either = filter_ (eq "a" (int (pos 1))) (filter_ (not_in "b" []) no_filters)

equal_patterns :
    to_patterns (eq "full-name" (str "A\"B")) "e" 0
    ≡ ok ("$e has full-name $e__full_name;" ∷ "$e__full_name == \"A\\\"B\";" ∷ [], 0)
unfolding to_patterns eq join replace_text replace_all itoa format_go_value escape_string
equal_patterns = refl

-- A branch that asks for nothing is an empty block.
either_patterns :
    to_patterns (or_ either) "e" 4 ≡ ok ("{ $e has a $e_o5__a; $e_o5__a == 1; } or {  };" ∷ [], 6)
unfolding to_patterns eq not_in join replace_text replace_all itoa format_go_value escape_string
either_patterns = refl

-- A negation renames inside the value that is compared with.
renamed_value :
    to_patterns (not_ (eq "name" (str "$e__x"))) "e" 0
    ≡ ok ("not { $e has name $e_n1__name; $e_n1__name == \"$e_n1__x\"; };" ∷ [], 1)
unfolding to_patterns eq join replace_text replace_all itoa format_go_value escape_string
renamed_value = refl

starts_with_patterns :
    to_patterns (starts_with "name" "a.") "e" 0
    ≡ ok ("$e has name $e__name;" ∷ "$e__name like \"a..*\";" ∷ [], 0)
unfolding to_patterns starts_with join replace_text replace_all itoa format_go_value escape_string
starts_with_patterns = refl

panics : to_patterns (eq "name" (other false "[1 2]")) "e" 0 ≡ err (not_scalar "name")
unfolding to_patterns eq join replace_text replace_all itoa format_go_value escape_string
panics = refl

to_patterns-conjunction_example :
    to_patterns (conjunction (filter_ (and_ either) (filter_ named no_filters))) "e" 0
    ≡ to_patterns (and_ (filter_ (and_ either) (filter_ named no_filters))) "e" 0
to_patterns-conjunction_example =
    to_patterns-conjunction (filter_ (and_ either) (filter_ named no_filters)) "e" 0

is_ok-to_patterns_example : is_ok (to_patterns named "e" 3) ≡ is_sound named
is_ok-to_patterns_example = is_ok-to_patterns named "e" 3
