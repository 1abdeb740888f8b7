-- ===== src/Ast/Builders/Known.antt =====
-- ast/builders.go: the values that `ValueFromGo` makes are known to the compiler.
use go_typeql.Base.{true, ◌≡◌, refl}
use go_typeql.Ast.Nodes.{nil, str, int}
use go_typeql.Ast.Known.{known_value}
use go_typeql.Ast.Builders.{Argument, plain, value_from_go}

pub value_from_go-known : (a : Argument) → known_value (value_from_go a) ≡ true
unfolding value_from_go known_value
value_from_go-known (plain nil) = refl
value_from_go-known (plain (str s)) = refl
value_from_go-known (plain (int z)) = refl
value_from_go-known (plain _) = refl
value_from_go-known _ = refl
