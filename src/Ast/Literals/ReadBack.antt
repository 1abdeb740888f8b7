-- ===== src/Ast/Literals/ReadBack.antt =====
-- What a reader makes of the literals that ast/compiler.go writes for strings.
use go_typeql.Base.{
  false, String, code, eqb, if◌then◌else◌, ◌<>◌, <>_assoc, cons-<>, nil-<>, Option, none, some, ◌≡◌,
  refl, ap, ◌∙◌,
}
use go_typeql.Ast.Escape.{read_literal, read_literal-escape_string}
use go_typeql.Ast.Nodes.{GoValue, str, pointer, nil}
use go_typeql.Ast.Literals.{quote, follow, format_literal, format_go_value}

-- A reader of a quoted literal: the opening quote, and what `read_literal` makes of the rest.
pub read_quoted : String → Option (String × String)
read_quoted String.[] = none
read_quoted (String.◌∷◌ c s) = if eqb (code c) b'"' then read_literal false s else none

read_quoted-quote : (s rest : String) → read_quoted (quote s <> rest) ≡ some (s, rest)
unfolding read_quoted quote
read_quoted-quote s rest =
    rw (<>_assoc, <>_assoc, cons-<>, nil-<>) (read_literal-escape_string s rest)

-- The string that a value holds, behind any number of pointers.
unfoldable pub string_behind : GoValue → Option String
string_behind (str s) = some s
string_behind (pointer _ v) = string_behind v
string_behind _ = none

follow_string : (v : GoValue) (s : String) → string_behind v ≡ some s → follow v ≡ quote s
unfolding follow string_behind
follow_string (str t) s e = ap quote (cc)
follow_string (pointer _ v) s e = follow_string v s e
follow_string _ s e = cc

format_go_value_string :
    (v : GoValue) (s : String) → string_behind v ≡ some s → format_go_value v ≡ quote s
unfolding format_go_value string_behind
format_go_value_string nil s e = cc
format_go_value_string (str t) s e = follow_string (str t) s e
format_go_value_string (pointer p v) s e = follow_string (pointer p v) s e
format_go_value_string _ s e = cc

-- `FormatGoValue` of a string, directly or behind pointers, agrees with `FormatLiteral` of that
-- string as a "string"; and whatever text follows the literal, a reader of it gets the string back
-- and stops exactly where that text begins.
pub read_quoted-format_go_value :
    (v : GoValue) (s rest : String)
    → string_behind v ≡ some s
    → (format_go_value v ≡ format_literal (str s) "string")
      × (read_quoted (format_go_value v <> rest) ≡ some (s, rest))
read_quoted-format_go_value v s rest e =
    let formatted = format_go_value_string v s e in
    (formatted ∙ unfold format_literal in refl, rw formatted (read_quoted-quote s rest))
