-- ===== src/Ast/Literals.antt =====
-- ast/compiler.go: `FormatLiteral`, `FormatGoValue` and their helpers.
pub mod ReadBack
use go_typeql.Base.{String, Bool, false, ◌<>◌, ◌==◌, if◌then◌else◌, pos, itoa}
use go_typeql.Ast.Escape.{escape_string}
use go_typeql.Ast.Nodes.{
  GoValue, TimeText, nil, str, bool, int, uint, float, time, nil_pointer, pointer, other,
}

-- fmt.Sprint(val).
pub sprint : GoValue → String
sprint nil = "<nil>"
sprint (str s) = s
sprint (bool b) = if b then "true" else "false"
sprint (int z) = itoa z
sprint (uint n) = itoa (pos n)
sprint (float f) = f.printed
sprint (time t) = t.printed
sprint nil_pointer = "<nil>"
sprint (pointer s v) = s
sprint (other _ s) = s

pub quote : String → String
quote s = "\"" <> (escape_string s <> "\"")

format_integer : GoValue → String
unfolding sprint
format_integer (int z) = itoa z
format_integer (uint n) = itoa (pos n)
format_integer v = sprint v

format_float : GoValue → String
unfolding sprint
format_float (float f) = f.fixed
format_float v = sprint v

as_string : GoValue → String
as_string (str s) = s
as_string _ = ""

as_bool : GoValue → Bool
as_bool (bool b) = b
as_bool _ = false

format_time : (TimeText → String) → GoValue → String
unfolding sprint
format_time layout (time t) = layout t
format_time layout v = sprint v

unfoldable pub format_literal : GoValue → String → String
unfolding quote format_integer format_float as_string as_bool format_time sprint
format_literal v type =
    if type == "string"
    then quote (as_string v)
    else if type == "boolean"
    then (if as_bool v then "true" else "false")
    else if type == "long"
    then format_integer v
    else if type == "double"
    then format_float v
    else if type == "datetime"
    then format_time (λ t. t.date_time) v
    else if type == "datetime-tz"
    then format_time (λ t. t.rfc3339) v
    else if type == "date"
    then format_time (λ t. t.date) v
    else quote (sprint v)

-- The switch of `FormatGoValue`, behind the loop that follows pointers.
pub format_plain : GoValue → String
unfolding quote sprint
format_plain (str s) = quote s
format_plain (bool b) = if b then "true" else "false"
format_plain (int z) = itoa z
format_plain (uint n) = itoa (pos n)
format_plain (float f) = f.fixed
format_plain (time t) =
    if t.at_midnight then t.date else if t.in_utc then t.date_time else t.rfc3339
format_plain v = quote (sprint v)

pub follow : GoValue → String
unfolding format_plain
follow nil_pointer = "null"
follow (pointer s v) = follow v
follow v = format_plain v

unfoldable pub format_go_value : GoValue → String
unfolding follow
format_go_value nil = "null"
format_go_value v = follow v
