-- ===== src/Gotype/Migrate/Define.antt =====
-- The define statements of gotype/migrate.go and the annotations of gotype/schema.go.
use go_typeql.Base.{
  String, Char, code, ℕ, ◌/◌, ◌%◌, Bool, ◌||◌, List, [], ◌∷◌, ◌++◌, map, ◌<>◌, ◌==◌, ltb, eqb,
  if◌then◌else◌, join, itoa, pos,
}
use go_typeql.Tqlgen.Model.{EntitySpec, RelationSpec, RelatesSpec, OwnsSpec, MetaSpec}

-- A hexadecimal digit below 16, in lower case.
hex_digit : ℕ → String
hex_digit n =
    if ltb n 10
    then itoa (pos n)
    else if eqb n 10
    then "a"
    else if eqb n 11
    then "b"
    else if eqb n 12
    then "c"
    else if eqb n 13
    then "d"
    else if eqb n 14
    then "e"
    else "f"

-- strconv.Quote of one character, for texts whose characters from 0x80 up are printable.
quote_char : Char → String
unfolding hex_digit
quote_char c =
    if eqb (code c) b'"'
    then "\\\""
    else if eqb (code c) b'\\'
    then "\\\\"
    else if eqb (code c) 7
    then "\\a"
    else if eqb (code c) 8
    then "\\b"
    else if eqb (code c) 12
    then "\\f"
    else if eqb (code c) 10
    then "\\n"
    else if eqb (code c) 13
    then "\\r"
    else if eqb (code c) 9
    then "\\t"
    else if eqb (code c) 11
    then "\\v"
    else if ltb (code c) 32 || eqb (code c) 127
    then "\\x" <> (hex_digit (code c / 16) <> hex_digit (code c % 16))
    else String.◌∷◌ c ""

quote_chars : String → String
unfolding quote_char
quote_chars String.[] = ""
quote_chars (String.◌∷◌ c s) = quote_char c <> quote_chars s

-- strconv.Quote.
unfoldable pub quote : String → String
unfolding quote_chars
quote s = "\"" <> (quote_chars s <> "\"")

unfoldable pub doc_annotation : String → String
unfolding quote
doc_annotation doc = "@doc(" <> (quote doc <> ")")

unfoldable pub meta_annotation : String → String → String
unfolding quote
meta_annotation key value = "@meta(" <> (quote key <> (", " <> (quote value <> ")")))

abbrev pub is_set : String → Bool
is_set s = if s == "" then Bool.false else Bool.true

-- `parts = append(parts, part)` behind an `if`.
abbrev pub add_if : Bool → String → List String → List String
add_if test part parts = if test then parts ++ part ∷ [] else parts

unfoldable pub build_owns_annots : OwnsSpec → String
build_owns_annots o =
    let keyed = add_if o.key "@key" [] in
    let unique = add_if o.unique "@unique" keyed in
    let carded = add_if (is_set o.card) ("@card(" <> (o.card <> ")")) unique in
    let documented = add_if (is_set o.doc) (doc_annotation o.doc) carded in join " " documented

-- The header of a definition: kind and name, then what the type declares.
header_meta : String → List MetaSpec → String
header_meta header [] = header
header_meta header (m ∷ ms) = header_meta (header <> (" " <> meta_annotation m.key m.value)) ms

unfoldable pub type_header : String → Bool → String → List MetaSpec → String → String
unfolding header_meta
type_header start abstract doc meta parent =
    let h₁ = if abstract then start <> " @abstract" else start in
    let h₂ = if is_set doc then h₁ <> (" " <> doc_annotation doc) else h₁ in
    let h₃ = header_meta h₂ meta in if is_set parent then h₃ <> (" sub " <> parent) else h₃

owns_line : OwnsSpec → String
owns_line o =
    let line = "    owns " <> o.attribute in
    let annots = build_owns_annots o in if is_set annots then line <> (" " <> annots) else line

relates_line : RelatesSpec → String
relates_line r =
    let line = "    relates " <> r.role in
    if is_set r.card then line <> (" @card(" <> (r.card <> ")")) else line

unfoldable pub build_entity_define : EntitySpec → String
unfolding owns_line
build_entity_define e =
    let header = type_header ("entity " <> e.name) e.abstract e.doc e.meta e.parent in
    join ",\n" (header ∷ map owns_line e.owns) <> ";"

unfoldable pub build_relation_define : RelationSpec → String
unfolding owns_line relates_line
build_relation_define r =
    let header = type_header ("relation " <> r.name) r.abstract r.doc r.meta r.parent in
    join ",\n" (header ∷ (map relates_line r.relates ++ map owns_line r.owns)) <> ";"
