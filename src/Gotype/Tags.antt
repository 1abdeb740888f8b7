-- ===== src/Gotype/Tags.antt =====
-- gotype/tags.go: the `typedb` struct tags, and the cardinality texts of gotype/migrate.go.
pub mod Cardinality
mod Tests
use Prim.Native.String
use go_typeql.Base.{
  leb, String, Char, code, Bool, true, false, not, ◌&&◌, ◌||◌, ◌==◌, ◌<>◌, eqb, ℤ, pos, negsuc,
  List, [], ◌∷◌, ◌++◌, Option, none, some, Result, ok, err, ◌>>=◌, if◌then◌else◌, itoa, atoi,
}

pub record FieldTag : Type 0 where
  pub name : String
  pub key : Bool
  pub unique : Bool
  pub card_min : Option ℤ
  pub card_max : Option ℤ
  pub role_name : String
  pub abstract : Bool
  pub type_name : String
  pub skip : Bool

abbrev pub empty_tag : FieldTag
empty_tag = record {
  name = "";
  key = false;
  unique = false;
  card_min = none;
  card_max = none;
  role_name = "";
  abstract = false;
  type_name = "";
  skip = false;
}

pub data TagError : Type 0 where
  invalid_min invalid_max invalid_format : TagError
  unknown_option : String → TagError

-- strings.HasPrefix and strings.TrimPrefix: what stands behind the prefix, where it is there.
unfoldable pub strip : String → String → Option String
strip String.[] s = some s
strip (String.◌∷◌ c p) String.[] = none
strip (String.◌∷◌ c p) (String.◌∷◌ d s) =
    let rest = strip p s in if eqb (code c) (code d) then rest else none

-- What stands before a final plus sign.
unfoldable pub strip_plus : String → Option String
strip_plus String.[] = none
strip_plus (String.◌∷◌ c String.[]) = if eqb (code c) b'+' then some "" else none
strip_plus (String.◌∷◌ c (String.◌∷◌ d s)) =
    let rest = strip_plus (String.◌∷◌ d s) in
    elim rest [ none ↦ none | some t ↦ some (String.◌∷◌ c t) ]

abbrev pub cons_head : Char → List String → List String
cons_head c [] = String.◌∷◌ c "" ∷ []
cons_head c (p ∷ ps) = String.◌∷◌ c p ∷ ps

-- strings.Split(s, ".."): the flag says that the character before was a dot of its own.
unfoldable pub split_dots : Bool → String → List String
split_dots false String.[] = "" ∷ []
split_dots true String.[] = "." ∷ []
split_dots false (String.◌∷◌ c s) =
    let held = split_dots true s in
    let rest = split_dots false s in if eqb (code c) b'.' then held else cons_head c rest
split_dots true (String.◌∷◌ c s) =
    let rest = split_dots false s in
    if eqb (code c) b'.' then "" ∷ rest else cons_head "." (cons_head c rest)

abbrev pub Bounds : Type 0
Bounds = Option ℤ × Option ℤ

abbrev pub required : TagError → Option ℤ → Result TagError ℤ
required e none = err e
required e (some z) = ok z

unfoldable pub parse_cardinality : String → Result TagError Bounds
unfolding strip_plus split_dots
parse_cardinality s = elim (strip_plus s) [
  | some low ↦ required invalid_min (atoi low) >>= λ min. ok (some min, none)
  | none ↦ elim (split_dots false s) [
    | [] ↦ err invalid_format
    | low ∷ highs ↦ elim highs [
      | [] ↦ err invalid_format
      | high ∷ more ↦ elim more [
        | third ∷ others ↦ err invalid_format
        | [] ↦ required invalid_min (atoi low) >>= λ min.
            if high == ""
            then ok (some min, none)
            else required invalid_max (atoi high) >>= λ max. ok (some min, some max)
      ]
    ]
  ]
]

-- `formatCardString` of gotype/migrate.go.
unfoldable pub format_card_string : Option ℤ → Option ℤ → String
format_card_string none none = ""
format_card_string none (some max) = "0" <> (".." <> itoa max)
format_card_string (some min) none = itoa min <> ".."
format_card_string (some min) (some max) = itoa min <> (".." <> itoa max)

-- The option with a prefix that a part is, its text behind it.
unfoldable pub apply_prefixed : FieldTag → String → Bool → Result TagError FieldTag
unfolding strip
apply_prefixed ft part is_first = elim (strip "role:" part) [
  | some role ↦ ok (record ft { role_name = role })
  | none ↦ elim (strip "type:" part) [
    | some type ↦ ok (record ft { type_name = type })
    | none ↦ elim (strip "card=" part) [
      | some card ↦ parse_cardinality card >>= λ bounds.
          ok (record ft { card_min = bounds.0; card_max = bounds.1 })
      | none ↦ if is_first then ok (record ft { name = part }) else err (unknown_option part)
    ]
  ]
]

unfoldable pub apply_tag_option : FieldTag → String → Bool → Result TagError FieldTag
unfolding apply_prefixed
apply_tag_option ft part is_first =
    if part == "key"
    then ok (record ft { key = true })
    else if part == "unique"
    then ok (record ft { unique = true })
    else if part == "abstract"
    then ok (record ft { abstract = true })
    else if part == "-"
    then ok (record ft { skip = true })
    else apply_prefixed ft part is_first

-- strings.ContainsAny(part, "=:").
unfoldable pub has_mark : String → Bool
has_mark String.[] = false
has_mark (String.◌∷◌ c s) = eqb (code c) b'=' || (eqb (code c) b':' || has_mark s)

unfoldable pub is_bare_name : String → Bool
unfolding has_mark
is_bare_name part =
    not (has_mark part)
    && not (part == "key" || (part == "unique" || (part == "abstract" || part == "-")))

-- unicode.IsSpace.
unfoldable pub is_space : Char → Bool
is_space c =
    let n = code c in
    eqb n 32
    || (leb 9 n && leb n 13)
    || eqb n 0x85
    || eqb n 0xa0
    || eqb n 0x1680
    || (leb 0x2000 n && leb n 0x200a)
    || eqb n 0x2028
    || eqb n 0x2029
    || eqb n 0x202f
    || eqb n 0x205f
    || eqb n 0x3000

unfoldable pub trim_left : String → String
unfolding is_space
trim_left String.[] = ""
trim_left (String.◌∷◌ c s) = let rest = trim_left s in if is_space c then rest else String.◌∷◌ c s

unfoldable pub trim_right : String → String
unfolding is_space
trim_right String.[] = ""
trim_right (String.◌∷◌ c s) =
    let rest = trim_right s in if rest == "" && is_space c then "" else String.◌∷◌ c rest

-- strings.Split(tag, ",").
split_commas : String → List String
split_commas String.[] = "" ∷ []
split_commas (String.◌∷◌ c s) =
    let rest = split_commas s in if eqb (code c) b',' then "" ∷ rest else cons_head c rest

-- The loop over the parts; the flag is `i == 0`.
parse_parts : Bool → FieldTag → List String → Result TagError FieldTag
unfolding apply_tag_option is_bare_name trim_left trim_right
parse_parts is_first ft [] = ok ft
parse_parts is_first ft (raw ∷ raws) =
    let part = trim_right (trim_left raw) in
    let skipped = parse_parts false ft raws in
    let named = parse_parts false (record ft { name = part }) raws in
    if part == ""
    then skipped
    else if is_first && is_bare_name part
    then named
    else apply_tag_option ft part is_first >>= λ changed. parse_parts false changed raws

unfoldable pub parse_tag : String → Result TagError FieldTag
unfolding parse_parts split_commas
parse_tag tag =
    if tag == "" || tag == "-"
    then ok (record empty_tag { skip = tag == "-" })
    else parse_parts true empty_tag (split_commas tag)
