-- ===== src/Gotype/Registry.antt =====
-- gotype/reserved.go and gotype/registry.go: the names that a model may have, and the registry. The mutex
-- makes each call one step, and reflection is a parameter: a Go type is a number with the name of its
-- struct, and a call of `Register` comes with the model that was read of it and its raw tags.
mod Identifiers
mod Names
mod Tests
use Prim.Native.Char.{Char, code}
use Prim.Native.String
use go_typeql.Base.{
  String, Bool, true, false, not, ◌||◌, ◌&&◌, List, [], ◌∷◌, ℕ, ◌+◌, Option, none, some, Result, ok,
  err, ◌==◌, eqb, ltb, leb, equals_lower, Dict, lookup, insert, if◌then◌else◌,
}
use go_typeql.Gotype.Tags.{FieldTag, parse_tag}
use go_typeql.Gotype.Models.{ModelKind, entity_kind, relation_kind, ModelInfo, FieldInfo}

abbrev pub reserved_words : List String
reserved_words =
    "define" ∷ "undefine" ∷ "redefine" ∷ "given" ∷ "match" ∷ "fetch" ∷ "insert" ∷ "delete"
    ∷ "update" ∷ "put" ∷ "select" ∷ "require" ∷ "sort" ∷ "limit" ∷ "offset" ∷ "reduce" ∷ "with"
    ∷ "or" ∷ "not" ∷ "try" ∷ "entity" ∷ "relation" ∷ "attribute" ∷ "struct" ∷ "fun" ∷ "sub"
    ∷ "relates" ∷ "plays" ∷ "value" ∷ "owns" ∷ "alias" ∷ "isa" ∷ "links" ∷ "has" ∷ "is" ∷ "let"
    ∷ "contains" ∷ "like" ∷ "label" ∷ "iid" ∷ "card" ∷ "cascade" ∷ "independent" ∷ "abstract"
    ∷ "key" ∷ "subkey" ∷ "unique" ∷ "values" ∷ "range" ∷ "regex" ∷ "distinct" ∷ "doc" ∷ "meta"
    ∷ "check" ∷ "first" ∷ "count" ∷ "max" ∷ "min" ∷ "mean" ∷ "median" ∷ "std" ∷ "sum" ∷ "list"
    ∷ "boolean" ∷ "integer" ∷ "double" ∷ "decimal" ∷ "datetime-tz" ∷ "datetime_tz" ∷ "datetime"
    ∷ "date" ∷ "duration" ∷ "string" ∷ "round" ∷ "ceil" ∷ "floor" ∷ "abs" ∷ "length" ∷ "true"
    ∷ "false" ∷ "asc" ∷ "desc" ∷ "return" ∷ "of" ∷ "from" ∷ "in" ∷ "as" ∷ []

unfoldable is_among : List String → String → Bool
is_among [] name = false
is_among (word ∷ words) name = equals_lower word name || is_among words name

unfoldable pub is_reserved_word : String → Bool
unfolding is_among
is_reserved_word name = is_among reserved_words name

-- The reason of an InvalidIdentifierError; the number is the position in bytes.
pub data Reason : Type 0 where
  bad_start : Char → Reason
  bad_character : Char → ℕ → Reason

pub data NameError : Type 0 where
  reserved_word : (word context : String) → NameError
  empty_name : (context : String) → NameError
  invalid_identifier : (name context : String) → Reason → NameError

-- How many bytes a character takes.
abbrev width : Char → ℕ
width c =
    let n = code c in
    if ltb n 0x80 then 1 else if ltb n 0x800 then 2 else if ltb n 0x10000 then 3 else 4

-- unicode.IsLetter and unicode.IsDigit.
module _ (is_letter is_digit : Char → Bool) where
  -- The loop from the second character on.
  unfoldable pub later_characters : ℕ → String → Option Reason
  later_characters i String.[] = none
  later_characters i (String.◌∷◌ c s) =
      let rest = later_characters (i + width c) s in
      if is_letter c || is_digit c || eqb (code c) b'-' || eqb (code c) b'_'
      then rest
      else some (bad_character c i)

  unfoldable pub validate_identifier : String → String → Option NameError
  unfolding later_characters
  validate_identifier String.[] context = some (empty_name context)
  validate_identifier (String.◌∷◌ c s) context =
      if is_letter c || eqb (code c) b'_'
      then elim (later_characters (width c) s) [
        | none ↦ none
        | some reason ↦ some (invalid_identifier (String.◌∷◌ c s) context reason)
      ]
      else some (invalid_identifier (String.◌∷◌ c s) context (bad_start c))

  -- What is asked of one name.
  abbrev pub check_name : String → String → Option NameError
  check_name name context =
      if is_reserved_word name
      then some (reserved_word name context)
      else validate_identifier name context

  -- The loops over the fields, which look at the attribute or at the role of each tag.
  unfoldable pub check_fields : (FieldTag → String) → String → List FieldInfo → Option NameError
  unfolding validate_identifier is_reserved_word
  check_fields part context [] = none
  check_fields part context (f ∷ fs) =
      let rest = check_fields part context fs in
      if part f.tag == ""
      then rest
      else elim (check_name (part f.tag) context) [ some e ↦ some e | none ↦ rest ]

  abbrev pub kind_str : ModelKind → String
  kind_str relation_kind = "relation"
  kind_str entity_kind = "entity"

  unfoldable pub validate_model_names : ModelInfo → Option NameError
  unfolding check_fields
  validate_model_names info = elim (check_name info.type_name (kind_str info.kind)) [
    | some e ↦ some e
    | none ↦ elim (check_fields (λ t. t.name) "attribute" info.fields) [
      | some e ↦ some e
      | none ↦ elim info.kind [
        | entity_kind ↦ none
        | relation_kind ↦ check_fields (λ t. t.role_name) "role" info.fields
      ]
    ]
  ]

pub record GoType : Type 0 where
  pub id : ℕ
  pub name : String

pub record Registered : Type 0 where
  pub info : ModelInfo
  pub go_type : GoType
  pub supertype : String

pub record Registry : Type 0 where
  pub by_name : Dict Registered
  pub by_type : List (ℕ × Registered)
  pub by_go_name : Dict Registered

abbrev pub clear_registry : Registry
clear_registry = record { by_name = []; by_type = []; by_go_name = [] }

-- The type name of the first tag that has one.
unfoldable pub override_name : List String → String → String
override_name [] name = name
override_name (text ∷ texts) name =
    let rest = override_name texts name in
    if text == "" then rest else elim (parse_tag text) [
      | err e ↦ rest
      | ok tag ↦ if tag.type_name == "" then rest else tag.type_name
    ]

-- Writes and reads under a Go type.
unfoldable pub insert_type : ℕ → Registered → List (ℕ × Registered) → List (ℕ × Registered)
insert_type k r [] = (k, r) ∷ []
insert_type k r ((j, s) ∷ m) =
    let rest = insert_type k r m in if eqb j k then (k, r) ∷ m else (j, s) ∷ rest

unfoldable pub lookup_type : ℕ → List (ℕ × Registered) → Option Registered
lookup_type k [] = none
lookup_type k ((j, s) ∷ m) = let rest = lookup_type k m in if eqb j k then some s else rest

pub data RegisterError : Type 0 where
  extraction : String → RegisterError
  invalid_name : NameError → RegisterError
  already_registered : (type_name go_name : String) → RegisterError

-- What reflection reads of a type: its model or an error, and the raw tags of its fields.
pub record Candidate : Type 0 where
  pub model : Result String Registered
  pub raw_tags : List String

module _ (is_letter is_digit : Char → Bool) (lower_go_name : String → String) where
  -- The part of `Register` that holds the lock.
  unfoldable pub add_model : Registered → Registry → Option RegisterError × Registry
  unfolding insert_type
  add_model r reg =
      let name = r.info.type_name in
      let added : Registry = record {
        by_name = insert name r reg.by_name;
        by_type = insert_type r.go_type.id r reg.by_type;
        by_go_name = insert (lower_go_name r.go_type.name) r reg.by_go_name;
      } in
      elim (lookup name reg.by_name) [
        | none ↦ (none, added)
        | some existing ↦
            if eqb existing.go_type.id r.go_type.id
            then (none, added)
            else (some (already_registered name existing.go_type.name), reg)
      ]

  unfoldable pub register : Candidate → Registry → Option RegisterError × Registry
  unfolding add_model override_name
  register c reg = elim c.model [
    | err e ↦ (some (extraction e), reg)
    | ok r ↦
        let named : Registered = record r {
          info = record r.info { type_name = override_name c.raw_tags r.info.type_name };
        } in
        elim (validate_model_names is_letter is_digit named.info) [
          | some e ↦ (some (invalid_name e), reg)
          | none ↦ add_model named reg
        ]
  ]

  -- A program's registrations, the errors left aside.
  pub register_each : List Candidate → Registry → Registry
  unfolding register
  register_each [] reg = reg
  register_each (c ∷ cs) reg = register_each cs (register c reg).1

unfoldable pub lookup_model : String → Registry → Option Registered
lookup_model type_name reg = lookup type_name reg.by_name

-- In the order in which the code ranges over the map.
unfoldable pub subtypes_of : String → Dict Registered → List Registered
subtypes_of type_name [] = []
subtypes_of type_name ((k, r) ∷ m) =
    let rest = subtypes_of type_name m in if r.supertype == type_name then r ∷ rest else rest
