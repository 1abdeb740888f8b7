-- ===== src/Gotype/Registry/Tests.antt =====
-- Runs of gotype/registry.go on ASCII names.
use Prim.Native.Char.{Char, code}
use go_typeql.Base.{
  String, Bool, true, false, ◌&&◌, ◌||◌, [], ◌∷◌, ℕ, none, some, ok, leb, equals_lower, lower_code,
  lookup, insert, ◌≡◌, refl,
}
use go_typeql.Gotype.Models.{entity_kind}
use go_typeql.Gotype.Registry.{
  Candidate, bad_character, bad_start, empty_name, invalid_identifier, already_registered,
  clear_registry, is_reserved_word, later_characters, validate_identifier, check_fields,
  validate_model_names, override_name, add_model, register, register_each,
}
use go_typeql.Gotype.Registry.Names.{IsNamed, Holds, register_each-IsNamed}

abbrev is_letter : Char → Bool
is_letter c = leb 97 (code c) && leb (code c) 122 || (leb 65 (code c) && leb (code c) 90)

abbrev is_digit : Char → Bool
is_digit c = leb 48 (code c) && leb (code c) 57

abbrev same_name : String → String
same_name name = name

abbrev model : ℕ → String → String → Candidate
model id go_name type_name = record {
  model = ok (record {
    info = record {
      kind = entity_kind;
      type_name = type_name;
      fields = [];
      roles = [];
      key_fields = [];
    };
    go_type = record { id = id; name = go_name };
    supertype = "";
  });
  raw_tags = [];
}

identifiers :
    (validate_identifier is_letter is_digit "full-name2" "attribute" ≡ none)
    × (validate_identifier is_letter is_digit "" "attribute" ≡ some (empty_name "attribute"))
    × (validate_identifier is_letter is_digit "2nd" "role"
        ≡ some (invalid_identifier "2nd" "role" (bad_start "2")))
    × (validate_identifier is_letter is_digit "_é b" "role"
        ≡ some (invalid_identifier "_é b" "role" (bad_character "é" 1)))
unfolding validate_identifier later_characters
identifiers = (refl, refl, refl, refl)

reserved : (is_reserved_word "Match" ≡ true) × (is_reserved_word "matches" ≡ false)
unfolding is_reserved_word equals_lower lower_code
reserved = (refl, refl)

-- The second type is refused, the first one may be registered again.
taken :
    (register is_letter is_digit same_name (model 2 "Human" "person") (
      register_each is_letter is_digit same_name (model 1 "Person" "person" ∷ []) clear_registry)).0
    ≡ some (already_registered "person" "Person")
unfolding register_each register add_model override_name validate_model_names check_fields
    validate_identifier later_characters is_reserved_word equals_lower lower_code lookup insert
taken = refl

register_each-IsNamed_example :
    IsNamed is_letter is_digit same_name
      (register_each is_letter is_digit same_name (model 1 "Person" "person" ∷ []) clear_registry)
    × Holds is_letter is_digit same_name
        (register_each is_letter is_digit same_name (model 1 "Person" "person" ∷ []) clear_registry)
        (register_each is_letter is_digit same_name
          (model 2 "Human" "person" ∷ model 3 "Match" "match" ∷ [])
          (register_each is_letter is_digit same_name
            (model 1 "Person" "person" ∷ [])
            clear_registry))
register_each-IsNamed_example =
    register_each-IsNamed is_letter is_digit same_name (model 1 "Person" "person" ∷ [])
      (model 2 "Human" "person" ∷ model 3 "Match" "match" ∷ [])
