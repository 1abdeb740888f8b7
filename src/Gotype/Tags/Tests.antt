-- ===== src/Gotype/Tags/Tests.antt =====
-- Runs of gotype/tags.go on concrete tags.
use go_typeql.Base.{true, pos, some, none, ok, err, ◌≡◌, refl, atoi, arith}
use go_typeql.Gotype.Tags.{
  parse_tag, empty_tag, parse_cardinality, format_card_string, unknown_option,
}
use go_typeql.Gotype.Tags.Cardinality.{parse_cardinality-format_card_string}

keyed_tag :
    parse_tag "user-name, key ,card=1..5"
    ≡ ok (record empty_tag {
      name = "user-name";
      key = true;
      card_min = some (pos 1);
      card_max = some (pos 5);
    })
unfolding parse_tag atoi parse_cardinality
keyed_tag = refl

unknown_tag : parse_tag "name,sorted" ≡ err (unknown_option "sorted")
unfolding parse_tag
unknown_tag = refl

parse_cardinality-format_card_string_example :
    parse_cardinality (format_card_string none (some (pos 12))) ≡ ok (some (pos 0), some (pos 12))
parse_cardinality-format_card_string_example =
    parse_cardinality-format_card_string none (some (pos 12)) tt (omega arith) refl
