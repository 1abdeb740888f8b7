-- ===== src/Gotype/Sequential/Queries/Literals.antt =====
-- The string literals in the queries of gotype/seq_migrate_state.go, as a reader of TypeQL sees them.
use go_typeql.Base.{
  String, Char, code, ◌<>◌, <>_assoc, nil-<>, cons-<>, false, some, eqb, ◌≡◌, refl, ap, ◌∙◌,
  Bool-cases, inl, inr,
}
use go_typeql.Ast.Escape.{
  replace_all, replace_all-<>, cons-as-<>, read_literal, read_escape, code_eq, prepend,
}
use go_typeql.Gotype.Sequential.Queries.{
  escape_tql, record_query, delete_query, record_head, delete_head, checksum_clause,
}

escape_tql-<> : (s t : String) → escape_tql (s <> t) ≡ escape_tql s <> escape_tql t
unfolding escape_tql
escape_tql-<> s t = simp replace_all-<>

-- One escaped character is read back as that character.
read_literal-escape_tql_char :
    (c : Char) (s : String)
    → read_literal false (escape_tql (String.◌∷◌ c "") <> s)
      ≡ prepend (some c) (read_literal false s)
unfolding escape_tql replace_all read_literal
read_literal-escape_tql_char c s = elim (Bool-cases (eqb (code c) b'\\')) [
  | inl e ↦ rw (code_eq c "\\" e) (read_escape "\\" "\\" s refl)
  | inr e₁ ↦ elim (Bool-cases (eqb (code c) b'"')) [
    | inl e ↦ rw (code_eq c "\"" e) (read_escape "\"" "\"" s refl)
    | inr e₂ ↦ rw (e₁, e₂, cons-<>, nil-<>, e₂, e₁) refl
  ]
]

-- A text that `escapeTQL` has escaped is read back from its literal, and the reader stops at the closing
-- quote, though line breaks and tabs stand in the literal as they are.
pub read_literal-escape_tql :
    (s rest : String) → read_literal false (escape_tql s <> ("\"" <> rest)) ≡ some (s, rest)
unfolding escape_tql replace_all prepend
read_literal-escape_tql String.[] rest = unfold read_literal in rw (nil-<>, cons-<>, nil-<>) refl
read_literal-escape_tql (String.◌∷◌ c s) rest =
    ap (λ t. read_literal false (t <> ("\"" <> rest)))
      (ap escape_tql (cons-as-<> c s) ∙ escape_tql-<> (String.◌∷◌ c "") s)
    ∙ ap (read_literal false)
        (<>_assoc (escape_tql (String.◌∷◌ c "")) (escape_tql s) ("\"" <> rest))
    ∙ read_literal-escape_tql_char c (escape_tql s <> ("\"" <> rest))
    ∙ ap (prepend (some c)) (read_literal-escape_tql s rest)

-- A query that goes on with a literal behind its head, and what a reader of that literal gets.
abbrev pub Names : String → String → String → Type 0
Names head name query =
    (rest : String) × (query ≡ head <> (escape_tql name <> ("\"" <> rest)))
    × (read_literal false (escape_tql name <> ("\"" <> rest)) ≡ some (name, rest))

-- The queries that record and delete a migration name exactly that migration: whatever characters the
-- name has, behind the fixed head of the query stands a literal that is read as the name.
pub record_query-Names :
    (name sum now : String)
    → Names record_head name (record_query name sum now)
      × Names delete_head name (delete_query name)
unfolding record_query delete_query
record_query-Names name sum now = (
  (
    ",\nhas seq-migration-applied-at " <> (now <> (checksum_clause sum <> ";")),
    ap (λ t. record_head <> (escape_tql name <> t))
        (<>_assoc "\"" ",\nhas seq-migration-applied-at " (now <> (checksum_clause sum <> ";"))),
    read_literal-escape_tql name _,
  ),
  (";\ndelete $m;", refl, read_literal-escape_tql name ";\ndelete $m;"),
)
