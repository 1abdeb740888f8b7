-- ===== src/Gotype/Query/Text.antt =====
-- gotype/query.go: the text of a query, line by line.
use go_typeql.Base.{
  String, true, false, List, [], ◌∷◌, ◌++◌, map, ℕ, ℤ, pos, itoa, ltb_ℤ, ok, ◌>>=◌, ◌<>◌, <>_assoc,
  <>-nil, join, separated, separated-append, if◌then◌else◌, ◌≡◌, refl, sym, ap, ◌∙◌, Result-cases,
  Bool-cases, inl, inr,
}
use go_typeql.Gotype.Models.{ModelInfo}
use go_typeql.Gotype.Filter.{all_patterns}
use go_typeql.Gotype.Query.{
  Query, OrderClause, sort_var, write_lines, write_sort_has, write_sort_keys, write_sort,
  write_count, build_match_clause, build_query,
}

abbrev pub has_line : OrderClause → String
has_line o = "$e has " <> (o.attr <> (" " <> (sort_var o <> ";")))

abbrev pub sort_key : OrderClause → String
sort_key o = sort_var o <> (if o.desc then " desc" else " asc")

-- The lines that sort: each attribute is bound first, then the keys stand on one line.
abbrev pub sort_lines : List OrderClause → List String
sort_lines [] = []
sort_lines (o ∷ os) =
    map has_line (o ∷ os) ++ ("sort " <> (join ", " (map sort_key (o ∷ os)) <> ";")) ∷ []

abbrev pub count_lines : String → ℤ → List String
count_lines keyword n = if ltb_ℤ (pos 0) n then (keyword <> (" " <> (itoa n <> ";"))) ∷ [] else []

write_lines-separated : (b : String) (ps : List String) → write_lines b ps ≡ b <> separated "\n" ps
unfolding write_lines separated
write_lines-separated b [] = sym (<>-nil b)
write_lines-separated b (p ∷ ps) = write_lines-separated ((b <> "\n") <> p) ps ∙ simp <>_assoc

write_sort_has-separated :
    (b : String) (os : List OrderClause)
    → write_sort_has b os ≡ b <> separated "\n" (map has_line os)
unfolding write_sort_has separated
write_sort_has-separated b [] = sym (<>-nil b)
write_sort_has-separated b (o ∷ os) =
    let split = <>_assoc "\n" "$e has " (o.attr <> (" " <> (sort_var o <> ";"))) in
    write_sort_has-separated (b <> ("\n$e has " <> (o.attr <> (" " <> (sort_var o <> ";"))))) os
    ∙ (ap (λ t. (b <> t) <> separated "\n" (map has_line os)) split ∙ simp <>_assoc)

write_sort_keys-separated :
    (b : String) (os : List OrderClause)
    → write_sort_keys true b os ≡ b <> separated ", " (map sort_key os)
unfolding write_sort_keys separated
write_sort_keys-separated b [] = sym (<>-nil b)
write_sort_keys-separated b (o ∷ os) =
    write_sort_keys-separated ((b <> ", ") <> sort_key o) os ∙ simp <>_assoc

write_sort_keys-join :
    (b : String) (o : OrderClause) (os : List OrderClause)
    → write_sort_keys false b (o ∷ os) ≡ b <> join ", " (map sort_key (o ∷ os))
unfolding write_sort_keys join
write_sort_keys-join b o os = write_sort_keys-separated (b <> sort_key o) os ∙ simp <>_assoc

write_sort-separated :
    (b : String) (os : List OrderClause) → write_sort b os ≡ b <> separated "\n" (sort_lines os)
write_sort-separated b [] = unfold write_sort separated in sym (<>-nil b)
write_sort-separated b (o ∷ os) =
    let keys = join ", " (map sort_key (o ∷ os)) in
    let last = "sort " <> (keys <> ";") in
    let has = separated "\n" (map has_line (o ∷ os)) in
    let written : write_sort b (o ∷ os) ≡ (((b <> has) <> "\nsort ") <> keys) <> ";" =
      unfold write_sort in
      ap (λ t. t <> ";")
        (write_sort_keys-join (write_sort_has b (o ∷ os) <> "\nsort ") o os
          ∙ ap (λ t. (t <> "\nsort ") <> keys) (write_sort_has-separated b (o ∷ os))) in
    let regrouped : (((b <> has) <> "\nsort ") <> keys) <> ";"
        ≡ b <> (has <> ("\nsort " <> (keys <> ";"))) =
      simp <>_assoc in
    let closing : "\nsort " <> (keys <> ";") ≡ separated "\n" (last ∷ []) =
      unfold separated in
      <>_assoc "\n" "sort " (keys <> ";") ∙ ap (λ t. "\n" <> t) (sym (<>-nil last)) in
    written
    ∙ (regrouped
        ∙ (ap (λ t. b <> (has <> t)) closing
            ∙ ap (λ t. b <> t) (sym (separated-append "\n" (map has_line (o ∷ os)) (last ∷ [])))))

write_count-separated :
    (b keyword : String) (n : ℤ)
    → write_count b keyword n ≡ b <> separated "\n" (count_lines keyword n)
unfolding write_count separated
write_count-separated b keyword n = elim (Bool-cases (ltb_ℤ (pos 0) n)) [
  | inl e ↦ rw (write_count, e) (simp (<>-nil))
  | inr e ↦ rw (write_count, e) (sym (<>-nil b))
]

-- The lines of a query behind its match.
abbrev pub tail_lines : Query → String → List String
tail_lines q fetch =
    sort_lines q.order_by
    ++ (count_lines "offset" q.offset ++ (count_lines "limit" q.limit ++ fetch ∷ []))

separated_one : (sep p : String) → separated sep (p ∷ []) ≡ sep <> p
unfolding separated
separated_one sep p = ap (λ t. sep <> t) (<>-nil p)

tail-separated :
    (b fetch : String) (q : Query)
    → write_count (write_count (write_sort b q.order_by) "offset" q.offset) "limit" q.limit
        <> ("\n" <> fetch)
      ≡ b <> separated "\n" (tail_lines q fetch)
tail-separated b fetch q =
    simp (write_count-separated, write_sort-separated, separated-append, separated_one, <>_assoc)

two_heads :
    (p q : String) (ps qs : List String)
    → ((p <> ("\n" <> q)) <> separated "\n" ps) <> separated "\n" qs
      ≡ join "\n" (p ∷ q ∷ (ps ++ qs))
two_heads p q ps qs =
    let opened : p <> ("\n" <> (q <> separated "\n" (ps ++ qs))) ≡ join "\n" (p ∷ q ∷ (ps ++ qs)) =
      unfold join separated in refl in
    let regrouped : ((p <> ("\n" <> q)) <> separated "\n" ps) <> separated "\n" qs
        ≡ p <> ("\n" <> (q <> (separated "\n" ps <> separated "\n" qs))) =
      simp <>_assoc in
    regrouped ∙ (ap (λ t. p <> ("\n" <> (q <> t))) (sym (separated-append "\n" ps qs)) ∙ opened)

-- A query is these lines, whatever the model, the filters and the settings: the match of the type, a line
-- for each pattern of the filters in their order, where there is an order a line that binds each sorting
-- attribute and one that lists the keys, the offset and the limit where they are positive, and the fetch.
-- The filters alone decide whether it panics.
pub build_query-join :
    (info : ModelInfo) (fetch : String) (q : Query) (n : ℕ)
    → build_query info fetch q n
      ≡ all_patterns q.filters "e" n >>= λ r. ok (
        join "\n" ("match" ∷ ("$e isa " <> (info.type_name <> ";")) ∷ (r.0 ++ tail_lines q fetch)),
        r.1,
      )
unfolding build_query build_match_clause
build_query-join info fetch q n = elim (Result-cases (all_patterns q.filters "e" n)) [
  | inr (e, p) ↦ rw p refl
  | inl ((ps, k), p) ↦
      let kind = info.type_name <> ";" in
      let head : "match\n$e isa " <> kind ≡ "match" <> ("\n" <> ("$e isa " <> kind)) =
        <>_assoc "match\n" "$e isa " kind ∙ <>_assoc "match" "\n" ("$e isa " <> kind) in
      let matched = write_lines-separated ("match\n$e isa " <> kind) ps in
      let body : (("match" <> ("\n" <> ("$e isa " <> kind))) <> separated "\n" ps)
            <> separated "\n" (tail_lines q fetch)
          ≡ join "\n" ("match" ∷ ("$e isa " <> kind) ∷ (ps ++ tail_lines q fetch)) =
        two_heads "match" ("$e isa " <> kind) ps (tail_lines q fetch) in
      rw p (
        ap (λ t. ok (t, k))
          (tail-separated (write_lines ("match\n$e isa " <> kind) ps) fetch q
            ∙ (ap (λ t. t <> separated "\n" (tail_lines q fetch))
                  (matched ∙ ap (λ t. t <> separated "\n" ps) head)
                ∙ body)))
]
