-- ===== src/Gotype/Filter/Numbers.antt =====
-- gotype/filter.go: the numbers that Not and Or give to their scopes.
use go_typeql.Base.{
  String, List, [], ◌∷◌, map, ℕ, ◌+◌, ◌≤◌, ◌<◌, ◌<>◌, join, ◌≡◌, ok, >>=-eq-ok, ap, sym, subst, ◌∙◌,
  arith, inl, inr, Bool-cases,
}
use go_typeql.Gotype.Filter.{
  Filter, Filters, comparison, and_, or_, not_, role_player, nil, no_filters, filter_, to_patterns,
  all_patterns, alternatives, is_scalar_filter_value, sanitize_var, rescope, wrap_not, Outcome,
}

counts : {ps qs : List String} {m n : ℕ} → ◌≡◌ {A = Outcome} (ok (ps, n)) (ok (qs, m)) → n ≤ m
counts {ps} {qs} {m} {n} h = let e : n ≡ m = cc in omega (arith, e)

-- A translation never takes the counter back.
mutual
  unfolding to_patterns all_patterns alternatives

  to_patterns-counts :
      (f : Filter) (v : String) (n : ℕ) {ps : List String} {m : ℕ}
      → to_patterns f v n ≡ ok (ps, m)
      → n ≤ m
  to_patterns-counts (comparison f) v n h = elim (Bool-cases (is_scalar_filter_value f.value)) [
    | inl e ↦ counts (rw e at h)
    | inr e ↦ cc (rw e at h)
  ]
  to_patterns-counts (and_ fs) v n h = all_patterns-counts fs v n h
  to_patterns-counts (or_ fs) v n h =
      let (r, first, last) = >>=-eq-ok (alternatives fs v n) _ h in
      omega (arith, alternatives-counts fs v n first, counts last)
  to_patterns-counts (not_ f) v n h =
      let (r, first, last) = >>=-eq-ok (to_patterns f v (n + 1)) _ h in
      omega (arith, to_patterns-counts f v (n + 1) first, counts last)
  to_patterns-counts (role_player role f) v n h =
      let (r, first, last) = >>=-eq-ok (to_patterns f (sanitize_var role) n) _ h in
      omega (arith, to_patterns-counts f (sanitize_var role) n first, counts last)
  to_patterns-counts nil v n h = cc h
  to_patterns-counts _ v n h = counts h

  all_patterns-counts :
      (fs : Filters) (v : String) (n : ℕ) {ps : List String} {m : ℕ}
      → all_patterns fs v n ≡ ok (ps, m)
      → n ≤ m
  all_patterns-counts no_filters v n h = counts h
  all_patterns-counts (filter_ f fs) v n h =
      let (r, first, more) = >>=-eq-ok (to_patterns f v n) _ h in
      let (s, later, last) = >>=-eq-ok (all_patterns fs v r.1) _ more in
      omega (arith, to_patterns-counts f v n first, all_patterns-counts fs v r.1 later, counts last)

  alternatives-counts :
      (fs : Filters) (v : String) (n : ℕ) {ps : List String} {m : ℕ}
      → alternatives fs v n ≡ ok (ps, m)
      → n ≤ m
  alternatives-counts no_filters v n h = counts h
  alternatives-counts (filter_ f fs) v n h =
      let (r, first, more) = >>=-eq-ok (to_patterns f v (n + 1)) _ h in
      let (s, later, last) = >>=-eq-ok (alternatives fs v r.1) _ more in
      omega (
        arith,
        to_patterns-counts f v (n + 1) first,
        alternatives-counts fs v r.1 later,
        counts last,
      )

-- A scope: its number and the patterns that stand in it under its name.
abbrev Scope : Type 0
Scope = ℕ × List String

abbrev branch_text : String → Scope → String
branch_text v (k, inner) = "{ " <> (join " " (rescope v "o" k inner) <> " }")

-- The filter of a scope numbered k is translated with the numbers up to some next one; these are the
-- numbers of the scopes inside it.
abbrev Holds : Filter → String → Scope → ℕ → Type 0
Holds f v (k, inner) next = (to_patterns f v k ≡ ok (inner, next)) × (k ≤ next)

-- The branches of an alternative are numbered upwards, each with a number above those of the branches
-- before it and of the scopes inside these.
abbrev Branches : Filters → String → ℕ → ℕ → List Scope → Type 0
Branches no_filters v n m [] = n ≡ m
Branches (filter_ f fs) v n m (scope ∷ scopes) =
    (n < scope.0) × (next : ℕ) × Holds f v scope next × Branches fs v next m scopes
Branches fs v n m scopes = ⊥

-- What a negation or an alternative generates from a counter n to a counter m, with its scopes.
abbrev pub Numbered : Filter → String → ℕ → List String → ℕ → Type 0
Numbered (not_ f) v n ps m =
    (scope : Scope) × (n < scope.0)
    × Holds f v scope m
    × (ps ≡ wrap_not (rescope v "n" scope.0 scope.1))
Numbered (or_ fs) v n ps m =
    (scopes : List Scope) × Branches fs v n m scopes
    × (ps ≡ (join " or " (map (branch_text v) scopes) <> ";") ∷ [])
Numbered f v n ps m = ⊥

alternatives-Branches :
    (fs : Filters) (v : String) (n : ℕ) {ps : List String} {m : ℕ}
    → alternatives fs v n ≡ ok (ps, m)
    → (scopes : List Scope) × Branches fs v n m scopes × (ps ≡ map (branch_text v) scopes)
unfolding alternatives
alternatives-Branches no_filters v n h = ([], cc, cc)
alternatives-Branches (filter_ f fs) v n {ps} {m} h =
    let (r, first, more) = >>=-eq-ok (to_patterns f v (n + 1)) _ h in
    let (s, later, last) = >>=-eq-ok (alternatives fs v r.1) _ more in
    let (scopes, numbered, texts) = alternatives-Branches fs v r.1 later in
    let end : s.1 ≡ m = cc in
    (
      (n + 1, r.0) ∷ scopes,
      (
        omega arith,
        r.1,
        (first, to_patterns-counts f v (n + 1) first),
        subst (λ k. Branches fs v r.1 k scopes) end numbered,
      ),
      cc,
    )

pub not-Numbered :
    (f : Filter) (v : String) (n : ℕ) (ps : List String) (m : ℕ)
    → to_patterns (not_ f) v n ≡ ok (ps, m)
    → Numbered (not_ f) v n ps m
unfolding to_patterns
not-Numbered f v n ps m h =
    let (r, first, last) = >>=-eq-ok (to_patterns f v (n + 1)) _ h in
    let end : r.1 ≡ m = cc in
    let held : to_patterns f v (n + 1) ≡ ok (r.0, m) =
      subst (λ k. to_patterns f v (n + 1) ≡ ok (r.0, k)) end first in
    ((n + 1, r.0), omega arith, (held, to_patterns-counts f v (n + 1) held), cc)

pub or-Numbered :
    (fs : Filters) (v : String) (n : ℕ) (ps : List String) (m : ℕ)
    → to_patterns (or_ fs) v n ≡ ok (ps, m)
    → Numbered (or_ fs) v n ps m
unfolding to_patterns
or-Numbered fs v n ps m h =
    let (r, first, last) = >>=-eq-ok (alternatives fs v n) _ h in
    let (scopes, numbered, texts) = alternatives-Branches fs v n first in
    let end : r.1 ≡ m = cc in
    let same : (join " or " r.0 <> ";") ∷ [] ≡ ps = cc in
    (
      scopes,
      subst (λ k. Branches fs v n k scopes) end numbered,
      sym same ∙ ap (λ ts. (join " or " ts <> ";") ∷ []) texts,
    )
