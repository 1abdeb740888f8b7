-- ===== src/Gotype/Filter/Flatten.antt =====
-- gotype/filter.go: `And` takes nested conjunctions apart without changing what is generated.
use go_typeql.Base.{
  String, [], ℕ, ◌≡◌, refl, ◌∙◌, sym, ok, err, ◌>>=◌, ◌++◌, append_assoc, Result-cases, inl, inr,
}
use go_typeql.Gotype.Filter.{Filters, and_, no_filters, filter_, to_patterns, all_patterns, Outcome}
use go_typeql.Gotype.Filter.Constructors.{append_filters, flatten, conjunction}

-- The patterns of one loop behind those of another.
abbrev then_all : Outcome → Filters → String → Outcome
then_all o gs v = o >>= λ r. all_patterns gs v r.1 >>= λ s. ok (r.0 ++ s.0, s.1)

then_all_assoc :
    (o : Outcome) (p : ℕ → Outcome) (gs : Filters) (v : String)
    → then_all (o >>= λ r. p r.1 >>= λ s. ok (r.0 ++ s.0, s.1)) gs v
      ≡ (o >>= λ r. then_all (p r.1) gs v >>= λ s. ok (r.0 ++ s.0, s.1))
then_all_assoc (err e) p gs v = refl
then_all_assoc (ok (ps, n)) p gs v = elim (Result-cases (p n)) [
  | inr (e, failed) ↦ rw failed refl
  | inl ((qs, m), done) ↦ rw done (elim (Result-cases (all_patterns gs v m)) [
    | inr (e, failed) ↦ rw failed refl
    | inl ((rs, k), done') ↦ rw (done', append_assoc) refl
  ])
]

then_nothing : (o : Outcome) → o ≡ (o >>= λ s. ok ([] ++ s.0, s.1))
then_nothing (ok r) = refl
then_nothing (err e) = refl

all_patterns-append_filters :
    (fs gs : Filters) (v : String) (n : ℕ)
    → all_patterns (append_filters fs gs) v n ≡ then_all (all_patterns fs v n) gs v
unfolding all_patterns append_filters
all_patterns-append_filters no_filters gs v n = then_nothing (all_patterns gs v n)
all_patterns-append_filters (filter_ f fs) gs v n =
    (λ i. to_patterns f v n >>= λ r.
    all_patterns-append_filters fs gs v r.1 i >>= λ s. ok (r.0 ++ s.0, s.1))
    ∙ sym (then_all_assoc (to_patterns f v n) (all_patterns fs v) gs v)

all_patterns-flatten :
    (fs : Filters) (v : String) (n : ℕ) → all_patterns (flatten fs) v n ≡ all_patterns fs v n
unfolding flatten all_patterns to_patterns
all_patterns-flatten no_filters v n = refl
all_patterns-flatten (filter_ (and_ gs) fs) v n =
    all_patterns-append_filters gs (flatten fs) v n ∙ λ i.
    all_patterns gs v n >>= λ r. all_patterns-flatten fs v r.1 i >>= λ s. ok (r.0 ++ s.0, s.1)
all_patterns-flatten (filter_ f fs) v n =
    λ i. to_patterns f v n >>= λ r. all_patterns-flatten fs v r.1 i >>= λ s. ok (r.0 ++ s.0, s.1)

-- `And` of filters, which takes the conjunctions among them apart, generates the patterns of these
-- filters in their order, draws the same scope numbers and panics where one of them does.
pub to_patterns-conjunction :
    (fs : Filters) (v : String) (n : ℕ)
    → to_patterns (conjunction fs) v n ≡ to_patterns (and_ fs) v n
unfolding conjunction to_patterns
to_patterns-conjunction fs v n = all_patterns-flatten fs v n
