-- ===== src/Gotype/Filter/Scalars.antt =====
-- gotype/filter.go: where ToPatterns panics.
use go_typeql.Base.{
  String, Bool, true, false, ◌&&◌, ℕ, ◌+◌, ◌≡◌, refl, ◌∙◌, ok, err, ◌>>=◌, is_ok, inl, inr, List,
  Bool-cases,
}
use go_typeql.Gotype.Filter.{
  Filter, Filters, comparison, and_, or_, not_, role_player, nil, no_filters, filter_, to_patterns,
  all_patterns, alternatives, is_scalar_filter_value, sanitize_var, Outcome,
}

-- Every comparison in the filter is with a scalar, and no filter in it is nil.
mutual
  pub is_sound : Filter → Bool
  is_sound (comparison f) = is_scalar_filter_value f.value
  is_sound (and_ fs) = all_sound fs
  is_sound (or_ fs) = all_sound fs
  is_sound (not_ f) = is_sound f
  is_sound (role_player r f) = is_sound f
  is_sound nil = false
  is_sound _ = true

  pub all_sound : Filters → Bool
  all_sound no_filters = true
  all_sound (filter_ f fs) = is_sound f && all_sound fs

abbrev Decides : Outcome → Bool → Type 0
Decides o b = is_ok o ≡ b

is_ok-then :
    (o : Outcome) (k : List String × ℕ → Outcome) (a b : Bool)
    → is_ok o ≡ a
    → ((r : List String × ℕ) → is_ok (k r) ≡ b)
    → is_ok (o >>= k) ≡ (a && b)
is_ok-then (ok r) k a b h next = rw (← h) (next r)
is_ok-then (err e) k a b h next = rw (← h) refl

is_ok-last :
    (o : Outcome) (k : List String × ℕ → List String × ℕ) → is_ok (o >>= λ r. ok (k r)) ≡ is_ok o
is_ok-last (ok r) k = refl
is_ok-last (err e) k = refl

mutual
  unfolding to_patterns all_patterns alternatives is_sound all_sound

  is_ok-patterns : (f : Filter) (v : String) (n : ℕ) → is_ok (to_patterns f v n) ≡ is_sound f
  is_ok-patterns (comparison f) v n = elim (Bool-cases (is_scalar_filter_value f.value)) [
    | inl e ↦ rw e refl
    | inr e ↦ rw e refl
  ]
  is_ok-patterns (and_ fs) v n = is_ok-all fs v n
  is_ok-patterns (or_ fs) v n = is_ok-last (alternatives fs v n) _ ∙ is_ok-alternatives fs v n
  is_ok-patterns (not_ f) v n = is_ok-last (to_patterns f v (n + 1)) _ ∙ is_ok-patterns f v (n + 1)
  is_ok-patterns (role_player r f) v n =
      is_ok-last (to_patterns f (sanitize_var r) n) _ ∙ is_ok-patterns f (sanitize_var r) n
  is_ok-patterns nil v n = refl
  is_ok-patterns _ v n = refl

  is_ok-all : (fs : Filters) (v : String) (n : ℕ) → is_ok (all_patterns fs v n) ≡ all_sound fs
  is_ok-all no_filters v n = refl
  is_ok-all (filter_ f fs) v n =
      is_ok-then (to_patterns f v n) _ (is_sound f) (all_sound fs) (is_ok-patterns f v n)
        (λ r. is_ok-last (all_patterns fs v r.1) _ ∙ is_ok-all fs v r.1)

  is_ok-alternatives :
      (fs : Filters) (v : String) (n : ℕ) → is_ok (alternatives fs v n) ≡ all_sound fs
  is_ok-alternatives no_filters v n = refl
  is_ok-alternatives (filter_ f fs) v n =
      is_ok-then (to_patterns f v (n + 1)) _ (is_sound f) (all_sound fs)
        (is_ok-patterns f v (n + 1))
        (λ r. is_ok-last (alternatives fs v r.1) _ ∙ is_ok-alternatives fs v r.1)

-- ToPatterns returns exactly where every comparison in the filter is with a scalar, through pointers,
-- and no filter in it is nil; elsewhere it panics. The variable and the counter decide nothing.
pub is_ok-to_patterns : (f : Filter) (v : String) (n : ℕ) → is_ok (to_patterns f v n) ≡ is_sound f
is_ok-to_patterns f v n = is_ok-patterns f v n
