-- ===== src/Tqlgen/Merge/Laws.antt =====
-- What the merge of a parent's clauses with a child's in tqlgen/model.go keeps.
use go_typeql.Base.{
  String, true, false, not, ◌&&◌, ◌||◌, ◌==◌, eq_iff, eq_refl, List, [], ◌∷◌, ◌++◌, append_assoc,
  append-nil, map, Option, none, some, contains, lookup, Dict, if◌then◌else◌, ◌≡◌, refl, sym, ap,
  ◌∙◌, inl, inr, arith, Bool-cases,
}
use go_typeql.Tqlgen.Model.{OwnsSpec, RelatesSpec}
use go_typeql.Tqlgen.Merge.{append_unseen, merge_owns, merge_relates}

-- The first choice, or else the second.
abbrev pub or_else : {A : Type 0} → Option A → Option A → Option A
or_else none b = b
or_else (some a) b = some a

module _ {A : Type 0} (name : A → String) where
  abbrev pub by_name : List A → Dict A
  by_name = map (λ x. (name x, x))

  abbrev merged : List A → List A → List A
  merged parent child = append_unseen name (map name child) [] parent ++ child

  -- The clauses that the loop appends.
  abbrev unseen : List String → List A → List A
  unseen seen [] = []
  unseen seen (x ∷ xs) =
      let rest = unseen seen xs in if contains seen (name x) then rest else x ∷ rest

  append_unseen-unseen :
      (seen : List String) (out xs : List A)
      → append_unseen name seen out xs ≡ out ++ unseen seen xs
  unfolding append_unseen
  append_unseen-unseen seen out [] = sym (append-nil out)
  append_unseen-unseen seen out (x ∷ xs) = elim (Bool-cases (contains seen (name x))) [
    | inl e ↦ rw e (append_unseen-unseen seen out xs)
    | inr e ↦
        rw e (
          append_unseen-unseen seen (out ++ x ∷ []) xs ∙ append_assoc out (x ∷ []) (unseen seen xs))
  ]

  lookup-append :
      (xs ys : List A) (k : String)
      → lookup k (by_name (xs ++ ys)) ≡ or_else (lookup k (by_name xs)) (lookup k (by_name ys))
  unfolding lookup
  lookup-append [] ys k = refl
  lookup-append (x ∷ xs) ys k = elim (Bool-cases (name x == k)) [
    | inl e ↦ rw e refl
    | inr e ↦ rw e (lookup-append xs ys k)
  ]

  lookup-unseen :
      (seen : List String) (xs : List A) (k : String)
      → lookup k (by_name (unseen seen xs))
        ≡ (if contains seen k then none else lookup k (by_name xs))
  unfolding lookup
  lookup-unseen seen [] k = ground arith
  lookup-unseen seen (x ∷ xs) k = ground (arith, lookup-unseen seen xs k, eq_iff (name x) k)

  lookup-contains :
      (xs : List A) (k : String) → contains (map name xs) k ≡ false → lookup k (by_name xs) ≡ none
  unfolding lookup
  lookup-contains [] k h = refl
  lookup-contains (x ∷ xs) k h = ground (arith, lookup-contains xs k)

  lookup-contains_or :
      (xs : List A) (k : String) (b : Option A)
      → contains (map name xs) k ≡ true
      → or_else (lookup k (by_name xs)) b ≡ lookup k (by_name xs)
  unfolding lookup
  lookup-contains_or [] k b h = cc h
  lookup-contains_or (x ∷ xs) k b h = elim (Bool-cases (name x == k)) [
    | inl e ↦ rw e refl
    | inr e ↦ rw e (lookup-contains_or xs k b (ground arith))
  ]

  or_else-none : {B : Type 0} (b : Option B) → or_else b none ≡ b
  or_else-none none = refl
  or_else-none (some b) = refl

  pub lookup-merged :
      (parent child : List A) (k : String)
      → lookup k (by_name (merged parent child))
        ≡ or_else (lookup k (by_name child)) (lookup k (by_name parent))
  lookup-merged parent child k =
      ap (λ xs. lookup k (by_name (xs ++ child))) (append_unseen-unseen (map name child) [] parent)
      ∙ lookup-append (unseen (map name child) parent) child k
      ∙ ap (λ o. or_else o (lookup k (by_name child))) (lookup-unseen (map name child) parent k)
      ∙ elim (Bool-cases (contains (map name child) k)) [
        | inl e ↦ rw e (sym (lookup-contains_or child k (lookup k (by_name parent)) e))
        | inr e ↦ rw (e, lookup-contains child k e) (or_else-none (lookup k (by_name parent)))
      ]

  contains-unseen :
      (seen : List String) (xs : List A) (k : String)
      → contains (map name (unseen seen xs)) k ≡ contains (map name xs) k && not (contains seen k)
  contains-unseen seen [] k = refl
  contains-unseen seen (x ∷ xs) k = ground (arith, contains-unseen seen xs k, eq_iff (name x) k)

  contains-names :
      (xs ys : List A) (k : String)
      → contains (map name (xs ++ ys)) k ≡ contains (map name xs) k || contains (map name ys) k
  contains-names [] ys k = refl
  contains-names (x ∷ xs) ys k = ground (arith, contains-names xs ys k)

  unseen-nil :
      (seen : List String) (xs : List A)
      → ((k : String) → contains (map name xs) k ≡ true → contains seen k ≡ true)
      → unseen seen xs ≡ []
  unseen-nil seen [] h = refl
  unseen-nil seen (x ∷ xs) h =
      rw (h (name x) (rw (eq_refl (name x)) refl), unseen-nil seen xs (λ k c. h k (ground arith)))
        refl

  pub merged-again :
      (parent child : List A) → merged parent (merged parent child) ≡ merged parent child
  merged-again parent child =
      ap (λ xs. xs ++ merged parent child)
        (append_unseen-unseen (map name (merged parent child)) [] parent
          ∙ unseen-nil (map name (merged parent child)) parent known)
    where
      known :
          (k : String)
          → contains (map name parent) k ≡ true
          → contains (map name (merged parent child)) k ≡ true
      known k h =
          ap (λ xs. contains (map name (xs ++ child)) k)
            (append_unseen-unseen (map name child) [] parent)
          ∙ contains-names (unseen (map name child) parent) child k
          ∙ ground (arith, contains-unseen (map name child) parent k)

-- The merged owns clauses have for each attribute the child's clause, where the child has one, and
-- otherwise the parent's; and merging the same parent in once more changes nothing.
pub merge_owns-lookup :
    (parent child : List OwnsSpec)
    → ((k : String)
        → lookup k (by_name (λ o. OwnsSpec.attribute o) (merge_owns parent child))
          ≡ or_else
              (lookup k (by_name (λ o. OwnsSpec.attribute o) child))
              (lookup k (by_name (λ o. OwnsSpec.attribute o) parent)))
      × (merge_owns parent (merge_owns parent child) ≡ merge_owns parent child)
unfolding merge_owns
merge_owns-lookup parent child = (
  (λ k. lookup-merged (λ o. OwnsSpec.attribute o) parent child k),
  merged-again (λ o. OwnsSpec.attribute o) parent child,
)

-- The merged relates clauses have for each role the child's clause, where the child has one, and
-- otherwise the parent's; and merging the same parent in once more changes nothing.
pub merge_relates-lookup :
    (parent child : List RelatesSpec)
    → ((k : String)
        → lookup k (by_name (λ r. RelatesSpec.role r) (merge_relates parent child))
          ≡ or_else
              (lookup k (by_name (λ r. RelatesSpec.role r) child))
              (lookup k (by_name (λ r. RelatesSpec.role r) parent)))
      × (merge_relates parent (merge_relates parent child) ≡ merge_relates parent child)
unfolding merge_relates
merge_relates-lookup parent child = (
  (λ k. lookup-merged (λ r. RelatesSpec.role r) parent child k),
  merged-again (λ r. RelatesSpec.role r) parent child,
)
