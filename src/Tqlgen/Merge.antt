-- ===== src/Tqlgen/Merge.antt =====
-- tqlgen/model.go: `mergeOwns` and `mergeRelates`.
pub mod Laws
use go_typeql.Base.{String, Bool, not, List, [], ◌∷◌, ◌++◌, map, contains, if◌then◌else◌}
use go_typeql.Tqlgen.Model.{OwnsSpec, RelatesSpec}

-- The loop over the parent's clauses, which appends those whose name the child has not.
unfoldable pub append_unseen : {A : Type 0} → (A → String) → List String → List A → List A → List A
append_unseen name seen merged [] = merged
append_unseen name seen merged (x ∷ xs) =
    append_unseen name seen (if not (contains seen (name x)) then merged ++ x ∷ [] else merged) xs

unfoldable pub merge_owns : List OwnsSpec → List OwnsSpec → List OwnsSpec
unfolding append_unseen
merge_owns parent child =
    append_unseen (λ o. OwnsSpec.attribute o) (map (λ o. OwnsSpec.attribute o) child) [] parent
    ++ child

unfoldable pub merge_relates : List RelatesSpec → List RelatesSpec → List RelatesSpec
unfolding append_unseen
merge_relates parent child =
    append_unseen (λ r. RelatesSpec.role r) (map (λ r. RelatesSpec.role r) child) [] parent ++ child
