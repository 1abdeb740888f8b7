-- ===== src/Base/Dictionary.antt =====
-- Go maps with string keys, as association lists, and sets of strings, as lists.
use Prim.Native.String.{String}
use mathlib.Core.Path.{◌≡◌, refl, ◌∙◌}
use mathlib.Core.Logic.{◌⊎◌, inl, inr}
use mathlib.Core.Bool.{Bool, false, ◌||◌}
use mathlib.Core.Option.{Option, none, some}
use mathlib.Core.List.{List, [], ◌∷◌, ◌++◌, map}
use native.Mathlib.Omega.{arith}
use text.Mathlib.Text.{◌==◌}
use text.Mathlib.TextEquality.{eq_iff}
use text.Mathlib.TextPositions.{eq_refl}
use go_typeql.Base.Tests.{Bool-cases, if◌then◌else◌}
use go_typeql.Base.Lists.{All}

-- `set[k]` of a map[string]bool.
abbrev pub contains : List String → String → Bool
contains [] k = false
contains (j ∷ js) k = j == k || contains js k

pub contains-append :
    (js ks : List String) (k : String) → contains (js ++ ks) k ≡ contains js k || contains ks k
contains-append [] ks k = refl
contains-append (j ∷ js) ks k = ground (arith, contains-append js ks k)

-- No name stands twice.
abbrev pub Distinct : List String → Type 0
Distinct [] = Unit
Distinct (k ∷ ks) = (contains ks k ≡ false) × Distinct ks

abbrev pub Dict {ℓ} : Type ℓ → Type ℓ
Dict V = List (String × V)

module _ {ℓ} {V : Type ℓ} where
  -- `v, ok := m[k]`.
  unfoldable pub lookup : String → List (String × V) → Option V
  lookup k [] = none
  lookup k ((j, v) ∷ m) = let rest = lookup k m in if j == k then some v else rest

  -- `m[k] = v`.
  unfoldable pub insert : String → V → List (String × V) → List (String × V)
  insert k v [] = (k, v) ∷ []
  insert k v ((j, w) ∷ m) = let rest = insert k v m in if j == k then (k, v) ∷ m else (j, w) ∷ rest

  -- `delete(m, k)`.
  unfoldable pub delete : String → List (String × V) → List (String × V)
  delete k [] = []
  delete k ((j, w) ∷ m) = let rest = delete k m in if j == k then rest else (j, w) ∷ rest

  abbrev pub keys : List (String × V) → List String
  keys [] = []
  keys ((k, v) ∷ m) = k ∷ keys m

  -- What is found behind a write: the new value under its key, and the old one elsewhere.
  pub lookup-insert :
      (entries : List (String × V)) (new : V) (at wanted : String)
      → lookup wanted (insert at new entries)
        ≡ (if at == wanted then some new else lookup wanted entries)
  unfolding insert lookup
  lookup-insert [] new at wanted = refl
  lookup-insert ((name, old) ∷ entries) new at wanted =
      let rest = lookup-insert entries new at wanted in
      ground (arith, rest, eq_iff name at, eq_iff name wanted, eq_iff at wanted)

  pub lookup-insert_cases :
      (at wanted : String) (new : V) (entries : List (String × V))
      → ((at ≡ wanted) × (lookup wanted (insert at new entries) ≡ some new))
        ⊎ ((at == wanted ≡ false) × (lookup wanted (insert at new entries) ≡ lookup wanted entries))
  lookup-insert_cases at wanted new entries = elim (Bool-cases (at == wanted)) [
    | inl e ↦
        inl (ground (arith, eq_iff at wanted), rw (lookup-insert entries new at wanted, e) refl)
    | inr e ↦ inr (e, rw (lookup-insert entries new at wanted, e) refl)
  ]

  pub lookup-insert_self :
      (k : String) (v : V) (m : List (String × V)) → lookup k (insert k v m) ≡ some v
  lookup-insert_self k v m = simp (lookup-insert, eq_refl)

  pub lookup-delete :
      (k j : String) (m : List (String × V))
      → lookup j (delete k m) ≡ (if k == j then none else lookup j m)
  unfolding lookup delete
  lookup-delete k j [] = ground arith
  lookup-delete k j ((i, w) ∷ m) =
      ground (arith, eq_iff k j, eq_iff i k, eq_iff i j, lookup-delete k j m)

-- The loop `for i := range xs { m[name(xs[i])] = &xs[i] }`: the last item of a name stays.
module _ {ℓ} {V : Type ℓ} (name : V → String) where
  unfoldable pub index : List V → List (String × V) → List (String × V)
  index [] m = m
  index (x ∷ xs) m = index xs (insert (name x) x m)

  pub lookup-index_missing :
      (k : String) (xs : List V) (m : List (String × V))
      → contains (map name xs) k ≡ false
      → lookup k (index xs m) ≡ lookup k m
  unfolding index
  lookup-index_missing k [] m h = refl
  lookup-index_missing k (x ∷ xs) m h =
      lookup-index_missing k xs (insert (name x) x m) (ground arith)
      ∙ ground (arith, lookup-insert m x (name x) k)

  -- With distinct names each item is found under its own name.
  pub lookup-index_self :
      (xs : List V) (m : List (String × V))
      → Distinct (map name xs)
      → All (λ x. lookup (name x) (index xs m) ≡ some x) xs
  unfolding index
  lookup-index_self [] m h = tt
  lookup-index_self (x ∷ xs) m (fresh, rest) = (
    lookup-index_missing (name x) xs _ fresh ∙ lookup-insert_self (name x) x m,
    lookup-index_self xs (insert (name x) x m) rest,
  )
