-- ===== src/Tqlgen/Inherit/Tests.antt =====
-- Runs of `AccumulateInheritance` on a schema whose child stands before its parent, and on a cycle.
use go_typeql.Base.{
  String, false, List, [], ◌∷◌, ℕ, zero, suc, ◌<◌, none, some, lookup, insert, get_elem?, ◌≡◌, refl,
  sym, subst, arith,
}
use go_typeql.Tqlgen.Model.{OwnsSpec, EntitySpec, ParsedSchema}
use go_typeql.Tqlgen.Merge.{merge_owns}
use go_typeql.Tqlgen.Inherit.{
  positions, parent_index, merge_at, accumulate, accumulate_each, accumulate_all, entity_kind,
  relation_kind, accumulate_inheritance,
}
use go_typeql.Tqlgen.Inherit.Ends.{
  Inherits, entity_owns, relation_owns, relation_relates, accumulate_inheritance-Inherits,
}
use go_typeql.Tqlgen.Inherit.Cycles.{accumulate_cycle}

abbrev owns : String → OwnsSpec
owns name = record { attribute = name; key = false; unique = false; card = ""; doc = ""; meta = [] }

abbrev entity : String → String → List OwnsSpec → EntitySpec
entity name parent clauses = record {
  name = name;
  parent = parent;
  abstract = false;
  doc = "";
  meta = [];
  owns = clauses;
  plays = [];
}

abbrev family : List EntitySpec
family = entity "dog" "animal" (owns "breed" ∷ []) ∷ entity "animal" "" (owns "age" ∷ []) ∷ []

abbrev schema : List EntitySpec → ParsedSchema
schema es = record { attributes = []; entities = es; relations = []; functions = []; structs = [] }

family_run :
    accumulate_inheritance 2 (schema family)
    ≡ some (
        schema (
          entity "dog" "animal" (owns "age" ∷ owns "breed" ∷ [])
          ∷ entity "animal" "" (owns "age" ∷ [])
          ∷ []))
unfolding accumulate_inheritance accumulate_all accumulate_each accumulate merge_at positions insert
    lookup merge_owns
family_run = refl

abbrev height : ℕ → ℕ
height zero = 1
height (suc i) = 0

height_falls :
    (i j : ℕ) (x : EntitySpec)
    → get_elem? family i ≡ some x
    → parent_index entity_kind (positions entity_kind 0 family []) x ≡ some j
    → height j < height i
unfolding positions insert lookup
height_falls zero j x e p =
    let same : entity "dog" "animal" (owns "breed" ∷ []) ≡ x = cc in
    let above : some 1 ≡ some j =
      subst (λ t. parent_index entity_kind (positions entity_kind 0 family []) t ≡ some j)
        (sym same) p in
    let one : 1 ≡ j = cc in subst (λ k. height k < 1) one (omega arith)
height_falls (suc zero) j x e p =
    let same : entity "animal" "" (owns "age" ∷ []) ≡ x = cc in
    let above : none ≡ some j =
      subst (λ t. parent_index entity_kind (positions entity_kind 0 family []) t ≡ some j)
        (sym same) p in
    absurd (cc)
height_falls (suc (suc i)) j x e p = absurd (cc)

height_within : (i : ℕ) → height i < 2
height_within zero = omega arith
height_within (suc i) = omega arith

accumulate_inheritance-Inherits_example :
    (t : ParsedSchema) × (accumulate_inheritance 2 (schema family) ≡ some t)
    × ((k : String) → Inherits entity_kind (entity_owns k) family 2 t.entities)
    × ((k : String) → Inherits relation_kind (relation_owns k) [] 2 t.relations)
    × ((k : String) → Inherits relation_kind (relation_relates k) [] 2 t.relations)
accumulate_inheritance-Inherits_example =
    accumulate_inheritance-Inherits (schema family) 2
      (record { rank = height; within = height_within; falls = height_falls })
      (record { rank = λ i. 0; within = λ i. omega arith; falls = λ i j x e p. absurd (cc) })

-- A type that is its own parent.
abbrev own_parent : List EntitySpec
own_parent = entity "a" "a" [] ∷ []

own_parent_up :
    (i : ℕ)
    → i ≡ 0
    → (x : EntitySpec) × (j : ℕ) × (get_elem? own_parent i ≡ some x)
      × (parent_index entity_kind (positions entity_kind 0 own_parent []) x ≡ some j)
      × (j ≡ 0)
unfolding positions insert lookup
own_parent_up i e = (entity "a" "a" [], 0, rw e refl, refl, refl)

accumulate_cycle_example :
    accumulate entity_kind (positions entity_kind 0 own_parent []) 9 0 own_parent ≡ none
accumulate_cycle_example =
    accumulate_cycle entity_kind (positions entity_kind 0 own_parent []) own_parent (λ i. i ≡ 0)
      own_parent_up 9 0 refl
