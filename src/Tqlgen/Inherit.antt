-- ===== src/Tqlgen/Inherit.antt =====
-- tqlgen/model.go: `AccumulateInheritance`. The loops for entities and for relations differ in what a
-- child takes from its parent, which is an argument here. A pointer to an element of the slice is its
-- index, so a write through it changes the slice. The recursion of the code is on fuel, `none` where
-- that has run out.
mod Rounds
mod Ends
mod Cycles
mod Tests
use go_typeql.Base.{
  String, List, [], ◌∷◌, ℕ, zero, suc, ◌+◌, Option, none, some, ◌==◌, if◌then◌else◌, Dict, lookup,
  insert, length, get_elem?, set,
}
use go_typeql.Tqlgen.Model.{EntitySpec, RelationSpec, ParsedSchema}
use go_typeql.Tqlgen.Merge.{merge_owns, merge_relates}

-- What the loops read of a type, and what a child becomes beside its parent.
pub record Kind (T : Type 0) : Type 0 where
  pub name : T → String
  pub parent : T → String
  pub inherit : T → T → T

infixl 5 ◌>>=◌
abbrev pub ◌>>=◌ : {A B : Type 0} → Option A → (A → Option B) → Option B
none >>= f = none
some a >>= f = f a

module _ {T : Type 0} (kind : Kind T) where
  open kind use {name, parent, inherit}

  -- The map from names to elements: the last element of a name stays.
  unfoldable pub positions : ℕ → List T → Dict ℕ → Dict ℕ
  positions i [] m = m
  positions i (x ∷ xs) m = positions (i + 1) xs (insert (name x) i m)

  module _ (m : Dict ℕ) where
    -- The element that an element's parent is, where it names one that is in the map.
    abbrev pub parent_index : T → Option ℕ
    parent_index x = if parent x == "" then none else lookup (parent x) m

    -- `x.Owns = mergeOwns(parent.Owns, x.Owns)`, through both pointers.
    unfoldable pub merge_at : ℕ → ℕ → List T → List T
    merge_at j i xs = elim (get_elem? xs i) [
      | none ↦ xs
      | some x ↦ elim (get_elem? xs j) [ none ↦ xs | some p ↦ set xs i (inherit p x) ]
    ]

    unfoldable pub accumulate : ℕ → ℕ → List T → Option (List T)
    unfolding merge_at
    accumulate zero i xs = none
    accumulate (suc fuel) i xs = elim (get_elem? xs i) [
      | none ↦ some xs
      | some x ↦ elim (parent_index x) [
        | none ↦ some xs
        | some j ↦ accumulate fuel j xs >>= λ ys. some (merge_at j i ys)
      ]
    ]

    -- The loop over the elements, whose body does to each what the recursion does to a parent: the
    -- first argument counts the rounds, the third is the index.
    unfoldable pub accumulate_each : ℕ → ℕ → ℕ → List T → Option (List T)
    accumulate_each zero fuel i xs = some xs
    accumulate_each (suc rounds) fuel i xs =
        accumulate fuel i xs >>= λ ys. accumulate_each rounds fuel (i + 1) ys

  unfoldable pub accumulate_all : ℕ → List T → Option (List T)
  unfolding positions accumulate_each
  accumulate_all fuel xs = accumulate_each (positions 0 xs []) (length xs) fuel 0 xs

-- `accumulateEntity` and `accumulateRelation`.
abbrev pub entity_kind : Kind EntitySpec
entity_kind = record {
  name = λ e. e.name;
  parent = λ e. e.parent;
  inherit = λ p e. record e { owns = merge_owns p.owns e.owns };
}

abbrev pub relation_kind : Kind RelationSpec
relation_kind = record {
  name = λ r. r.name;
  parent = λ r. r.parent;
  inherit = λ p r. record r {
    owns = merge_owns p.owns r.owns;
    relates = merge_relates p.relates r.relates;
  };
}

unfoldable pub accumulate_inheritance : ℕ → ParsedSchema → Option ParsedSchema
unfolding accumulate_all
accumulate_inheritance fuel s = accumulate_all entity_kind fuel s.entities >>= λ es.
    accumulate_all relation_kind fuel s.relations >>= λ rs.
    some (record s { entities = es; relations = rs })
