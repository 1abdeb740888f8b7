-- ===== src/Tqlgen/Inherit/Ends.antt =====
-- tqlgen/model.go: `AccumulateInheritance` as a whole, on schemas whose types have no cycle of parents.
use mathlib.Core.Option
use go_typeql.Base.{
  String, List, [], ℕ, suc, ◌<◌, Option, some, Dict, lookup, get_elem?, get_elem?_short, length,
  ◌≡◌, refl, ap, subst, ◌∙◌, ltb, arith, inl, inr, Bool-cases,
}
use go_typeql.Tqlgen.Model.{OwnsSpec, RelatesSpec, EntitySpec, RelationSpec, ParsedSchema}
use go_typeql.Tqlgen.Merge.Laws.{by_name, or_else, merge_owns-lookup, merge_relates-lookup}
use go_typeql.Tqlgen.Inherit.{
  Kind, positions, parent_index, entity_kind, relation_kind, accumulate_all, accumulate_inheritance,
}
use go_typeql.Tqlgen.Inherit.Rounds.{
  inherited, inherited_enough, Kept-self, accumulate_each-Settles,
}

-- The types are ranked below the fuel, each above its parent.
pub record IsAcyclic {T : Type 0} (kind : Kind T) (xs : List T) (fuel : ℕ) : Type 0 where
  pub rank : ℕ → ℕ
  pub within : (i : ℕ) → rank i < fuel
  pub falls :
      (i j : ℕ) (x : T)
      → get_elem? xs i ≡ some x
      → parent_index kind (positions kind 0 xs []) x ≡ some j
      → rank j < rank i

module _ {T C : Type 0} (kind : Kind T) (look : T → Option C) (xs : List T) (fuel : ℕ) where
  -- In each type of the second list, what is looked for is what its chain of parents held in the first.
  abbrev pub Inherits : List T → Type 0
  Inherits zs =
      (i : ℕ)
      → Option.map look (get_elem? zs i)
        ≡ Option.map (λ (x : T). inherited kind look (positions kind 0 xs []) xs fuel i)
            (get_elem? xs i)

module _ {T C : Type 0} (kind : Kind T) (look : T → Option C)
    (look-inherit : (p x : T) → look (kind.inherit p x) ≡ or_else (look x) (look p))
    (parent-inherit : (p x : T) → kind.parent (kind.inherit p x) ≡ kind.parent x) (xs : List T)
    (fuel : ℕ) (acyclic : IsAcyclic kind xs fuel) where
  abbrev m : Dict ℕ
  m = positions kind 0 xs []

  accumulate_all-Inherits_one :
      (zs : List T) × (accumulate_all kind fuel xs ≡ some zs) × Inherits kind look xs fuel zs
  unfolding accumulate_all
  accumulate_all-Inherits_one =
      let kept = Kept-self kind look look-inherit parent-inherit m xs acyclic.rank acyclic.falls in
      let (zs, ends, done) =
        accumulate_each-Settles kind look look-inherit parent-inherit m xs acyclic.rank
          acyclic.falls (length xs) fuel 0 xs acyclic.within kept in
      (
        zs,
        ends,
        λ i.
            done i (elim (Bool-cases (ltb i (length xs))) [
              | inl short ↦ inr (ground arith)
              | inr long ↦ inl (rw (get_elem?_short xs i (ground arith)) refl)
            ])
            ∙ ap (λ o. Option.map (λ (x : T). o) (get_elem? xs i))
                (inherited_enough kind look look-inherit parent-inherit m xs acyclic.rank
                  acyclic.falls (suc (acyclic.rank i)) fuel i (omega arith) (acyclic.within i)),
      )

  -- The list that a run ends with is one for all that may be looked for.
  accumulate_all-Inherits :
      (zs : List T) → accumulate_all kind fuel xs ≡ some zs → Inherits kind look xs fuel zs
  accumulate_all-Inherits zs ends =
      let (zs', ends', found) = accumulate_all-Inherits_one in
      let same : zs' ≡ zs = cc in subst (Inherits kind look xs fuel) same found

abbrev pub entity_owns : String → EntitySpec → Option OwnsSpec
entity_owns k e = lookup k (by_name (λ o. OwnsSpec.attribute o) e.owns)

abbrev pub relation_owns : String → RelationSpec → Option OwnsSpec
relation_owns k r = lookup k (by_name (λ o. OwnsSpec.attribute o) r.owns)

abbrev pub relation_relates : String → RelationSpec → Option RelatesSpec
relation_relates k r = lookup k (by_name (λ o. RelatesSpec.role o) r.relates)

-- Where no chain of parents is a cycle, AccumulateInheritance ends, and each type then has, for each
-- attribute and role, the owns or relates clause that is found first on the way up from it through its
-- chain of parents in the schema as it was parsed, and none where no type on the way has one. No order
-- of the types is asked for, and it does not matter how often the recursion comes by a type. The fuel
-- is any number above the ranks of the types.
pub accumulate_inheritance-Inherits :
    (s : ParsedSchema) (fuel : ℕ)
    → IsAcyclic entity_kind s.entities fuel
    → IsAcyclic relation_kind s.relations fuel
    → (t : ParsedSchema) × (accumulate_inheritance fuel s ≡ some t)
      × ((k : String) → Inherits entity_kind (entity_owns k) s.entities fuel t.entities)
      × ((k : String) → Inherits relation_kind (relation_owns k) s.relations fuel t.relations)
      × ((k : String) → Inherits relation_kind (relation_relates k) s.relations fuel t.relations)
unfolding accumulate_inheritance
accumulate_inheritance-Inherits s fuel on_entities on_relations =
    let (es, entities_end, _) =
      accumulate_all-Inherits_one entity_kind (entity_owns "")
        (λ p x. (merge_owns-lookup p.owns x.owns).0 "") (λ p x. refl) s.entities fuel on_entities in
    let (rs, relations_end, _) =
      accumulate_all-Inherits_one relation_kind (relation_owns "")
        (λ p x. (merge_owns-lookup p.owns x.owns).0 "") (λ p x. refl) s.relations fuel
        on_relations in
    (
      record s { entities = es; relations = rs },
      rw (entities_end, relations_end) refl,
      λ k.
          accumulate_all-Inherits entity_kind (entity_owns k)
            (λ p x. (merge_owns-lookup p.owns x.owns).0 k) (λ p x. refl) s.entities fuel on_entities
            es entities_end,
      λ k.
          accumulate_all-Inherits relation_kind (relation_owns k)
            (λ p x. (merge_owns-lookup p.owns x.owns).0 k) (λ p x. refl) s.relations fuel
            on_relations rs relations_end,
      λ k.
          accumulate_all-Inherits relation_kind (relation_relates k)
            (λ p x. (merge_relates-lookup p.relates x.relates).0 k) (λ p x. refl) s.relations fuel
            on_relations rs relations_end,
    )
