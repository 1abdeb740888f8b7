-- ===== src/Gotype/Migrate/Diff/Same.antt =====
-- `DiffSchema` of gotype/migrate.go on a schema and itself.
use go_typeql.Base.{
  String, true, List, [], ◌∷◌, map, ◌==◌, eq_refl, contains, Distinct, Dict, insert, keys, index,
  lookup-index_self, All, All-mono, ◌≡◌, inl, inr, arith, Bool-cases,
}
use go_typeql.Tqlgen.Model.{ParsedSchema, EntitySpec, RelationSpec, AttributeSpec}
use go_typeql.Gotype.Migrate.Diff.{is_empty, diff_schema}
use go_typeql.Gotype.Migrate.Diff.Exact.{missing_names}
use go_typeql.Gotype.Migrate.Diff.Whole.{diff_schema-exact}
use go_typeql.Gotype.Migrate.Diff.Covered.{Covers, missing-nil, diff_schema-AddsNothing_iff}

abbrev Named : List String → String → Type 0
Named names k = contains names k ≡ true

module _ {A : Type 0} (name : A → String) where
  contains-map :
      (xs : List A) (names : List String)
      → ((k : String) → Named (map name xs) k → Named names k)
      → All (λ x. Named names (name x)) xs
  contains-map [] names h = tt
  contains-map (x ∷ xs) names h =
      (h (name x) (rw (eq_refl (name x))), contains-map xs names (λ k p. h k (ground arith)))

  contains_self : (xs : List A) → All (λ x. Named (map name xs) (name x)) xs
  contains_self xs = contains-map xs (map name xs) (λ k p. p)

  keys-insert :
      (P : String → Type 0) (k : String) (v : A) (m : Dict A)
      → P k
      → All P (keys m)
      → All P (keys (insert k v m))
  unfolding insert
  keys-insert P k v [] pk h = (pk, tt)
  keys-insert P k v ((j, w) ∷ m) pk h = elim (Bool-cases (j == k)) [
    | inl e ↦ rw e (pk, h.1)
    | inr e ↦ rw e (h.0, keys-insert P k v m pk h.1)
  ]

  keys-index :
      (P : String → Type 0) (xs : List A) (m : Dict A)
      → All (λ x. P (name x)) xs
      → All P (keys m)
      → All P (keys (index name xs m))
  unfolding index
  keys-index P [] m h hm = hm
  keys-index P (x ∷ xs) m h hm = keys-index P xs _ h.1 (keys-insert P (name x) x m h.0 hm)

  nothing_removed : (xs : List A) → missing_names (map name xs) (keys (index name xs [])) ≡ []
  nothing_removed xs =
      (missing-nil _ _ (map name xs) _).1
        (keys-index (Named (map name xs)) xs [] (contains_self xs) tt)

Covers-self :
    (s : ParsedSchema)
    → Distinct (map (λ e. EntitySpec.name e) s.entities)
    → Distinct (map (λ r. RelationSpec.name r) s.relations)
    → Covers s s
Covers-self s de dr = record {
  attributes = contains_self (λ a. AttributeSpec.name a) s.attributes;
  entities =
      All-mono _ _ (λ e p. rw p (contains_self _ e.owns)) s.entities
        (lookup-index_self _ s.entities [] de);
  relations =
      All-mono _ _ (λ r p. rw p (contains_self _ r.owns, contains_self _ r.relates)) s.relations
        (lookup-index_self _ s.relations [] dr);
}

-- A schema whose entity types have distinct names, and whose relation types have, differs from itself
-- in nothing: no part of the diff, additive or not, has an entry.
pub diff_schema_self :
    (s : ParsedSchema)
    → Distinct (map (λ e. EntitySpec.name e) s.entities)
    → Distinct (map (λ r. RelationSpec.name r) s.relations)
    → is_empty (diff_schema s s) ≡ true
unfolding is_empty
diff_schema_self s de dr =
    let a = (diff_schema-AddsNothing_iff s s).1 (Covers-self s de dr) in
    rw (a.attributes, a.entities, a.relations, a.owns, a.relates)
      (rw (diff_schema-exact s s) (
        rw (
          nothing_removed (λ e. EntitySpec.name e) s.entities,
          nothing_removed (λ r. RelationSpec.name r) s.relations,
        )))
