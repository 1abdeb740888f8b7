-- ===== src/Gotype/Migrate/Diff/Covered.antt =====
-- When `DiffSchema` of gotype/migrate.go finds nothing to add.
use go_typeql.Base.{
  String, true, List, [], ◌∷◌, ◌++◌, Option, none, some, contains, lookup, All, All-mono, All-both,
  ◌≡◌, ◌↔◌, refl, inl, inr, Bool-cases,
}
use go_typeql.Tqlgen.Model.{ParsedSchema, EntitySpec, RelationSpec, OwnsSpec, RelatesSpec}
use go_typeql.Gotype.Migrate.Diff.{
  SchemaDiff, owned, related, attribute_names, current_entities, current_relations, diff_schema,
}
use go_typeql.Gotype.Migrate.Diff.Exact.{
  missing, entity_added, entity_owns, relation_added, relation_owns, relation_relates, gather,
}
use go_typeql.Gotype.Migrate.Diff.Whole.{exact_diff, diff_schema-exact}

module _ {A C : Type 0} (name : A → String) (change : A → C) where
  pub missing-nil :
      (present : List String) (xs : List A)
      → (missing name change present xs ≡ []) ↔ All (λ x. contains present (name x) ≡ true) xs
  unfolding missing
  missing-nil present [] = ((λ _. tt), (λ _. refl))
  missing-nil present (x ∷ xs) = elim (Bool-cases (contains present (name x))) [
    | inl e ↦
        let ih = missing-nil present xs in
        ((λ h. (e, ih.0 (rw (e, missing) at h))), (λ h. rw (e, missing) (ih.1 h.1)))
    | inr e ↦ ((λ h. cc (rw (e, missing) at h)), (λ h. cc (h.0, e)))
  ]

append-nil_parts : {C : Type 0} (xs ys : List C) → xs ++ ys ≡ [] → (xs ≡ []) × (ys ≡ [])
append-nil_parts [] ys h = (refl, h)
append-nil_parts (x ∷ xs) ys h = cc

module _ {A C : Type 0} (f : A → List C) where
  pub gather-nil : (xs : List A) → (gather f xs ≡ []) ↔ All (λ x. f x ≡ []) xs
  gather-nil [] = ((λ _. tt), (λ _. refl))
  gather-nil (x ∷ xs) = (
    (λ h.
        let (here, there) = append-nil_parts (f x) (gather f xs) h in
        (here, (gather-nil xs).0 there)),
    (λ h. rw (h.0, (gather-nil xs).1 h.1)),
  )

-- The current schema has a type of this name, with all that the desired one owns and relates.
abbrev pub EntityCovered : EntitySpec → Option EntitySpec → Type 0
EntityCovered e none = ⊥
EntityCovered e (some cur) =
    All (λ o. contains (owned cur.owns) (OwnsSpec.attribute o) ≡ true) e.owns

abbrev pub RelationCovered : RelationSpec → Option RelationSpec → Type 0
RelationCovered r none = ⊥
RelationCovered r (some cur) =
    All (λ o. contains (owned cur.owns) (OwnsSpec.attribute o) ≡ true) r.owns
    × All (λ x. contains (related cur.relates) (RelatesSpec.role x) ≡ true) r.relates

abbrev EntityAddsNothing : EntitySpec → Option EntitySpec → Type 0
EntityAddsNothing e found = (entity_added e found ≡ []) × (entity_owns e found ≡ [])

abbrev RelationAddsNothing : RelationSpec → Option RelationSpec → Type 0
RelationAddsNothing r found =
    (relation_added r found ≡ []) × (relation_owns r found ≡ []) × (relation_relates r found ≡ [])

entity-covered :
    (e : EntitySpec) (found : Option EntitySpec) → EntityAddsNothing e found ↔ EntityCovered e found
entity-covered e none = ((λ h. cc h.0), (λ h. absurd h))
entity-covered e (some cur) =
    let owns = missing-nil _ _ (owned cur.owns) e.owns in
    ((λ h. owns.0 h.1), (λ h. (refl, owns.1 h)))

relation-covered :
    (r : RelationSpec) (found : Option RelationSpec)
    → RelationAddsNothing r found ↔ RelationCovered r found
relation-covered r none = ((λ h. cc h.0), (λ h. absurd h))
relation-covered r (some cur) =
    let owns = missing-nil _ _ (owned cur.owns) r.owns in
    let relates = missing-nil _ _ (related cur.relates) r.relates in
    ((λ h. (owns.0 h.1, relates.0 h.2)), (λ h. (refl, owns.1 h.0, relates.1 h.1)))

-- The additive parts of a diff are empty.
pub record AddsNothing (d : SchemaDiff) : Type 0 where
  pub attributes : d.add_attributes ≡ []
  pub entities : d.add_entities ≡ []
  pub relations : d.add_relations ≡ []
  pub owns : d.add_owns ≡ []
  pub relates : d.add_relates ≡ []

-- The current schema has all that the desired one declares: each attribute by name, each entity and
-- relation type by name with every owns and relates clause.
pub record Covers (current desired : ParsedSchema) : Type 0 where
  pub attributes : All (λ a. contains (attribute_names current) a.name ≡ true) desired.attributes
  pub entities :
      All
        (λ e. EntityCovered e (lookup (EntitySpec.name e) (current_entities current)))
        desired.entities
  pub relations :
      All
        (λ r. RelationCovered r (lookup (RelationSpec.name r) (current_relations current)))
        desired.relations

module _ (desired current : ParsedSchema) where
  abbrev found_entity : EntitySpec → Option EntitySpec
  found_entity e = lookup e.name (current_entities current)

  abbrev found_relation : RelationSpec → Option RelationSpec
  found_relation r = lookup r.name (current_relations current)

  exact-Covers : AddsNothing (exact_diff desired current) → Covers current desired
  exact-Covers h =
      let (entity_part, relation_part) = append-nil_parts _ _ h.owns in
      record {
        attributes = (missing-nil _ _ (attribute_names current) desired.attributes).0 h.attributes;
        entities =
            All-mono _ _ (λ e. (entity-covered e (found_entity e)).0) desired.entities
              (All-both _ _ desired.entities ((gather-nil _ desired.entities).0 h.entities)
                ((gather-nil _ desired.entities).0 entity_part));
        relations =
            All-mono _ _ (λ r p. (relation-covered r (found_relation r)).0 (p.0, p.1.0, p.1.1))
              desired.relations
              (All-both _ _ desired.relations ((gather-nil _ desired.relations).0 h.relations) (
                All-both _ _ desired.relations ((gather-nil _ desired.relations).0 relation_part)
                  ((gather-nil _ desired.relations).0 h.relates)));
      }

  Covers-exact : Covers current desired → AddsNothing (exact_diff desired current)
  Covers-exact c =
      let es =
        All-mono _ _ (λ e. (entity-covered e (found_entity e)).1) desired.entities c.entities in
      let rs =
        All-mono _ _ (λ r. (relation-covered r (found_relation r)).1) desired.relations
          c.relations in
      let owns_e =
        (gather-nil _ desired.entities).1 (All-mono _ _ (λ e p. p.1) desired.entities es) in
      let owns_r =
        (gather-nil _ desired.relations).1 (All-mono _ _ (λ r p. p.1) desired.relations rs) in
      record {
        attributes = (missing-nil _ _ (attribute_names current) desired.attributes).1 c.attributes;
        entities =
            (gather-nil _ desired.entities).1 (All-mono _ _ (λ e p. p.0) desired.entities es);
        relations =
            (gather-nil _ desired.relations).1 (All-mono _ _ (λ r p. p.0) desired.relations rs);
        owns = rw (owns_e, owns_r);
        relates =
            (gather-nil _ desired.relations).1 (All-mono _ _ (λ r p. p.2) desired.relations rs);
      }

-- `DiffSchema` adds nothing exactly when the current schema has, by name, every attribute, entity and
-- relation of the desired one and, in the entity or relation of that name, every attribute that it owns and
-- every role that it relates. Nothing but these names is compared.
pub diff_schema-AddsNothing_iff :
    (desired current : ParsedSchema)
    → AddsNothing (diff_schema desired current) ↔ Covers current desired
diff_schema-AddsNothing_iff desired current =
    rw (diff_schema-exact desired current)
      (exact-Covers desired current, Covers-exact desired current)
