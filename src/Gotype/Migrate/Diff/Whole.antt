-- ===== src/Gotype/Migrate/Diff/Whole.antt =====
-- `DiffSchema` of gotype/migrate.go as one record of comprehensions.
use go_typeql.Base.{
  String, List, [], ◌∷◌, ◌++◌, append_assoc, append-nil, map, Option, none, some, Dict, lookup,
  keys, ◌≡◌, refl, sym, ap, ◌∙◌,
}
use go_typeql.Tqlgen.Model.{ParsedSchema, EntitySpec, RelationSpec}
use go_typeql.Gotype.Migrate.Diff.{
  SchemaDiff, TypeChange, OwnsChange, RelatesChange, empty_diff, owned, related, diff_entity,
  diff_entities, diff_relation, diff_relations, diff_owns, attribute_names, current_entities,
  current_relations, diff_schema,
}
use go_typeql.Gotype.Migrate.Diff.Exact.{
  missing_attributes, missing_names, entity_added, entity_owns, relation_added, relation_owns,
  relation_relates, gather, add_relates_to, diff_owns-missing, diff_relates-missing,
  diff_attributes-missing, diff_removed-missing,
}

abbrev with_entities : SchemaDiff → List TypeChange → List OwnsChange → SchemaDiff
with_entities d ts os = record d {
  add_entities = d.add_entities ++ ts;
  add_owns = d.add_owns ++ os;
}

abbrev with_relations :
    SchemaDiff → List TypeChange → List OwnsChange → List RelatesChange → SchemaDiff
with_relations d ts os rs = record d {
  add_relations = d.add_relations ++ ts;
  add_owns = d.add_owns ++ os;
  add_relates = d.add_relates ++ rs;
}

module _ (current : Dict EntitySpec) where
  abbrev pub entities_added : List EntitySpec → List TypeChange
  entities_added = gather (λ e. entity_added e (lookup e.name current))

  abbrev pub entities_owns : List EntitySpec → List OwnsChange
  entities_owns = gather (λ e. entity_owns e (lookup e.name current))

  diff_entity-with :
      (d : SchemaDiff) (e : EntitySpec) (found : Option EntitySpec)
      → lookup e.name current ≡ found
      → diff_entity current d e ≡ with_entities d (entity_added e found) (entity_owns e found)
  unfolding diff_entity
  diff_entity-with d e none h =
      rw (h, diff_entity)
        (ap (λ xs. record d { add_entities = d.add_entities ++ entity_added e none; add_owns = xs })
          (sym (append-nil d.add_owns)))
  diff_entity-with d e (some cur) h =
      rw (h, diff_entity)
        (diff_owns-missing e.name (owned cur.owns) d e.owns
          ∙ ap
              (λ xs. record d {
                add_entities = xs;
                add_owns = d.add_owns ++ entity_owns e (some cur);
              })
              (sym (append-nil d.add_entities)))

  diff_entities-with :
      (d : SchemaDiff) (seen : List String) (es : List EntitySpec)
      → diff_entities current d seen es
        ≡ (with_entities d (entities_added es) (entities_owns es), seen ++ map (λ e. e.name) es)
  unfolding diff_entities
  diff_entities-with d seen [] = λ i. (
    record d {
      add_entities = sym (append-nil d.add_entities) i;
      add_owns = sym (append-nil d.add_owns) i;
    },
    sym (append-nil seen) i,
  )
  diff_entities-with d seen (e ∷ es) =
      ap (λ x. diff_entities current x (seen ++ e.name ∷ []) es)
        (diff_entity-with d e (lookup e.name current) refl)
      ∙ diff_entities-with
          (with_entities d (entity_added e (lookup e.name current))
            (entity_owns e (lookup e.name current)))
          (seen ++ e.name ∷ []) es
      ∙ λ i. (
        record d {
          add_entities =
              append_assoc d.add_entities (entity_added e (lookup e.name current))
                (entities_added es) i;
          add_owns =
              append_assoc d.add_owns (entity_owns e (lookup e.name current)) (entities_owns es) i;
        },
        append_assoc seen (e.name ∷ []) (map (λ e. e.name) es) i,
      )

module _ (current : Dict RelationSpec) where
  abbrev pub relations_added : List RelationSpec → List TypeChange
  relations_added = gather (λ r. relation_added r (lookup r.name current))

  abbrev pub relations_owns : List RelationSpec → List OwnsChange
  relations_owns = gather (λ r. relation_owns r (lookup r.name current))

  abbrev pub relations_relates : List RelationSpec → List RelatesChange
  relations_relates = gather (λ r. relation_relates r (lookup r.name current))

  abbrev with_relation : SchemaDiff → RelationSpec → Option RelationSpec → SchemaDiff
  with_relation d r found =
      with_relations d (relation_added r found) (relation_owns r found) (relation_relates r found)

  diff_relation-with :
      (d : SchemaDiff) (r : RelationSpec) (found : Option RelationSpec)
      → lookup r.name current ≡ found
      → diff_relation current d r ≡ with_relation d r found
  unfolding diff_relation
  diff_relation-with d r none h =
      rw (h, diff_relation)
        λ i. record d {
          add_relations = d.add_relations ++ relation_added r none;
          add_owns = sym (append-nil d.add_owns) i;
          add_relates = sym (append-nil d.add_relates) i;
        }
  diff_relation-with d r (some cur) h =
      rw (h, diff_relation)
        (ap (λ x. diff_owns r.name (owned cur.owns) x r.owns)
            (diff_relates-missing r.name (related cur.relates) d r.relates)
          ∙ diff_owns-missing r.name (owned cur.owns)
              (add_relates_to d (relation_relates r (some cur))) r.owns
          ∙ λ i. record d {
            add_relations = sym (append-nil d.add_relations) i;
            add_owns = d.add_owns ++ relation_owns r (some cur);
            add_relates = d.add_relates ++ relation_relates r (some cur);
          })

  diff_relations-with :
      (d : SchemaDiff) (seen : List String) (rs : List RelationSpec)
      → diff_relations current d seen rs ≡ (
        with_relations d (relations_added rs) (relations_owns rs) (relations_relates rs),
        seen ++ map (λ r. r.name) rs,
      )
  unfolding diff_relations
  diff_relations-with d seen [] = λ i. (
    record d {
      add_relations = sym (append-nil d.add_relations) i;
      add_owns = sym (append-nil d.add_owns) i;
      add_relates = sym (append-nil d.add_relates) i;
    },
    sym (append-nil seen) i,
  )
  diff_relations-with d seen (r ∷ rs) =
      let found = lookup r.name current in
      ap (λ x. diff_relations current x (seen ++ r.name ∷ []) rs)
        (diff_relation-with d r found refl)
      ∙ diff_relations-with (with_relation d r (lookup r.name current)) (seen ++ r.name ∷ []) rs
      ∙ λ i. (
        record d {
          add_relations =
              append_assoc d.add_relations (relation_added r found) (relations_added rs) i;
          add_owns = append_assoc d.add_owns (relation_owns r found) (relations_owns rs) i;
          add_relates =
              append_assoc d.add_relates (relation_relates r found) (relations_relates rs) i;
        },
        append_assoc seen (r.name ∷ []) (map (λ r. r.name) rs) i,
      )

-- The diff of two schemas as one record of comprehensions.
abbrev pub exact_diff : ParsedSchema → ParsedSchema → SchemaDiff
exact_diff desired current =
    let es = current_entities current in
    let rs = current_relations current in
    record {
      add_attributes = missing_attributes (attribute_names current) desired.attributes;
      add_entities = entities_added es desired.entities;
      add_relations = relations_added rs desired.relations;
      add_owns = entities_owns es desired.entities ++ relations_owns rs desired.relations;
      add_relates = relations_relates rs desired.relations;
      remove_owns = [];
      remove_types =
          missing_names (map (λ e. e.name) desired.entities) (keys es)
          ++ missing_names (map (λ r. r.name) desired.relations) (keys rs);
    }

-- `DiffSchema`, which grows one record through five loops, computes exactly this: an attribute is
-- added iff no current attribute has its name; a type iff no current type of its kind has its name,
-- with its whole definition; an owns or relates clause iff the current type of that name lacks it;
-- and the removed types are the current ones that are not desired. No removed owns clause is ever
-- reported.
pub diff_schema-exact :
    (desired current : ParsedSchema) → diff_schema desired current ≡ exact_diff desired current
unfolding diff_schema
diff_schema-exact desired current =
    let es = current_entities current in
    let rs = current_relations current in
    rw (diff_attributes-missing (attribute_names current) empty_diff desired.attributes) (
      rw (diff_entities-with es _ [] desired.entities) (
        rw (diff_relations-with rs _ [] desired.relations)
          (rw diff_removed-missing (rw diff_removed-missing))))
