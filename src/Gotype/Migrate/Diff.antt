-- ===== src/Gotype/Migrate/Diff.antt =====
-- gotype/migrate.go: `SchemaDiff` and `DiffSchema`.
pub mod Exact
pub mod Whole
pub mod Covered
pub mod Same
use go_typeql.Base.{
  String, Bool, true, false, not, ◌&&◌, ℕ, List, [], ◌∷◌, ◌++◌, map, Option, none, some, ◌<>◌, join,
  itoa, pos, length, contains, Dict, lookup, keys, index, if◌then◌else◌,
}
use go_typeql.Tqlgen.Model.{
  ParsedSchema, AttributeSpec, EntitySpec, RelationSpec, RelatesSpec, OwnsSpec,
}
use go_typeql.Gotype.Migrate.Define.{build_owns_annots, build_entity_define, build_relation_define}

pub record AttrChange : Type 0 where
  pub name : String
  pub value_type : String

pub record TypeChange : Type 0 where
  pub type_ql : String

pub record OwnsChange : Type 0 where
  pub type_name : String
  pub attribute : String
  pub annots : String

pub record RelatesChange : Type 0 where
  pub type_name : String
  pub role : String
  pub card : String

pub record SchemaDiff : Type 0 where
  pub add_attributes : List AttrChange
  pub add_entities : List TypeChange
  pub add_relations : List TypeChange
  pub add_owns : List OwnsChange
  pub add_relates : List RelatesChange
  pub remove_owns : List OwnsChange
  pub remove_types : List String

abbrev pub empty_diff : SchemaDiff
empty_diff = record {
  add_attributes = [];
  add_entities = [];
  add_relations = [];
  add_owns = [];
  add_relates = [];
  remove_owns = [];
  remove_types = [];
}

abbrev pub none_in {ℓ} : {A : Type ℓ} → List A → Bool
none_in [] = true
none_in (x ∷ xs) = false

unfoldable pub is_empty : SchemaDiff → Bool
is_empty d =
    none_in d.add_attributes
    && none_in d.add_entities
    && none_in d.add_relations
    && none_in d.add_owns
    && none_in d.add_relates
    && none_in d.remove_owns
    && none_in d.remove_types

abbrev pub owned : List OwnsSpec → List String
owned = map (λ o. o.attribute)

abbrev pub related : List RelatesSpec → List String
related = map (λ r. r.role)

abbrev pub owns_change : String → OwnsSpec → OwnsChange
owns_change type o = record {
  type_name = type;
  attribute = o.attribute;
  annots = build_owns_annots o;
}

abbrev pub relates_change : String → RelatesSpec → RelatesChange
relates_change type r = record { type_name = type; role = r.role; card = r.card }

-- The loop over `e.Owns`, where `cur` is the set of what the current type owns.
unfoldable pub diff_owns : String → List String → SchemaDiff → List OwnsSpec → SchemaDiff
diff_owns type cur d [] = d
diff_owns type cur d (o ∷ os) =
    diff_owns type cur
      (if not (contains cur o.attribute)
        then record d { add_owns = d.add_owns ++ owns_change type o ∷ [] }
        else d)
      os

unfoldable pub diff_relates : String → List String → SchemaDiff → List RelatesSpec → SchemaDiff
diff_relates type cur d [] = d
diff_relates type cur d (r ∷ rs) =
    diff_relates type cur
      (if not (contains cur r.role)
        then record d { add_relates = d.add_relates ++ relates_change type r ∷ [] }
        else d)
      rs

-- One round of `diffEntities`.
unfoldable pub diff_entity : Dict EntitySpec → SchemaDiff → EntitySpec → SchemaDiff
diff_entity current d e = elim (lookup e.name current) [
  | none ↦ record d {
    add_entities = d.add_entities ++ record { type_ql = build_entity_define e } ∷ [];
  }
  | some cur ↦ diff_owns e.name (owned cur.owns) d e.owns
]

-- `diffEntities`: the diff, and the names seen.
unfoldable pub diff_entities :
    Dict EntitySpec → SchemaDiff → List String → List EntitySpec → SchemaDiff × List String
diff_entities current d seen [] = (d, seen)
diff_entities current d seen (e ∷ es) =
    diff_entities current (diff_entity current d e) (seen ++ e.name ∷ []) es

unfoldable pub diff_relation : Dict RelationSpec → SchemaDiff → RelationSpec → SchemaDiff
diff_relation current d r = elim (lookup r.name current) [
  | none ↦ record d {
    add_relations = d.add_relations ++ record { type_ql = build_relation_define r } ∷ [];
  }
  | some cur ↦
      diff_owns r.name (owned cur.owns) (diff_relates r.name (related cur.relates) d r.relates)
        r.owns
]

unfoldable pub diff_relations :
    Dict RelationSpec → SchemaDiff → List String → List RelationSpec → SchemaDiff × List String
diff_relations current d seen [] = (d, seen)
diff_relations current d seen (r ∷ rs) =
    diff_relations current (diff_relation current d r) (seen ++ r.name ∷ []) rs

unfoldable pub diff_attributes : List String → SchemaDiff → List AttributeSpec → SchemaDiff
diff_attributes current d [] = d
diff_attributes current d (a ∷ as_) =
    diff_attributes current
      (if not (contains current a.name)
        then record d {
          add_attributes =
              d.add_attributes ++ record { name = a.name; value_type = a.value_type } ∷ [];
        }
        else d)
      as_

-- The loop over the keys of a map of current types. Go leaves their order open; here they come in
-- the order in which their names were first put in.
unfoldable pub diff_removed : List String → SchemaDiff → List String → SchemaDiff
diff_removed desired d [] = d
diff_removed desired d (name ∷ names) =
    diff_removed desired
      (if not (contains desired name)
        then record d { remove_types = d.remove_types ++ name ∷ [] }
        else d)
      names

abbrev pub attribute_names : ParsedSchema → List String
attribute_names s = map (λ a. a.name) s.attributes

abbrev pub current_entities : ParsedSchema → Dict EntitySpec
current_entities s = index (λ e. e.name) s.entities []

abbrev pub current_relations : ParsedSchema → Dict RelationSpec
current_relations s = index (λ r. r.name) s.relations []

unfoldable pub diff_schema : ParsedSchema → ParsedSchema → SchemaDiff
diff_schema desired current =
    let d₁ = diff_attributes (attribute_names current) empty_diff desired.attributes in
    let (d₂, entities) = diff_entities (current_entities current) d₁ [] desired.entities in
    let (d₃, relations) = diff_relations (current_relations current) d₂ [] desired.relations in
    let d₄ = diff_removed entities d₃ (keys (current_entities current)) in
    diff_removed relations d₄ (keys (current_relations current))
