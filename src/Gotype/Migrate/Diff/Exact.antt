-- ===== src/Gotype/Migrate/Diff/Exact.antt =====
-- What `DiffSchema` of gotype/migrate.go computes, as comprehensions over the two schemas.
use go_typeql.Base.{
  String, not, List, [], ◌∷◌, ◌++◌, append_assoc, append-nil, Option, none, some, contains,
  if◌then◌else◌, ◌≡◌, sym, ap, ◌∙◌, inl, inr, Bool-cases,
}
use go_typeql.Tqlgen.Model.{AttributeSpec, EntitySpec, RelationSpec, RelatesSpec, OwnsSpec}
use go_typeql.Gotype.Migrate.Define.{build_entity_define, build_relation_define}
use go_typeql.Gotype.Migrate.Diff.{
  SchemaDiff, AttrChange, TypeChange, OwnsChange, RelatesChange, owned, related, owns_change,
  relates_change, diff_owns, diff_relates, diff_attributes, diff_removed,
}

-- The items whose names are not in a set, each turned into a change.
module _ {A C : Type 0} (name : A → String) (change : A → C) where
  unfoldable pub missing : List String → List A → List C
  missing present [] = []
  missing present (x ∷ xs) =
      let rest = missing present xs in
      if not (contains present (name x)) then change x ∷ rest else rest

abbrev pub attr_change : AttributeSpec → AttrChange
attr_change a = record { name = a.name; value_type = a.value_type }

abbrev pub missing_attributes : List String → List AttributeSpec → List AttrChange
missing_attributes = missing (λ a. a.name) attr_change

abbrev pub missing_owns : String → List String → List OwnsSpec → List OwnsChange
missing_owns type = missing (λ o. o.attribute) (owns_change type)

abbrev pub missing_relates : String → List String → List RelatesSpec → List RelatesChange
missing_relates type = missing (λ r. r.role) (relates_change type)

abbrev pub missing_names : List String → List String → List String
missing_names = missing (λ n. n) (λ n. n)

-- What one desired entity adds, by whether the current schema has a type of its name.
abbrev pub entity_added : EntitySpec → Option EntitySpec → List TypeChange
entity_added e none = record { type_ql = build_entity_define e } ∷ []
entity_added e (some cur) = []

abbrev pub entity_owns : EntitySpec → Option EntitySpec → List OwnsChange
entity_owns e none = []
entity_owns e (some cur) = missing_owns e.name (owned cur.owns) e.owns

abbrev pub relation_added : RelationSpec → Option RelationSpec → List TypeChange
relation_added r none = record { type_ql = build_relation_define r } ∷ []
relation_added r (some cur) = []

abbrev pub relation_owns : RelationSpec → Option RelationSpec → List OwnsChange
relation_owns r none = []
relation_owns r (some cur) = missing_owns r.name (owned cur.owns) r.owns

abbrev pub relation_relates : RelationSpec → Option RelationSpec → List RelatesChange
relation_relates r none = []
relation_relates r (some cur) = missing_relates r.name (related cur.relates) r.relates

module _ {A C : Type 0} where
  abbrev pub gather : (A → List C) → List A → List C
  gather f [] = []
  gather f (x ∷ xs) = f x ++ gather f xs

abbrev pub add_owns_to : SchemaDiff → List OwnsChange → SchemaDiff
add_owns_to d cs = record d { add_owns = d.add_owns ++ cs }

pub diff_owns-missing :
    (type : String) (cur : List String) (d : SchemaDiff) (os : List OwnsSpec)
    → diff_owns type cur d os ≡ add_owns_to d (missing_owns type cur os)
unfolding diff_owns missing
diff_owns-missing type cur d [] =
    ap (λ xs. record d { add_owns = xs }) (sym (append-nil d.add_owns))
diff_owns-missing type cur d (o ∷ os) = elim (Bool-cases (contains cur o.attribute)) [
  | inl e ↦ rw e (diff_owns-missing type cur d os)
  | inr e ↦ rw e (
      diff_owns-missing type cur (add_owns_to d (owns_change type o ∷ [])) os
      ∙ ap (λ xs. record d { add_owns = xs }) (append_assoc d.add_owns _ _))
]

abbrev pub add_relates_to : SchemaDiff → List RelatesChange → SchemaDiff
add_relates_to d cs = record d { add_relates = d.add_relates ++ cs }

pub diff_relates-missing :
    (type : String) (cur : List String) (d : SchemaDiff) (rs : List RelatesSpec)
    → diff_relates type cur d rs ≡ add_relates_to d (missing_relates type cur rs)
unfolding diff_relates missing
diff_relates-missing type cur d [] =
    ap (λ xs. record d { add_relates = xs }) (sym (append-nil d.add_relates))
diff_relates-missing type cur d (r ∷ rs) = elim (Bool-cases (contains cur r.role)) [
  | inl e ↦ rw e (diff_relates-missing type cur d rs)
  | inr e ↦ rw e (
      diff_relates-missing type cur (add_relates_to d (relates_change type r ∷ [])) rs
      ∙ ap (λ xs. record d { add_relates = xs }) (append_assoc d.add_relates _ _))
]

pub diff_attributes-missing :
    (cur : List String) (d : SchemaDiff) (as_ : List AttributeSpec)
    → diff_attributes cur d as_
      ≡ record d { add_attributes = d.add_attributes ++ missing_attributes cur as_ }
unfolding diff_attributes missing
diff_attributes-missing cur d [] =
    ap (λ xs. record d { add_attributes = xs }) (sym (append-nil d.add_attributes))
diff_attributes-missing cur d (a ∷ as_) = elim (Bool-cases (contains cur a.name)) [
  | inl e ↦ rw e (diff_attributes-missing cur d as_)
  | inr e ↦ rw e (
      diff_attributes-missing cur
        (record d { add_attributes = d.add_attributes ++ attr_change a ∷ [] }) as_
      ∙ ap (λ xs. record d { add_attributes = xs }) (append_assoc d.add_attributes _ _))
]

pub diff_removed-missing :
    (desired : List String) (d : SchemaDiff) (names : List String)
    → diff_removed desired d names
      ≡ record d { remove_types = d.remove_types ++ missing_names desired names }
unfolding diff_removed missing
diff_removed-missing desired d [] =
    ap (λ xs. record d { remove_types = xs }) (sym (append-nil d.remove_types))
diff_removed-missing desired d (n ∷ ns) = elim (Bool-cases (contains desired n)) [
  | inl e ↦ rw e (diff_removed-missing desired d ns)
  | inr e ↦ rw e (
      diff_removed-missing desired (record d { remove_types = d.remove_types ++ n ∷ [] }) ns
      ∙ ap (λ xs. record d { remove_types = xs }) (append_assoc d.remove_types _ _))
]
