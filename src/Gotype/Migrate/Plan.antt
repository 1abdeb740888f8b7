-- ===== src/Gotype/Migrate/Plan.antt =====
-- What `SchemaDiff` is turned into: the statements, operations, breaking changes and summary of
-- gotype/migrate.go and gotype/migrate_ops.go.
pub mod Laws
use go_typeql.Base.{
  String, Bool, true, false, not, ◌&&◌, ◌||◌, ℕ, List, [], ◌∷◌, ◌++◌, map, ◌<>◌, join, itoa, pos,
  length, if◌then◌else◌,
}
use go_typeql.Gotype.Migrate.Define.{quote}
use go_typeql.Gotype.Migrate.Diff.{
  SchemaDiff, AttrChange, TypeChange, OwnsChange, RelatesChange, is_empty, none_in,
}
use go_typeql.Gotype.Migrate.Operations.{
  Operation, Ownership, AddType, add_attribute, add_entity, add_relation, add_ownership, add_role,
  remove_ownership, remove_entity, to_type_ql, spaced, carded,
}

-- `for _, x := range xs { out = append(out, f(x)) }`.
unfoldable pub append_each {ℓ κ} : {A : Type ℓ} {B : Type κ} → (A → B) → List B → List A → List B
append_each f out [] = out
append_each f out (x ∷ xs) = append_each f (out ++ f x ∷ []) xs

abbrev pub attribute_statement : AttrChange → String
attribute_statement a = "define attribute " <> (a.name <> (", value " <> (a.value_type <> ";")))

abbrev pub type_statement : TypeChange → String
type_statement t = "define " <> t.type_ql

abbrev pub owns_statement : OwnsChange → String
owns_statement o =
    "define " <> (o.type_name <> (" owns " <> (o.attribute <> (spaced o.annots <> ";"))))

abbrev pub relates_statement : RelatesChange → String
relates_statement r =
    "define " <> (r.type_name <> (" relates " <> (r.role <> (carded r.card <> ";"))))

unfoldable pub generate_migration : SchemaDiff → List String
unfolding append_each
generate_migration d =
    let s₁ = append_each attribute_statement [] d.add_attributes in
    let s₂ = append_each type_statement s₁ d.add_entities in
    let s₃ = append_each type_statement s₂ d.add_relations in
    let s₄ = append_each owns_statement s₃ d.add_owns in
    append_each relates_statement s₄ d.add_relates

-- `AddEntity{TypeQL: t.TypeQL}` and `AddRelation{TypeQL: t.TypeQL}`.
abbrev pub defined_by : TypeChange → AddType
defined_by t = record { name = ""; parent = ""; abstract = false; type_ql = t.type_ql }

abbrev ownership_of : OwnsChange → Ownership
ownership_of o = record { owner = o.type_name; attribute = o.attribute }

abbrev pub attribute_operation : AttrChange → Operation
attribute_operation a = add_attribute a.name a.value_type

abbrev pub entity_operation : TypeChange → Operation
entity_operation t = add_entity (defined_by t)

abbrev pub relation_operation : TypeChange → Operation
relation_operation t = add_relation (defined_by t)

abbrev pub owns_operation : OwnsChange → Operation
owns_operation o = add_ownership (ownership_of o) o.annots

abbrev pub relates_operation : RelatesChange → Operation
relates_operation r = add_role r.type_name r.role r.card

abbrev pub owns_removal : OwnsChange → Operation
owns_removal o = remove_ownership (ownership_of o)

unfoldable pub operations : SchemaDiff → List Operation
unfolding append_each
operations d =
    let o₁ = append_each attribute_operation [] d.add_attributes in
    let o₂ = append_each entity_operation o₁ d.add_entities in
    let o₃ = append_each relation_operation o₂ d.add_relations in
    let o₄ = append_each owns_operation o₃ d.add_owns in
    append_each relates_operation o₄ d.add_relates

unfoldable pub destructive_operations : SchemaDiff → List Operation
unfolding append_each
destructive_operations d =
    append_each remove_entity (append_each owns_removal [] d.remove_owns) d.remove_types

-- The options are folded into `cfg.destructive` beforehand.
unfoldable pub generate_migration_with_opts : Bool → SchemaDiff → List String
unfolding append_each
generate_migration_with_opts destructive d =
    let stmts = append_each to_type_ql [] (operations d) in
    if destructive then append_each to_type_ql stmts (destructive_operations d) else stmts

pub record BreakingChange : Type 0 where
  pub type : String
  pub entity : String
  pub detail : String

abbrev pub removed_type : String → BreakingChange
removed_type name = record {
  type = "removal";
  entity = name;
  detail =
      "type "
      <> (quote name
          <> " exists in DB but not in Go structs — removing would delete all instances");
}

abbrev pub removed_owns : OwnsChange → BreakingChange
removed_owns o = record {
  type = "removal";
  entity = o.type_name;
  detail =
      "ownership "
      <> (o.type_name
          <> ("."
              <> (o.attribute
                  <> " exists in DB but not in Go structs — removing would delete attribute data")));
}

unfoldable pub breaking_changes : SchemaDiff → List BreakingChange
unfolding append_each
breaking_changes d =
    append_each removed_owns (append_each removed_type [] d.remove_types) d.remove_owns

unfoldable pub has_breaking_changes : SchemaDiff → Bool
has_breaking_changes d = not (none_in d.remove_types) || not (none_in d.remove_owns)

counted : {A : Type 0} → (String → String) → List A → List String → List String
counted say [] parts = parts
counted say (x ∷ xs) parts = parts ++ say (itoa (pos (length (x ∷ xs)))) ∷ []

unfoldable pub summary : SchemaDiff → String
unfolding counted
summary d =
    if is_empty d && none_in d.remove_types && none_in d.remove_owns
    then "schema is up to date"
    else let names = join ", " (map (λ a. AttrChange.name a) d.add_attributes) in
      let p₁ = counted (λ n. "add " <> (n <> (" attribute(s): " <> names))) d.add_attributes [] in
      let p₂ = counted (λ n. "add " <> (n <> " entity type(s)")) d.add_entities p₁ in
      let p₃ = counted (λ n. "add " <> (n <> " relation type(s)")) d.add_relations p₂ in
      let p₄ = counted (λ n. "add " <> (n <> " owns clause(s)")) d.add_owns p₃ in
      let p₅ = counted (λ n. "add " <> (n <> " relates clause(s)")) d.add_relates p₄ in
      let p₆ =
        counted
          (λ n. "WARNING: " <> (n <> (" type(s) in DB not in code: " <> join ", " d.remove_types)))
          d.remove_types p₅ in
      let p₇ =
        counted (λ n. "WARNING: " <> (n <> " owns clause(s) in DB not in code")) d.remove_owns p₆ in
      join "; " p₇
