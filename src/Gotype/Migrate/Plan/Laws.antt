-- ===== src/Gotype/Migrate/Plan/Laws.antt =====
-- What the statements, operations and breaking changes of a `SchemaDiff` have to do with each other.
use text.Mathlib.TextLemmas.{append-eq-nil_iff}
use go_typeql.Base.{
  String, Bool, true, false, not, ◌&&◌, List, [], ◌∷◌, ◌++◌, append_assoc, append-nil, map,
  map-append, ◌<>◌, <>_assoc, ◌==◌, eq_iff, ◌≡◌, ◌≢◌, refl, sym, ap, ap₂, ◌∙◌, inl, inr, arith,
  Bool-cases, All, All-append, if◌then◌else◌,
}
use go_typeql.Gotype.Migrate.Define.{is_set}
use go_typeql.Gotype.Migrate.Diff.{
  SchemaDiff, AttrChange, TypeChange, OwnsChange, RelatesChange, is_empty, none_in,
}
use go_typeql.Gotype.Migrate.Operations.{
  Operation, add_attribute, add_entity, add_relation, add_ownership, add_role, remove_attribute,
  remove_entity, remove_relation, remove_ownership, remove_role, add_role_player,
  remove_role_player, modify_ownership, rename_attribute, run_type_ql, to_type_ql, is_reversible,
  is_destructive, rollback_type_ql,
}
use go_typeql.Gotype.Migrate.Plan.{
  append_each, generate_migration, operations, destructive_operations, generate_migration_with_opts,
  breaking_changes, has_breaking_changes, attribute_operation, entity_operation, relation_operation,
  owns_operation, relates_operation, owns_removal, attribute_statement, type_statement,
  owns_statement, relates_statement, removed_type, removed_owns,
}

module _ {ℓ κ} {A : Type ℓ} {B : Type κ} (f : A → B) where
  pub append_each-map : (out : List B) (xs : List A) → append_each f out xs ≡ out ++ map f xs
  unfolding append_each
  append_each-map out [] = sym (append-nil out)
  append_each-map out (x ∷ xs) =
      append_each-map (out ++ f x ∷ []) xs ∙ append_assoc out (f x ∷ []) (map f xs)

  All-append_each :
      (P : B → Type 0) (out : List B) (xs : List A)
      → All P out
      → ((x : A) → P (f x))
      → All P (append_each f out xs)
  All-append_each P out xs h k =
      rw (append_each-map out xs) (All-append P out (map f xs) h (images xs))
    where
      images : (ys : List A) → All P (map f ys)
      images [] = tt
      images (y ∷ ys) = (k y, images ys)

  map-congruent : (g : A → B) (xs : List A) → All (λ x. f x ≡ g x) xs → map f xs ≡ map g xs
  map-congruent g [] h = refl
  map-congruent g (x ∷ xs) h = ap₂ (λ y ys. y ∷ ys) h.0 (map-congruent g xs h.1)

All-each : {A : Type 0} (P : A → Type 0) → ((x : A) → P x) → (xs : List A) → All P xs
All-each P h [] = tt
All-each P h (x ∷ xs) = (h x, All-each P h xs)

map-map :
    {A B C : Type 0} (f : A → B) (g : B → C) (xs : List A)
    → map g (map f xs) ≡ map (λ x. g (f x)) xs
map-map f g [] = refl
map-map f g (x ∷ xs) = ap (λ ys. g (f x) ∷ ys) (map-map f g xs)

operations-map :
    (d : SchemaDiff)
    → operations d
      ≡ (((map attribute_operation d.add_attributes ++ map entity_operation d.add_entities)
            ++ map relation_operation d.add_relations)
          ++ map owns_operation d.add_owns)
        ++ map relates_operation d.add_relates
unfolding operations
operations-map d = simp append_each-map

pub generate_migration-map :
    (d : SchemaDiff)
    → generate_migration d
      ≡ (((map attribute_statement d.add_attributes ++ map type_statement d.add_entities)
            ++ map type_statement d.add_relations)
          ++ map owns_statement d.add_owns)
        ++ map relates_statement d.add_relates
unfolding generate_migration
generate_migration-map d = simp append_each-map

pub destructive_operations-map :
    (d : SchemaDiff)
    → destructive_operations d ≡ map owns_removal d.remove_owns ++ map remove_entity d.remove_types
unfolding destructive_operations
destructive_operations-map d = simp append_each-map

abbrev Keeps : Operation → Type 0
Keeps op = is_destructive op ≡ false

abbrev Destroys : Operation → Type 0
Destroys op = is_destructive op ≡ true

-- No operation that a diff is turned into is destructive, but for those of `DestructiveOperations`,
-- each of which is.
pub operations-is_destructive :
    (d : SchemaDiff)
    → All (λ op. is_destructive op ≡ false) (operations d)
      × All (λ op. is_destructive op ≡ true) (destructive_operations d)
unfolding operations destructive_operations is_destructive
operations-is_destructive d =
    let o₁ = append_each attribute_operation [] d.add_attributes in
    let o₂ = append_each entity_operation o₁ d.add_entities in
    let o₃ = append_each relation_operation o₂ d.add_relations in
    let o₄ = append_each owns_operation o₃ d.add_owns in
    let h₁ = All-append_each attribute_operation Keeps [] d.add_attributes tt (λ x. refl) in
    let h₂ = All-append_each entity_operation Keeps o₁ d.add_entities h₁ (λ x. refl) in
    let h₃ = All-append_each relation_operation Keeps o₂ d.add_relations h₂ (λ x. refl) in
    let h₄ = All-append_each owns_operation Keeps o₃ d.add_owns h₃ (λ x. refl) in
    let removals = append_each owns_removal [] d.remove_owns in
    let k = All-append_each owns_removal Destroys [] d.remove_owns tt (λ x. refl) in
    (
      All-append_each relates_operation Keeps o₄ d.add_relates h₄ (λ x. refl),
      All-append_each remove_entity Destroys removals d.remove_types k (λ x. refl),
    )

abbrev pub IsDefined : TypeChange → Type 0
IsDefined t = is_set t.type_ql ≡ true

statement-owns : (o : OwnsChange) → to_type_ql (owns_operation o) ≡ owns_statement o
unfolding to_type_ql
statement-owns o = simp <>_assoc (sym (<>_assoc "define" " " _))

statement-relates : (r : RelatesChange) → to_type_ql (relates_operation r) ≡ relates_statement r
unfolding to_type_ql
statement-relates r = simp <>_assoc (sym (<>_assoc "define" " " _))

statement-attribute : (a : AttrChange) → to_type_ql (attribute_operation a) ≡ attribute_statement a
unfolding to_type_ql
statement-attribute a = refl

statement-types :
    (ts : List TypeChange)
    → All IsDefined ts
    → (map (λ t. to_type_ql (entity_operation t)) ts ≡ map type_statement ts)
      × (map (λ t. to_type_ql (relation_operation t)) ts ≡ map type_statement ts)
unfolding to_type_ql
statement-types [] h = (refl, refl)
statement-types (t ∷ ts) h = let ih = statement-types ts h.1 in (rw (h.0, ih.0), rw (h.0, ih.1))

operations-generate_migration :
    (d : SchemaDiff)
    → All IsDefined d.add_entities
    → All IsDefined d.add_relations
    → map to_type_ql (operations d) ≡ generate_migration d
operations-generate_migration d he hr =
    rw (operations-map d, generate_migration-map d)
      (simp (
        map-append,
        map-map,
        map-congruent _ attribute_statement _ (All-each _ statement-attribute d.add_attributes),
        (statement-types d.add_entities he).0,
        (statement-types d.add_relations hr).1,
        map-congruent _ owns_statement _ (All-each _ statement-owns d.add_owns),
        map-congruent _ relates_statement _ (All-each _ statement-relates d.add_relates),
      ))

-- On a diff all of whose types are defined, `GenerateMigrationWithOpts` gives the statements of
-- `GenerateMigration`, and behind these, only where removals were asked for, the statements of the
-- destructive operations.
pub generate_migration_with_opts-eq :
    (destructive : Bool) (d : SchemaDiff)
    → All IsDefined d.add_entities
    → All IsDefined d.add_relations
    → generate_migration_with_opts destructive d
      ≡ generate_migration d
        ++ (if destructive then map to_type_ql (destructive_operations d) else [])
unfolding generate_migration_with_opts
generate_migration_with_opts-eq true d he hr =
    simp (append_each-map, operations-generate_migration d he hr)
generate_migration_with_opts-eq false d he hr =
    append_each-map to_type_ql [] (operations d)
    ∙ operations-generate_migration d he hr
    ∙ sym (append-nil (generate_migration d))

pub is_set-<> : (s t : String) → is_set s ≡ true → is_set (s <> t) ≡ true
is_set-<> s t h = elim (Bool-cases (s <> t == "")) [
  | inl e ↦ absurd (filled (append-eq-nil_iff.0 ((eq_iff (s <> t) "").0 e)).0)
  | inr e ↦ rw e
]
  where
    filled : s ≢ ""
    filled e = cc (h, ap is_set e)

-- An operation calls itself reversible exactly where it has a rollback statement.
is_reversible-rollback_type_ql : (op : Operation) → is_reversible op ≡ is_set (rollback_type_ql op)
unfolding is_reversible rollback_type_ql
is_reversible-rollback_type_ql (add_attribute n v) = sym (is_set-<> "undefine attribute " _ refl)
is_reversible-rollback_type_ql (add_entity t) = sym (is_set-<> "undefine entity " _ refl)
is_reversible-rollback_type_ql (add_relation t) = sym (is_set-<> "undefine relation " _ refl)
is_reversible-rollback_type_ql (add_ownership o a) =
    sym (is_set-<> _ ";" (is_set-<> "undefine" _ refl))
is_reversible-rollback_type_ql (add_role r x c) =
    sym (is_set-<> _ ";" (is_set-<> "undefine" _ refl))
is_reversible-rollback_type_ql (remove_attribute _) = refl
is_reversible-rollback_type_ql (remove_entity _) = refl
is_reversible-rollback_type_ql (remove_relation _) = refl
is_reversible-rollback_type_ql (remove_ownership _) = refl
is_reversible-rollback_type_ql (remove_role _ _) = refl
is_reversible-rollback_type_ql (add_role_player p) = sym (is_set-<> "undefine" _ refl)
is_reversible-rollback_type_ql (remove_role_player _) = refl
is_reversible-rollback_type_ql (modify_ownership o old new) = elim (Bool-cases (is_set old)) [
  | inl e ↦ rw (
    e,
    is_set-<> _ (" " <> (old <> ";"))
        (is_set-<> "redefine " (o.owner <> (", owns " <> o.attribute)) refl),
  )
  | inr e ↦ rw e
]
is_reversible-rollback_type_ql (rename_attribute _ _ _) = refl
is_reversible-rollback_type_ql (run_type_ql up down) = refl

none_in-append : {A : Type 0} (xs ys : List A) → none_in (xs ++ ys) ≡ none_in xs && none_in ys
none_in-append [] ys = refl
none_in-append (x ∷ xs) ys = refl

none_in-map : {A B : Type 0} (f : A → B) (xs : List A) → none_in (map f xs) ≡ none_in xs
none_in-map f [] = refl
none_in-map f (x ∷ xs) = refl

breaking_changes-map :
    (d : SchemaDiff)
    → breaking_changes d ≡ map removed_type d.remove_types ++ map removed_owns d.remove_owns
unfolding breaking_changes
breaking_changes-map d = simp append_each-map

-- `HasBreakingChanges` is whether `BreakingChanges` lists any; these are one for each removed type and
-- then one for each removed owns clause; and an empty diff has none.
pub has_breaking_changes-breaking_changes :
    (d : SchemaDiff)
    → (has_breaking_changes d ≡ not (none_in (breaking_changes d)))
      × (breaking_changes d ≡ map removed_type d.remove_types ++ map removed_owns d.remove_owns)
      × (is_empty d ≡ true → has_breaking_changes d ≡ false)
unfolding has_breaking_changes is_empty
has_breaking_changes-breaking_changes d =
    let changes = breaking_changes-map d in
    (
      rw (changes, none_in-append, none_in-map, none_in-map) (ground arith),
      changes,
      λ h. ground arith,
    )
