-- ===== src/Gotype/Migrate/Operations.antt =====
-- gotype/migrate_ops.go: the operations of a migration.
use go_typeql.Base.{String, Bool, true, false, ◌<>◌, if◌then◌else◌}
use go_typeql.Gotype.Migrate.Define.{is_set}

-- A type is named, or comes with its whole definition.
pub record AddType : Type 0 where
  pub name : String
  pub parent : String
  pub abstract : Bool
  pub type_ql : String

pub record Ownership : Type 0 where
  pub owner : String
  pub attribute : String

pub record RolePlayerOf : Type 0 where
  pub entity : String
  pub relation : String
  pub role : String

-- The implementations of the interface `Operation`.
pub data Operation : Type 0 where
  add_attribute : String → String → Operation
  add_entity : AddType → Operation
  add_relation : AddType → Operation
  add_ownership : Ownership → String → Operation
  add_role : String → String → String → Operation
  remove_attribute : String → Operation
  remove_entity : String → Operation
  remove_relation : String → Operation
  remove_ownership : Ownership → Operation
  remove_role : String → String → Operation
  add_role_player : RolePlayerOf → Operation
  remove_role_player : RolePlayerOf → Operation
  modify_ownership : Ownership → String → String → Operation
  rename_attribute : String → String → String → Operation
  run_type_ql : String → String → Operation

-- A text behind a space, unless it is empty.
abbrev pub spaced : String → String
spaced s = if is_set s then " " <> s else ""

abbrev pub carded : String → String
carded card = if is_set card then " @card(" <> (card <> ")") else ""

add_type_text : String → AddType → String
add_type_text kind t =
    if is_set t.type_ql
    then "define " <> t.type_ql
    else let s₁ = "define " <> (kind <> (" " <> t.name)) in
      let s₂ = if t.abstract then s₁ <> " @abstract" else s₁ in
      let s₃ = if is_set t.parent then s₂ <> (" sub " <> t.parent) else s₂ in s₃ <> ";"

-- `<verb> <owner> owns <attribute>`, and what a relation relates and an entity plays.
owns_text : String → Ownership → String
owns_text verb o = verb <> (" " <> (o.owner <> (" owns " <> o.attribute)))

relates_text : String → String → String → String
relates_text verb relation role = verb <> (" " <> (relation <> (" relates " <> role)))

plays_text : String → RolePlayerOf → String
plays_text verb p =
    verb <> (" " <> (p.entity <> (" plays " <> (p.relation <> (":" <> (p.role <> ";"))))))

redefine_text : Ownership → String
redefine_text o = "redefine " <> (o.owner <> (", owns " <> o.attribute))

attribute_text : String → String → String
attribute_text name value_type =
    "define attribute " <> (name <> (", value " <> (value_type <> ";")))

unfoldable pub to_type_ql : Operation → String
unfolding add_type_text owns_text relates_text plays_text redefine_text attribute_text
to_type_ql (add_attribute name value_type) = attribute_text name value_type
to_type_ql (add_entity t) = add_type_text "entity" t
to_type_ql (add_relation t) = add_type_text "relation" t
to_type_ql (add_ownership o annots) = owns_text "define" o <> (spaced annots <> ";")
to_type_ql (add_role relation role card) =
    relates_text "define" relation role <> (carded card <> ";")
to_type_ql (remove_attribute name) = "undefine attribute " <> (name <> ";")
to_type_ql (remove_entity name) = "undefine entity " <> (name <> ";")
to_type_ql (remove_relation name) = "undefine relation " <> (name <> ";")
to_type_ql (remove_ownership o) = owns_text "undefine" o <> ";"
to_type_ql (remove_role relation role) = relates_text "undefine" relation role <> ";"
to_type_ql (add_role_player p) = plays_text "define" p
to_type_ql (remove_role_player p) = plays_text "undefine" p
to_type_ql (modify_ownership o old_annots new_annots) =
    redefine_text o <> (spaced new_annots <> ";")
to_type_ql (rename_attribute old_name new_name value_type) = attribute_text new_name value_type
to_type_ql (run_type_ql up down) = up

unfoldable pub is_reversible : Operation → Bool
is_reversible (add_attribute _ _) = true
is_reversible (add_entity _) = true
is_reversible (add_relation _) = true
is_reversible (add_ownership _ _) = true
is_reversible (add_role _ _ _) = true
is_reversible (remove_attribute _) = false
is_reversible (remove_entity _) = false
is_reversible (remove_relation _) = false
is_reversible (remove_ownership _) = false
is_reversible (remove_role _ _) = false
is_reversible (add_role_player _) = true
is_reversible (remove_role_player _) = false
is_reversible (modify_ownership _ old_annots _) = is_set old_annots
is_reversible (rename_attribute _ _ _) = false
is_reversible (run_type_ql _ down) = is_set down

unfoldable pub is_destructive : Operation → Bool
is_destructive (remove_attribute _) = true
is_destructive (remove_entity _) = true
is_destructive (remove_relation _) = true
is_destructive (remove_ownership _) = true
is_destructive (remove_role _ _) = true
is_destructive (remove_role_player _) = true
is_destructive (add_attribute _ _) = false
is_destructive (add_entity _) = false
is_destructive (add_relation _) = false
is_destructive (add_ownership _ _) = false
is_destructive (add_role _ _ _) = false
is_destructive (add_role_player _) = false
is_destructive (modify_ownership _ _ _) = false
is_destructive (rename_attribute _ _ _) = false
is_destructive (run_type_ql _ _) = false

unfoldable pub rollback_type_ql : Operation → String
unfolding owns_text relates_text plays_text redefine_text
rollback_type_ql (add_attribute name _) = "undefine attribute " <> (name <> ";")
rollback_type_ql (add_entity t) = "undefine entity " <> (t.name <> ";")
rollback_type_ql (add_relation t) = "undefine relation " <> (t.name <> ";")
rollback_type_ql (add_ownership o _) = owns_text "undefine" o <> ";"
rollback_type_ql (add_role relation role _) = relates_text "undefine" relation role <> ";"
rollback_type_ql (remove_attribute _) = ""
rollback_type_ql (remove_entity _) = ""
rollback_type_ql (remove_relation _) = ""
rollback_type_ql (remove_ownership _) = ""
rollback_type_ql (remove_role _ _) = ""
rollback_type_ql (add_role_player p) = plays_text "undefine" p
rollback_type_ql (remove_role_player _) = ""
rollback_type_ql (modify_ownership o old_annots _) =
    if is_set old_annots then redefine_text o <> (" " <> (old_annots <> ";")) else ""
rollback_type_ql (rename_attribute _ _ _) = ""
rollback_type_ql (run_type_ql _ down) = down
