-- ===== src/Gotype/Models/Strategy.antt =====
-- gotype/strategy.go: the queries that the strategies for entities and relations build. A method that both
-- strategies have with the same body is one function.
mod Texts
mod Tests
use go_typeql.Base.{
  String, Bool, true, false, List, [], ◌∷◌, ◌++◌, map, ℕ, Option, none, some, ok, err, ◌>>=◌, ◌<>◌,
  ◌==◌, join, if◌then◌else◌, Result,
}
use go_typeql.Ast.Nodes.{Pattern, Statement, Constraint}
use go_typeql.Ast.Clauses.{Clause, FetchItem, QueryNode}
use go_typeql.Ast.Compiler.{Compiled, CompileError, compile}
use go_typeql.Ast.Literals.{format_go_value}
use go_typeql.Ast.Builders.{Argument, go_value, value_from_go, has_stmt}
use go_typeql.Ast.Builders
use go_typeql.Gotype.Models.{
  ModelKind, entity_kind, relation_kind, ModelInfo, FieldInfo, RoleInfo, Held, Instance, Player,
  nil_player, unregistered, player, field_values, single_value,
}

abbrev pub var : String → String
var name = "$" <> name

pub compile_clause_node : Clause → Compiled
compile_clause_node c = compile (QueryNode.clause c)

pub append_iid_fetch : String → String → Compiled
unfolding compile_clause_node
append_iid_fetch query var_name =
    compile_clause_node (Clause.fetch (FetchItem.function "_iid" "iid" (var var_name) ∷ []))
    >>= λ fetch. ok (query <> ("\n" <> fetch))

-- The loop over the fields and their values, with what each value adds.
pub each_value {ℓ} : {A : Type ℓ} → (FieldInfo → Argument → A) → Instance → List FieldInfo → List A
unfolding field_values
each_value add inst [] = []
each_value add inst (f ∷ fs) =
    map (add f) (field_values (inst.field f.field_index)) ++ each_value add inst fs

pub add_constraint : FieldInfo → Option Argument → List Constraint → List Constraint
add_constraint f none rest = rest
add_constraint f (some a) rest = Builders.has f.tag.name (value_from_go a) ∷ rest

-- The loop over key fields; the fields are those of the instance or of a role's player.
pub key_constraints : (ℕ → Held) → List FieldInfo → List Constraint
unfolding single_value add_constraint
key_constraints field [] = []
key_constraints field (f ∷ fs) =
    add_constraint f (single_value (field f.field_index)) (key_constraints field fs)

unfoldable pub entity_insert_or_put : ModelInfo → Instance → String → String → Compiled
unfolding each_value compile_clause_node
entity_insert_or_put info inst var_name keyword =
    let x = var var_name in
    let statements =
      Statement.isa (record { variable = x; type_name = info.type_name })
      ∷ each_value (λ f a. has_stmt x f.tag.name (value_from_go a)) inst info.fields in
    compile_clause_node
      (if keyword == "insert" then Clause.insert statements else Clause.put statements)

unfoldable pub entity_match_by_key : ModelInfo → Instance → String → Compiled
unfolding key_constraints compile_clause_node
entity_match_by_key info inst var_name =
    let constraints = key_constraints inst.field info.key_fields in
    compile_clause_node (
      Clause.match_
        (Pattern.entity (Builders.entity (var var_name) info.type_name constraints) ∷ []))

unfoldable pub build_match_by_iid : String → String → Compiled
unfolding compile_clause_node
build_match_by_iid i var_name =
    compile_clause_node
      (Clause.match_ (Pattern.iid (record { variable = var var_name; iid = i }) ∷ []))

unfoldable pub build_match_all : ModelInfo → String → Compiled
unfolding compile_clause_node
build_match_all info var_name =
    compile_clause_node
      (Clause.match_ (Pattern.entity (Builders.entity (var var_name) info.type_name []) ∷ []))

unfoldable pub build_match_all_strict : ModelInfo → String → Compiled
unfolding compile_clause_node
build_match_all_strict info var_name = compile_clause_node (
    Clause.match_ (
      Pattern.raw (var var_name <> " isa! $t")
      ∷ Pattern.sub_type (record { variable = "$t"; parent_type = info.type_name })
      ∷ []))

-- `appendFetchField`: the item of one field.
pub fetch_field : String → FieldInfo → FetchItem
fetch_field var_name f =
    if f.is_slice
    then FetchItem.attribute_list f.tag.name (var var_name) f.tag.name
    else FetchItem.attribute f.tag.name (var var_name) f.tag.name

unfoldable pub build_fetch_all : ModelInfo → String → Compiled
unfolding fetch_field compile_clause_node
build_fetch_all info var_name = compile_clause_node (
    Clause.fetch
      (FetchItem.function "_iid" "iid" (var var_name) ∷ map (fetch_field var_name) info.fields))

unfoldable pub build_fetch_all_with_type : ModelInfo → String → Compiled
unfolding fetch_field compile_clause_node
build_fetch_all_with_type info var_name = compile_clause_node (
    Clause.fetch (
      FetchItem.function "_iid" "iid" (var var_name)
      ∷ FetchItem.function "_type" "label" "$t"
      ∷ map (fetch_field var_name) info.fields))

-- `appendFetchProjectionItems`: the text of one field.
pub projection_item : String → FieldInfo → String
projection_item var_name f =
    let path = var var_name <> ("." <> f.tag.name) in
    "\"" <> (f.tag.name <> ("\": " <> (if f.is_slice then "[" <> (path <> "]") else path)))

-- A role with a player adds a pattern that matches it and a part of `links (…)`.
pub add_player : RoleInfo → Player → List Pattern × List String → List Pattern × List String
unfolding key_constraints
add_player r (player info i field) rest =
    let constraints =
      if i == "" then key_constraints field info.key_fields else Constraint.iid i ∷ [] in
    (
      Pattern.entity (Builders.entity (var r.role_name) info.type_name constraints) ∷ rest.0,
      (r.role_name <> (": " <> var r.role_name)) ∷ rest.1,
    )
add_player r _ rest = rest

pub player_patterns : Instance → List RoleInfo → List Pattern × List String
unfolding add_player
player_patterns inst [] = ([], [])
player_patterns inst (r ∷ rs) =
    add_player r (inst.player_of r.field_index) (player_patterns inst rs)

-- What stands in front of the clause that writes: a match, where a role has a player.
pub match_before : List Pattern → Compiled
unfolding compile_clause_node
match_before [] = ok ""
match_before (p ∷ ps) = compile_clause_node (Clause.match_ (p ∷ ps)) >>= λ s. ok (s <> "\n")

-- `insertParts`: the relation with its players, and an attribute for each value.
pub insert_parts : ModelInfo → Instance → String → List String
unfolding each_value player_patterns
insert_parts info inst var_name =
    let roles = (player_patterns inst info.roles).1 in
    (var var_name <> (" isa " <> (info.type_name <> (", links (" <> (join ", " roles <> ")")))))
    ∷ each_value (λ f a. "has " <> (f.tag.name <> (" " <> format_go_value (go_value a)))) inst
        info.fields

unfoldable pub relation_insert_or_put : ModelInfo → Instance → String → String → Compiled
unfolding player_patterns match_before insert_parts
relation_insert_or_put info inst var_name keyword =
    match_before (player_patterns inst info.roles).0 >>= λ before.
    ok (before <> (keyword <> ("\n" <> (join ",\n" (insert_parts info inst var_name) <> ";"))))

unfoldable pub relation_match_by_key : ModelInfo → Instance → String → Compiled
unfolding build_match_by_iid build_match_all
relation_match_by_key info inst var_name =
    if inst.iid == "" then build_match_all info var_name else build_match_by_iid inst.iid var_name

-- The registry finds the model of a player's type.
module _ (lookup_type : String → Option ModelInfo) where
  pub role_item : RoleInfo → String
  unfolding projection_item
  role_item r =
      let iid_item = "\"_iid\": iid(" <> (var r.role_name <> ")") in
      elim (lookup_type r.player_type_name) [
        | none ↦ "\"" <> (r.role_name <> ("\": { " <> (iid_item <> " }")))
        | some info ↦
            "\""
            <> (r.role_name
                <> ("\": { "
                    <> (join ", " (iid_item ∷ map (projection_item r.role_name) info.fields)
                        <> " }")))
      ]

  abbrev link_text : String → RoleInfo → String
  link_text var_name r =
      var var_name <> (" links (" <> (r.role_name <> (": " <> (var r.role_name <> ")"))))

  -- The additions to the match, and the fetch clause.
  unfoldable pub build_fetch_with_roles : ModelInfo → String → String × String
  unfolding projection_item role_item
  build_fetch_with_roles info var_name =
      let items =
        ("\"_iid\": iid(" <> (var var_name <> ")"))
        ∷ (map (projection_item var_name) info.fields ++ map role_item info.roles) in
      let additions : String = elim info.roles [
        | [] ↦ ""
        | r ∷ rs ↦ join ";\n" (map (link_text var_name) (r ∷ rs)) <> ";"
      ] in
      (additions, "fetch {\n" <> (join ",\n" items <> "\n};"))

-- `strategyFor`: the methods of the strategy of a kind.
pub strategy_put : ModelKind → ModelInfo → Instance → String → Compiled
strategy_put entity_kind info inst var_name = entity_insert_or_put info inst var_name "put"
strategy_put relation_kind info inst var_name = relation_insert_or_put info inst var_name "put"

pub strategy_insert : ModelKind → ModelInfo → Instance → String → Compiled
unfolding append_iid_fetch
strategy_insert entity_kind info inst var_name =
    entity_insert_or_put info inst var_name "insert" >>= λ q. append_iid_fetch q var_name
strategy_insert relation_kind info inst var_name =
    relation_insert_or_put info inst var_name "insert" >>= λ q. append_iid_fetch q var_name

pub strategy_match_by_key : ModelKind → ModelInfo → Instance → String → Compiled
strategy_match_by_key entity_kind info inst var_name = entity_match_by_key info inst var_name
strategy_match_by_key relation_kind info inst var_name = relation_match_by_key info inst var_name

unfoldable pub build_put_query : ModelInfo → Instance → String → Compiled
unfolding strategy_put
build_put_query info inst var_name = strategy_put info.kind info inst var_name

unfoldable pub build_insert_query : ModelInfo → Instance → String → Compiled
unfolding strategy_insert
build_insert_query info inst var_name = strategy_insert info.kind info inst var_name

unfoldable pub build_match_by_key : ModelInfo → Instance → String → Compiled
unfolding strategy_match_by_key
build_match_by_key info inst var_name = strategy_match_by_key info.kind info inst var_name
