-- ===== src/Ast/Compiler/Patterns.antt =====
-- The patterns of ast/compiler.go.
use go_typeql.Base.{
  String, Bool, true, false, not, ◌&&◌, ◌==◌, List, [], ◌∷◌, none, some, ◌<>◌, if◌then◌else◌,
  Result, ok, err, ◌>>=◌, join,
}
use go_typeql.Ast.Nodes.{
  Pattern, Patterns, Alternatives, EntityPattern, RelationPattern, AttributePattern, RolePlayer,
  Constraint, entity, relation, sub_type, attribute, has, comparison, not_, or_, iid, raw,
  no_patterns, pattern_, no_alternatives, alternative,
}
use go_typeql.Ast.Compiler.Values.{
  CompileError, Compiled, unknown_pattern, compile_value, compile_operand, compile_constraint,
  isa_keyword,
}

-- The loop of `compileEntityPattern` over the constraints.
unfoldable pub write_constraints : String → List Constraint → Compiled
write_constraints b [] = ok b
write_constraints b (c ∷ cs) = compile_constraint c >>= λ s. write_constraints (b <> (", " <> s)) cs

unfoldable pub compile_entity_pattern : EntityPattern → Compiled
unfolding write_constraints
compile_entity_pattern p =
    write_constraints (p.variable <> (" " <> (isa_keyword p.is_strict <> (" " <> p.type_name))))
      p.constraints

unfoldable pub compile_attribute_pattern : AttributePattern → Compiled
compile_attribute_pattern p = elim p.value [
  | none ↦ ok (join "; " (head ∷ []))
  | some v ↦ compile_value v >>= λ s. ok (join "; " (head ∷ (p.variable <> (" " <> s)) ∷ []))
]
  where
    head : String
    head = p.variable <> (" isa " <> p.type_name)

-- Whether a role player is a bare `links (..)`, and the two lists that the loop splits into.
abbrev is_link : RolePlayer → Bool
is_link rp = rp.role == "links"

unfoldable pub link_roles : List RolePlayer → List RolePlayer
link_roles [] = []
link_roles (rp ∷ rps) = let rest = link_roles rps in if is_link rp then rp ∷ rest else rest

unfoldable pub regular_roles : List RolePlayer → List RolePlayer
regular_roles [] = []
regular_roles (rp ∷ rps) = let rest = regular_roles rps in if is_link rp then rest else rp ∷ rest

-- `appendRelationRoles`: what it writes; the flag is `i > 0`.
unfoldable pub write_roles : Bool → String → List RolePlayer → String
write_roles later b [] = b
write_roles later b (rp ∷ rps) =
    write_roles true ((if later then b <> ", " else b) <> (rp.role <> (": " <> rp.player_var))) rps

unfoldable pub append_relation_roles : String → List RolePlayer → String
unfolding write_roles
append_relation_roles b roles = write_roles false (b <> "(") roles <> ")"

abbrev pub is_empty_text : String → Bool
is_empty_text s = s == ""

-- A part and a space, unless the part is empty.
abbrev lead : String → String
lead s = if is_empty_text s then "" else s <> " "

has_roles : List RolePlayer → Bool
has_roles [] = false
has_roles (_ ∷ _) = true

-- The `switch` of `compileRelationPattern`: what the builder holds behind it.
unfoldable pub relation_head : RelationPattern → List RolePlayer → String
unfolding append_relation_roles has_roles
relation_head p roles =
    let op = isa_keyword p.is_strict in
    if not (is_empty_text p.type_name) && has_roles roles
    then (if not (is_empty_text p.variable)
        then append_relation_roles (p.variable <> (" " <> (op <> (" " <> (p.type_name <> " ")))))
            roles
        else append_relation_roles "" roles <> (" " <> (op <> (" " <> p.type_name))))
    else if not (is_empty_text p.type_name)
    then lead p.variable <> (op <> (" " <> p.type_name))
    else if has_roles roles
    then append_relation_roles (lead p.variable) roles
    else p.variable

-- `if b.Len() > 0 { b.WriteString(", ") }` and the next part.
unfoldable pub add_part : String → String → String
add_part b s = if is_empty_text b then s else b <> (", " <> s)

unfoldable pub write_links : String → List RolePlayer → String
unfolding add_part
write_links b [] = b
write_links b (rp ∷ rps) = write_links (add_part b ("links (" <> (rp.player_var <> ")"))) rps

unfoldable pub write_parts : String → List Constraint → Compiled
unfolding add_part
write_parts b [] = ok b
write_parts b (c ∷ cs) = compile_constraint c >>= λ s. write_parts (add_part b s) cs

unfoldable pub compile_relation_pattern : RelationPattern → Compiled
unfolding relation_head write_links write_parts link_roles regular_roles
compile_relation_pattern p =
    write_parts
      (write_links (relation_head p (regular_roles p.role_players)) (link_roles p.role_players))
      p.constraints

unfoldable mutual
  pub compile_pattern : Pattern → Compiled
  compile_pattern (entity p) = compile_entity_pattern p
  compile_pattern (relation p) = compile_relation_pattern p
  compile_pattern (sub_type p) = ok (p.variable <> (" sub " <> p.parent_type))
  compile_pattern (has p) = ok (p.thing_var <> (" has " <> (p.attr_type <> (" " <> p.attr_var))))
  compile_pattern (comparison p) =
      compile_operand p.value >>= λ s. ok (p.var <> (" " <> (p.operator <> (" " <> s))))
  compile_pattern (not_ ps) =
      compile_patterns ps >>= λ parts. ok ("not { " <> (join "; " parts <> "; }"))
  compile_pattern (or_ alts) = compile_alternatives alts >>= λ blocks. ok (join " or " blocks)
  compile_pattern (iid p) = ok (p.variable <> (" iid " <> p.iid))
  compile_pattern (attribute p) = compile_attribute_pattern p
  compile_pattern (raw s) = ok s
  compile_pattern Pattern.unknown = err unknown_pattern

  pub compile_patterns : Patterns → Result CompileError (List String)
  compile_patterns no_patterns = ok []
  compile_patterns (pattern_ p ps) =
      compile_pattern p >>= λ s. compile_patterns ps >>= λ ss. ok (s ∷ ss)

  pub compile_alternatives : Alternatives → Result CompileError (List String)
  compile_alternatives no_alternatives = ok []
  compile_alternatives (alternative ps alts) = compile_patterns ps >>= λ parts.
      compile_alternatives alts >>= λ blocks. ok (("{ " <> (join "; " parts <> "; }")) ∷ blocks)
