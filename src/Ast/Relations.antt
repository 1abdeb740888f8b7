-- ===== src/Ast/Relations.antt =====
-- The relation patterns of ast/compiler.go: which parts they have, and the commas between these.
use text.Mathlib.TextLemmas.{append-eq-nil_iff}
use go_typeql.Base.{
  String, true, false, List, [], ◌∷◌, ◌++◌, append_assoc, append-nil, map, ◌<>◌, <>_assoc, <>-nil,
  ◌==◌, eq_iff, if◌then◌else◌, ok, ◌>>=◌, separated, separated-append, join, map_result,
  Result-cases, ◌≡◌, ◌≢◌, sym, ap, subst, ◌∙◌, inl, inr, arith, Bool-cases, All,
}
use go_typeql.Ast.Nodes.{Constraint, RelationPattern, RolePlayer}
use go_typeql.Ast.Compiler.{
  Compiled, compile_operand, compile_constraint, compile_relation_pattern, relation_head,
  regular_roles, link_roles, add_part, write_links, write_parts,
}

abbrev IsFilled : String → Type 0
IsFilled s = s ≢ ""

IsFilled-<> : (s t : String) → IsFilled s → IsFilled (s <> t)
IsFilled-<> s t h e = h (append-eq-nil_iff.0 e).0

add_part_filled : (b s : String) → IsFilled b → add_part b s ≡ b <> (", " <> s)
unfolding add_part
add_part_filled b s h = ground (arith, eq_iff b "")

add_part-join :
    (ps : List String) (s : String)
    → All IsFilled ps
    → add_part (join ", " ps) s ≡ join ", " (ps ++ s ∷ [])
unfolding join
add_part-join [] s h = unfold add_part separated in sym (<>-nil s)
add_part-join (p ∷ ps) s (hp, hps) =
    add_part_filled _ s (IsFilled-<> p (separated ", " ps) hp)
    ∙ <>_assoc p (separated ", " ps) (", " <> s)
    ∙ ap (λ t. p <> t) (last ∙ sym (separated-append ", " ps (s ∷ [])))
  where
    last : separated ", " ps <> (", " <> s) ≡ separated ", " ps <> separated ", " (s ∷ [])
    last = unfold separated in ap (λ t. separated ", " ps <> (", " <> t)) (sym (<>-nil s))

All-snoc :
    (ps : List String) (s : String) → All IsFilled ps → IsFilled s → All IsFilled (ps ++ s ∷ [])
All-snoc [] s h hs = (hs, tt)
All-snoc (p ∷ ps) s (hp, hps) hs = (hp, All-snoc ps s hps hs)

abbrev pub link_part : RolePlayer → String
link_part rp = "links (" <> (rp.player_var <> ")")

links-IsFilled : (t : String) → IsFilled ("links (" <> t)
links-IsFilled t = IsFilled-<> "links (" t (λ e. ground (arith, eq_iff "links (" ""))

write_links-join :
    (ps : List String) (rps : List RolePlayer)
    → All IsFilled ps
    → (write_links (join ", " ps) rps ≡ join ", " (ps ++ map link_part rps))
      × All IsFilled (ps ++ map link_part rps)
unfolding write_links
write_links-join ps [] h = (ap (join ", ") (sym (append-nil ps)), rw append-nil h)
write_links-join ps (rp ∷ rps) h =
    let s = link_part rp in
    let h' = All-snoc ps s h (links-IsFilled _) in
    let (same, filled) = write_links-join (ps ++ s ∷ []) rps h' in
    (
      rw (add_part-join ps s h) (same ∙ ap (join ", ") (append_assoc ps (s ∷ []) _)),
      subst (All IsFilled) (append_assoc ps (s ∷ []) _) filled,
    )

ok-IsFilled : (t s : String) → IsFilled t → ◌≡◌ {A = Compiled} (ok t) (ok s) → IsFilled s
ok-IsFilled t s h e = subst IsFilled (cc) h

constraint-IsFilled : (c : Constraint) (s : String) → compile_constraint c ≡ ok s → IsFilled s
unfolding compile_constraint
constraint-IsFilled (Constraint.iid i) s e =
    ok-IsFilled _ s (IsFilled-<> "iid " i (λ x. ground (arith, eq_iff "iid " ""))) e
constraint-IsFilled (Constraint.has attr v) s e = elim (Result-cases (compile_operand v)) [
  | inl (t, e') ↦
      ok-IsFilled _ s (IsFilled-<> "has " _ (λ x. ground (arith, eq_iff "has " "")))
        (rw (e', compile_constraint) at e)
  | inr (x, e') ↦ cc (rw (e', compile_constraint) at e)
]
constraint-IsFilled (Constraint.isa type true) s e =
    ok-IsFilled _ s (IsFilled-<> "isa!" _ (λ x. ground (arith, eq_iff "isa!" ""))) e
constraint-IsFilled (Constraint.isa type false) s e =
    ok-IsFilled _ s (IsFilled-<> "isa" _ (λ x. ground (arith, eq_iff "isa" ""))) e
constraint-IsFilled Constraint.unknown s e = cc

write_parts-join :
    (ps : List String) (cs : List Constraint)
    → All IsFilled ps
    → write_parts (join ", " ps) cs
      ≡ map_result compile_constraint cs >>= λ ss. ok (join ", " (ps ++ ss))
unfolding write_parts map_result
write_parts-join ps [] h = ap (λ xs. ok (join ", " xs)) (sym (append-nil ps))
write_parts-join ps (c ∷ cs) h = elim (Result-cases (compile_constraint c)) [
  | inr (x, e) ↦ rw e
  | inl (s, e) ↦
      rw (e, add_part-join ps s h)
        (write_parts-join (ps ++ s ∷ []) cs (All-snoc ps s h (constraint-IsFilled c s e))
          ∙ (elim (Result-cases (map_result compile_constraint cs)) [
            | inl (ss, e') ↦ rw e' (ap (λ xs. ok (join ", " xs)) (append_assoc ps (s ∷ []) ss))
            | inr (x, e') ↦ rw e'
          ]))
]

-- The head of a relation pattern as a list of parts: none where it is empty.
abbrev pub head_parts : String → List String
head_parts h = if h == "" then [] else h ∷ []

head_parts-join : (h : String) → (h ≡ join ", " (head_parts h)) × All IsFilled (head_parts h)
unfolding join separated
head_parts-join h = elim (Bool-cases (h == "")) [
  | inl e ↦ rw e ((eq_iff h "").0 e, tt)
  | inr e ↦ rw e (sym (<>-nil h), ((λ x. ground (arith, eq_iff h "")), tt))
]

-- A relation pattern compiles to its head, where there is one, its bare links and its constraints,
-- joined by commas: no part is lost, and no comma stands first or last, whichever parts are missing.
pub compile_relation_pattern-join :
    (p : RelationPattern)
    → compile_relation_pattern p
      ≡ map_result compile_constraint p.constraints >>= λ ss. ok (
          join ", " (
            head_parts (relation_head p (regular_roles p.role_players))
            ++ map link_part (link_roles p.role_players)
            ++ ss))
unfolding compile_relation_pattern
compile_relation_pattern-join p =
    let h = relation_head p (regular_roles p.role_players) in
    let (same, filled) = head_parts-join h in
    let (linked, filled') = write_links-join (head_parts h) (link_roles p.role_players) filled in
    ap (λ b. write_parts (write_links b (link_roles p.role_players)) p.constraints) same
    ∙ ap (λ b. write_parts b p.constraints) linked
    ∙ write_parts-join _ p.constraints filled'
