-- ===== src/Ast/Joins.antt =====
-- The builder loops of ast/compiler.go write what strings.Join makes of the compiled parts.
use mathlib.Core.Path.{fun_ext}
use go_typeql.Base.{
  String, Bool, true, false, List, [], ◌∷◌, append-nil, ◌<>◌, <>_assoc, <>-nil, nil-<>, ◌==◌,
  if◌then◌else◌, ok, ◌>>=◌, separated, join, map_result, Result-cases, ◌≡◌, sym, ap, ◌∙◌, inl, inr,
}
use go_typeql.Ast.Nodes.{Pattern, Constraint, EntityPattern}
use go_typeql.Ast.Clauses.{MatchLetClause, QueryNode, match_}
use go_typeql.Ast.Compiler.{
  Compiled, compile_pattern, compile_constraint, write_compiled, join_compiled, compile_clause,
  compile_match_let, compile, write_batch, compile_batch, write_constraints, compile_entity_pattern,
  isa_keyword,
}

-- What a loop that has written `b` makes of the texts still to come.
abbrev joined : Bool → String → String → List String → String
joined true sep b ss = b <> separated sep ss
joined false sep b ss = b <> join sep ss

joined-cons :
    (later : Bool) (sep b s : String) (ss : List String)
    → joined later sep b (s ∷ ss) ≡ ((if later then b <> sep else b) <> s) <> separated sep ss
unfolding join separated
joined-cons true sep b s ss = simp <>_assoc
joined-cons false sep b s ss = simp <>_assoc

joined-nil : (later : Bool) (sep b : String) → joined later sep b [] ≡ b
unfolding join separated
joined-nil true sep b = <>-nil b
joined-nil false sep b = <>-nil b

module _ {ℓ} {T : Type ℓ} (sep : String) (f : T → Compiled) where
  write_compiled-joined :
      (later : Bool) (b : String) (xs : List T)
      → write_compiled sep f later b xs ≡ map_result f xs >>= λ ss. ok (joined later sep b ss)
  unfolding write_compiled map_result
  write_compiled-joined later b [] = ap ok (sym (joined-nil later sep b))
  write_compiled-joined later b (x ∷ xs) = elim (Result-cases (f x)) [
    | inl (s, e) ↦
        rw (e, write_compiled-joined true _ xs)
          (elim (Result-cases (map_result f xs)) [
            | inl (ss, e') ↦ rw e' (ap ok (sym (joined-cons later sep b s ss)))
            | inr (c, e') ↦ rw e'
          ])
    | inr (c, e) ↦ rw e
  ]

-- `joinCompiled` is `prefix + strings.Join(compiled, separator) + suffix`, or the first error.
pub join_compiled-join {ℓ} :
    {T : Type ℓ} (prefix sep suffix : String) (items : List T) (f : T → Compiled)
    → join_compiled prefix sep suffix items f
      ≡ map_result f items >>= λ ss. ok (prefix <> (join sep ss <> suffix))
unfolding join_compiled
join_compiled-join prefix sep suffix items f =
    rw (write_compiled-joined sep f false prefix items) (elim (Result-cases (map_result f items)) [
      | inl (ss, e) ↦ rw e (ap ok (<>_assoc prefix (join sep ss) suffix))
      | inr (c, e) ↦ rw e
    ])

abbrev pub without_let : List Pattern → MatchLetClause
without_let ps = record { patterns = ps; assignments = [] }

-- A match clause and a match-let clause with no assignments compile to the same text or error, though
-- one is written through a builder and the other collects lines and joins them.
compile_clause-compile_match_let :
    (ps : List Pattern) → compile_clause (match_ ps) ≡ compile_match_let (without_let ps)
unfolding compile_clause compile_match_let
compile_clause-compile_match_let ps =
    join_compiled-join "match\n" ";\n" ";" ps compile_pattern
    ∙ (elim (Result-cases (map_result compile_pattern ps)) [
      | inl (ss, e) ↦ rw (e, append-nil ss)
      | inr (c, e) ↦ rw e
    ])

write_batch-joined :
    (sep : String) (later : Bool) (b : String) (ns : List QueryNode)
    → write_batch sep later b ns ≡ map_result compile ns >>= λ ss. ok (joined later sep b ss)
unfolding write_batch map_result
write_batch-joined sep later b [] = ap ok (sym (joined-nil later sep b))
write_batch-joined sep later b (n ∷ ns) = elim (Result-cases (compile n)) [
  | inl (s, e) ↦
      rw (e, write_batch-joined sep true _ ns)
        (elim (Result-cases (map_result compile ns)) [
          | inl (ss, e') ↦ rw e' (ap ok (sym (joined-cons later sep b s ss)))
          | inr (c, e') ↦ rw e'
        ])
  | inr (c, e) ↦ rw e
]

-- `CompileBatch` joins the compiled nodes with the separator, a newline where that is empty, or
-- gives the error of the first node that does not compile.
pub compile_batch-join :
    (ns : List QueryNode) (sep : String)
    → compile_batch ns sep
      ≡ map_result compile ns >>= λ ss. ok (join (if sep == "" then "\n" else sep) ss)
unfolding compile_batch
compile_batch-join ns sep =
    write_batch-joined (if sep == "" then "\n" else sep) false "" ns
    ∙ ap (λ k. map_result compile ns >>= k) (fun_ext (λ ss. ap ok (nil-<> (join _ ss))))

write_constraints-separated :
    (b : String) (cs : List Constraint)
    → write_constraints b cs
      ≡ map_result compile_constraint cs >>= λ ss. ok (b <> separated ", " ss)
unfolding write_constraints map_result separated
write_constraints-separated b [] = ap ok (sym (<>-nil b))
write_constraints-separated b (c ∷ cs) = elim (Result-cases (compile_constraint c)) [
  | inl (s, e) ↦
      rw (e, write_constraints-separated (b <> (", " <> s)) cs)
        (elim (Result-cases (map_result compile_constraint cs)) [
          | inl (ss, e') ↦ rw e' (ap ok (simp <>_assoc))
          | inr (x, e') ↦ rw e'
        ])
  | inr (x, e) ↦ rw e
]

-- An entity pattern compiles to its variable, `isa` or, where it is strict, `isa!`, and its type, and
-- its constraints, all joined by commas, or to the error of the first constraint that does not
-- compile.
pub compile_entity_pattern-join :
    (p : EntityPattern)
    → compile_entity_pattern p
      ≡ map_result compile_constraint p.constraints >>= λ ss. ok (
          join ", "
            ((p.variable <> (" " <> (isa_keyword p.is_strict <> (" " <> p.type_name)))) ∷ ss))
unfolding compile_entity_pattern join
compile_entity_pattern-join p = write_constraints-separated _ p.constraints
