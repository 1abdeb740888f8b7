-- ===== src/Ast/Compiler/Values.antt =====
-- Values, constraints and the shared loops of ast/compiler.go.
use go_typeql.Base.{
  String, Bool, true, false, List, [], ◌∷◌, ◌<>◌, if◌then◌else◌, Result, ok, err, ◌>>=◌, join,
}
use go_typeql.Ast.Nodes.{
  Value, Operand, Operands, Constraint, literal, arithmetic, function_call, value, text,
  no_operands, operand, iid, has, isa,
}
use go_typeql.Ast.Literals.{format_literal}

-- The errors of the compiler, one for each message.
pub data CompileError : Type 0 where
  unknown_node unknown_clause unknown_pattern unknown_statement : CompileError
  unknown_constraint unknown_value unexpected_operand unknown_fetch_item : CompileError

abbrev pub Compiled : Type 0
Compiled = Result CompileError String

unfoldable mutual
  pub compile_value : Value → Compiled
  compile_value (arithmetic l op r) = compile_operand l >>= λ left.
      compile_operand r >>= λ right. ok ("(" <> (left <> (" " <> (op <> (" " <> (right <> ")"))))))
  compile_value (function_call f args) =
      compile_operands args >>= λ parts. ok (f <> ("(" <> (join ", " parts <> ")")))
  compile_value (literal v type) = ok (format_literal v type)
  compile_value Value.unknown = err unknown_value

  -- `compileValueOrString`.
  pub compile_operand : Operand → Compiled
  compile_operand (value v) = compile_value v
  compile_operand (text s) = ok s
  compile_operand _ = err unexpected_operand

  -- The loop over a call's arguments.
  pub compile_operands : Operands → Result CompileError (List String)
  compile_operands no_operands = ok []
  compile_operands (operand a rest) =
      compile_operand a >>= λ s. compile_operands rest >>= λ ss. ok (s ∷ ss)

abbrev pub isa_keyword : Bool → String
isa_keyword strict = if strict then "isa!" else "isa"

unfoldable pub compile_constraint : Constraint → Compiled
compile_constraint (iid i) = ok ("iid " <> i)
compile_constraint (has attr v) = compile_operand v >>= λ s. ok ("has " <> (attr <> (" " <> s)))
compile_constraint (isa type strict) = ok (isa_keyword strict <> (" " <> type))
compile_constraint Constraint.unknown = err unknown_constraint

-- `joinCompiled`: the loop over a strings.Builder, then the suffix. The flag is `i > 0`.
unfoldable pub write_compiled {ℓ} :
    {T : Type ℓ} → String → (T → Compiled) → Bool → String → List T → Compiled
write_compiled sep compile later b [] = ok b
write_compiled sep compile later b (x ∷ xs) =
    compile x >>= λ s. write_compiled sep compile true ((if later then b <> sep else b) <> s) xs

unfoldable pub join_compiled {ℓ} :
    {T : Type ℓ} → String → String → String → List T → (T → Compiled) → Compiled
unfolding write_compiled
join_compiled prefix sep suffix items compile =
    write_compiled sep compile false prefix items >>= λ b. ok (b <> suffix)
