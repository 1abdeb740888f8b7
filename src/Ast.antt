-- ===== src/Ast.antt =====
-- The package ast: nodes, the compiler to TypeQL text, literals and escapes.
pub mod Escape
pub mod Nodes
pub mod Clauses
pub mod Literals
pub mod Compiler
pub mod Joins
pub mod Known
pub mod Builders
pub mod Fluent
pub mod Relations
mod Tests
