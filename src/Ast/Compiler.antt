-- ===== src/Ast/Compiler.antt =====
-- ast/compiler.go: `Compiler`, from nodes to TypeQL text or an error.
mod Values
mod Patterns
mod Statements
mod Queries
unfoldable pub use Values.*
unfoldable pub use Patterns.*
unfoldable pub use Statements.*
unfoldable pub use Queries.*
