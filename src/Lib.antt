-- ===== src/Lib.antt =====
-- go-typeql: a TypeQL query compiler (ast/), an ORM on TypeDB (gotype/) and a schema parser with code
-- generators (tqlgen/).
--
-- The program. A query is a tree of nodes (ast/nodes.go); `Compiler.Compile` (ast/compiler.go) turns it
-- into TypeQL text, with user strings escaped by `EscapeString`. The ORM of gotype/ registers Go structs
-- as models, compares them with the schema of the database, which tqlgen parses into a `ParsedSchema`
-- (tqlgen/model.go), and migrates: `DiffSchema` finds the difference, `SchemaDiff` turns it into
-- statements, and the migration functions run these on a `Database`.
--
-- The files.
-- Base: Go strings as native texts, Go ints as integers, `(value, error)` as Result, Go maps with
--   string keys as association lists, decimal numerals; Base/Search has `strings.ReplaceAll` and the tests of
--   prefixes.
-- Ast/Escape, Ast/Literals: `EscapeString`, `FormatLiteral`, `FormatGoValue` of ast/compiler.go.
-- Ast/Nodes, Ast/Clauses: the types of ast/nodes.go, a Go interface as a data type with one
--   constructor for each implementation and one for anything else.
-- Ast/Compiler: `Compile`, `CompileBatch` and the methods under them, one function each; a
--   strings.Builder is the text that it holds. Ast/Joins, Ast/Known and Ast/Relations hold proofs.
-- Ast/Builders, Ast/Fluent: the builders of ast/builders.go that the fluent API uses, and ast/fluent.go: a
--   stage is the `fluentState` that it holds, a method a function on it (Ast/Fluent/Stages), and a chain of
--   calls a list of them; Shortcuts has `UpdateAttribute`, `DeleteArtifactWithOptions` and `PaginatedSearch`.
-- Tqlgen/Model, Tqlgen/Merge, Tqlgen/Inherit: the types of tqlgen/model.go, its `mergeOwns` and
--   `mergeRelates`, and `AccumulateInheritance`, where a pointer to a spec is its index in the list.
-- Gotype/Filter: gotype/filter.go. `ToPatterns` takes and returns the counter that scopes are drawn from,
--   and a panic is an error; Constructors has `Eq`, `And` and the like.
-- Gotype/Models, Gotype/Models/Strategy: the data of gotype/model.go and the queries of gotype/strategy.go.
--   An instance is what reflection reads of a struct: what each field holds and who plays each role.
-- Gotype/Registry: gotype/reserved.go and gotype/registry.go. A Go type is a number with a name; what
--   reflection reads of it and the tables of Unicode's letters and digits are parameters.
-- Gotype/Manager: gotype/crud.go over the driver of Gotype/Session: Writes has the inserts, updates and
--   deletes, Puts the puts and the batch insert, Reads the reads. Sent and Together hold proofs.
-- Gotype/Query: gotype/query.go, with the calls that read and update in Runs and the aggregate, grouped and
--   function queries in Aggregates. Text, Together and Aggregates/Groups hold proofs.
-- Gotype/Migrate/Define: `buildOwnsAnnots`, `buildEntityDefine` and `buildRelationDefine` of
--   gotype/migrate.go, with the annotations of gotype/schema.go.
-- Gotype/Migrate/Operations, Gotype/Migrate/Plan: the operations of gotype/migrate_ops.go, and what a
--   `SchemaDiff` is turned into: statements, operations, breaking changes, summary.
-- Gotype/Migrate/Apply: `Migrate`, `MigrateFromSchema`, `SyncSchema` and `MigrateWithStateFromSchema` of
--   gotype/migrate.go and gotype/migrate_state.go. The database and the migration state are records of
--   operations on a world; tqlgen's parser, the schema of the registered models and SHA-256 are
--   parameters.
-- Gotype/Sequential/Model, Run, Rollback: gotype/seq_migrate.go and `MigrationChecksum` of
--   gotype/seq_migrate_state.go. The store of applied migrations is a record of operations, `StateStore`;
--   what the theorems need of it is the record `IsLawful`, in which every operation may fail. The world
--   that the functions act on is a parameter, and a function that may fail returns its error with the
--   world behind it. SHA-256 is a parameter. Validation, Pending, Store, Records, Kept, Cases, Again,
--   Outcomes and Undone hold the proofs.
-- Gotype/Sequential/Queries: the queries of gotype/seq_migrate_state.go, which make a `StateStore` of a
--   database session, and `escapeTQL` of gotype/migrate_state.go. Gotype/Sequential/Rows states what is
--   asked of a database that holds rows, `KeepsRows`, on the texts of the queries as a reader of their
--   literals understands them; Stored has the runs over the store on such a database.
-- Gotype/Sequential/Statements: `TQLMigration`, over the driver of Gotype/Session; Sent holds proofs.
-- Gotype/Pool/Model, Steps: gotype/pool.go. Each stretch of code that runs with the mutex held is one
--   function on the pool; `step` interleaves them, with the connections outside the pool as counts.
--   Times and sizes are natural numbers. Cleaner, Capacity, Reached and Limits hold the proofs.
-- Gotype/Session: the one-shot transactions of gotype/session.go over a record of the driver's operations;
--   Gotype/Session/Trace holds the proofs, over a driver that keeps the requests it was sent and whether
--   each succeeded. Gotype/Session/Scoped: `TransactionContext`, the process-wide counts as a state that
--   histories of calls change, and `EnsureDatabase`.
-- Gotype/Tags: gotype/tags.go and `formatCardString` of gotype/migrate.go; Gotype/Tags/Cardinality holds
--   the proofs. An int of Go is read with its range of 64 bits.
-- Gotype/Migrate/Diff: `DiffSchema` of gotype/migrate.go; the proofs are in its children.
--
-- Bounds. Every loop of the code is a structural recursion on its list or text, and the nodes of a
-- query form trees, but for two on fuel. The digits of a number take one unit more than the number,
-- which is enough since each round divides by ten. `AccumulateInheritance` follows parents: any number
-- above the ranks of the types is enough where no type is its own ancestor, and where one is the code
-- never ends. An int that is only printed is an unbounded integer. A float and a time.Time come as the
-- texts that the formatting functions of Go's library make of them.
--
-- Not modelled: hydration, the extraction of a model and whatever else reads Go types by reflection;
-- the polymorphic reads, the construction of a manager, the floats in the row of an aggregate;
-- GenerateSchema; the adapters between pool and session; the stages of a function query; slices that
-- two branches of a builder share; the parser and code generators of tqlgen/; and the driver, which
-- calls a Rust library.
pub mod Base
pub mod Ast
pub mod Tqlgen
pub mod Gotype
