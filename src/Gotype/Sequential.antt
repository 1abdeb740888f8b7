-- ===== src/Gotype/Sequential.antt =====
-- gotype/seq_migrate.go and gotype/seq_migrate_state.go: sequential migrations.
pub mod Model
pub mod Run
pub mod Validation
pub mod Pending
pub mod Store
pub mod Records
pub mod Kept
pub mod Cases
pub mod Again
pub mod Outcomes
pub mod Rollback
pub mod Undone
pub mod Queries
pub mod Rows
pub mod Stored
pub mod Statements
mod Tests
