-- ===== src/Gotype/Migrate.antt =====
-- gotype/migrate.go, migrate_ops.go and migrate_state.go: schema differences and what is done about
-- them.
pub mod Define
pub mod Diff
pub mod Operations
pub mod Plan
pub mod Apply
