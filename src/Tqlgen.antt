-- ===== src/Tqlgen.antt =====
-- The package tqlgen: the schema parser and the code generators.
pub mod Model
pub mod Merge
pub mod Inherit
mod Tests
