-- ===== src/Gotype.antt =====
-- The package gotype: the ORM core.
pub mod Migrate
pub mod Sequential
pub mod Pool
pub mod Tags
pub mod Session
pub mod Filter
pub mod Models
pub mod Manager
pub mod Query
pub mod Registry
mod Tests
