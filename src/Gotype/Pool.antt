-- ===== src/Gotype/Pool.antt =====
-- gotype/pool.go: the connection pool.
pub mod Model
pub mod Steps
pub mod Cleaner
pub mod Capacity
pub mod Reached
pub mod Limits
mod Tests
