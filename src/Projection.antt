-- ===== src/Projection.antt =====
-- internal/execution/projection/projection.go: the tables of the read model, one child for each,
-- and the operations on them. A SQL statement is a function on the rows of its table.
pub mod Table
pub mod Runs
pub mod Steps
pub mod Runtimes
pub mod Db
pub mod Fences
pub mod Latest
pub mod Timeline
pub mod Sessions
pub mod Unique
pub mod Retention
