-- ===== src/Store.antt =====
-- internal/workflow/store.go: the files of one stored workflow (definition, accepted hash and
-- journal) and the operations that replace, remove, restore and recover the pair.
pub mod Disk
pub mod Files
pub mod Recovery
pub mod Crashes
pub mod Replace
pub mod Compensation
pub mod Load
pub mod Startup
