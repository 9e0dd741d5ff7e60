-- ===== src/History.antt =====
-- server/file_history.go: the revisions of edited files, in a database of two tables. `Table` has the
-- tables with the statements on them, `Replay` the coding of contents, `Prune` the limits and `Store`
-- the operations.
pub mod Table
pub mod Replay
pub mod Prune
pub mod Store
mod Examples
