-- ===== src/Index.antt =====
-- index.rs: the index from keys to addresses. `Defs` has the state and the queries, `Writer` the
-- writes of a commit, `Cursor` the iteration.
pub mod Defs
pub mod Writer
pub mod Points
pub mod Events
pub mod History
pub mod Links
pub mod Cursor
