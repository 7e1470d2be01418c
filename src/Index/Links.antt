-- ===== src/Index/Links.antt =====
-- index.rs: the nodes form a doubly linked list in the order of the keys, and `update_value` keeps it.
pub mod Splice
pub mod Before
pub mod After
pub mod Update
