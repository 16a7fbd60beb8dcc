-- ===== src/Phatdb.antt =====
-- The package phatdb: a tree of files behind a command loop.
pub mod Path
pub mod Tree
pub mod Ops
pub mod Server
pub mod Tests
