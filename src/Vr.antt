-- ===== src/Vr.antt =====
-- The package vr: Viewstamped Replication.
pub mod State
pub mod Exec
pub mod Commit
pub mod Send
pub mod Lease
pub mod ViewChange
pub mod Snapshot
pub mod Recovery
pub mod Normal
pub mod Coherence
pub mod Connections
pub mod Fixtures
pub mod Tests
pub mod ChangeTests
