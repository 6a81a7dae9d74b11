-- ===== src/Store.antt =====
-- The finding set of internal/store/store.go.
pub mod Merge
pub mod Pairs
pub mod Entries
pub mod Bell
pub mod Snapshot
pub mod Retention
pub mod Updates
