-- ===== src/Version.antt =====
-- storage/secondary/version_manager.rs: the snapshots and the manager of versions.
pub mod Snapshot
pub mod Manager
