-- ===== src/Files.antt =====
-- The read-only repository files of the bridge: apps/bridge/src/files and herdr/repo.ts.
pub mod Confine
pub mod Gate
pub mod Git
pub mod Lookup
pub mod Status
pub mod Reader
