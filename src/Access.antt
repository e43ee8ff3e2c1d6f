-- ===== src/Access.antt =====
-- Who may reach the bridge: apps/bridge/src/config.ts and apps/bridge/src/http/origin.ts.
pub mod Origin
pub mod Keys
pub mod Entries
pub mod Policy
