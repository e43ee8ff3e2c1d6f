-- ===== src/Herdr.antt =====
-- apps/bridge/src/herdr: what the bridge keeps about one herdr host.
pub mod Names
pub mod Project
pub mod Queue
pub mod Host
