-- ===== src/Output/Poller.antt =====
-- apps/bridge/src/output/poller.ts: the poll loops that are shared between browser subscriptions.
pub mod Types
pub mod Subscriptions
pub mod Polling
pub mod Sync
pub mod Trace
