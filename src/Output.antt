-- ===== src/Output.antt =====
-- apps/bridge/src/output: the line-delta encoding of pane snapshots and the shared poll loops.
pub mod Delta
pub mod Poller
