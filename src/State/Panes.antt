-- ===== src/State/Panes.antt =====
-- apps/web/src/app/state/panes.store.ts: the panes, workspaces and tabs of the board.
pub mod Reducers
pub mod Keyed
pub mod Cascade
pub mod Pointwise
pub mod Idempotent
pub mod Replay
pub mod Columns
pub mod Placing
pub mod Partition
pub mod Swimlanes
