-- ===== src/PaneDetail.antt =====
-- apps/web/src/app/pane-detail: the terminal view of one pane.
pub mod Snapshot
pub mod Input
pub mod KeyBar
