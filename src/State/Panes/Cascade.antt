-- ===== src/State/Panes/Cascade.antt =====
-- The cascading purges of `workspace.closed` and `tab.closed` in
-- apps/web/src/app/state/panes.store.ts.
use kanhrd.Base.{HasUniqueKeys}
use kanhrd.State.Panes.Reducers.{LifecycleState}

-- The keys of the three maps are unique, as those of a `Map` are.
pub record HasMaps (s : LifecycleState) : Type 0 where
  pub panes : HasUniqueKeys s.panes
  pub workspaces : HasUniqueKeys s.workspaces
  pub tabs : HasUniqueKeys s.tabs
