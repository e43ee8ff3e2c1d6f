-- ===== src/State/Panes/Replay.antt =====
-- Applying the same event frame of apps/web/src/app/state/panes.store.ts a second time, as happens
-- when the board's own action is broadcast back to it.
use kanhrd.Base.{refl, Dict, truthy}
use kanhrd.Wire.{
  BridgeEvent, pane_created, pane_closed, pane_agent_status_changed, pane_updated,
  workspace_created, workspace_closed, workspace_renamed, tab_created, tab_closed, tab_renamed,
  tab_moved, pane_moved,
}
use kanhrd.State.Panes.Reducers.{
  pane_key, LifecycleState, apply_event, apply_lifecycle_event, pane_in_workspace, pane_in_tab,
  tab_in_workspace, rename_workspace, rename_tab, move_workspaces, move_tabs, apply_tabs_replaced,
  apply_workspace_created, apply_tab_created, apply_pane_created, apply_pane_closed,
}
use kanhrd.State.Panes.Cascade.{HasMaps}
use kanhrd.State.Panes.Pointwise.{
  insert-IsPointwise, erase-IsPointwise, erase_if-IsPointwise, IsPointwise-comp, edit-IsPointwise,
  close_one-IsPointwise, map_values-IsPointwise, status_changed-IsPointwise,
  workspace_renamed-IsPointwise, tab_renamed-IsPointwise, update_panes-IsPointwise,
  set_tabs-IsPointwise, create_workspace-IsPointwise, create_tab-IsPointwise,
  close_tabs_of-IsPointwise,
}
use kanhrd.State.Panes.Idempotent.{
  SameMap, twice, put_at_idem, drop_at_idem, unless_idem, on_some_idem, edit_at_idem,
  SetsOrSkips-unless_idem, set_tabs-SetsOrSkips, move_workspaces_idem, move_tabs_idem, renamed_idem,
}

pub record SameView (s t : LifecycleState) : Type 0 where
  pub panes : SameMap s.panes t.panes
  pub workspaces : SameMap s.workspaces t.workspaces
  pub tabs : SameMap s.tabs t.tabs

same : {V : Type 0} (m : Dict V) → SameMap m m
same m k = refl

-- Applying the same event frame a second time shows the same board: the same pane, workspace and tab
-- under each key as applying it once, if the three maps had unique keys.
pub apply_lifecycle_event-replay :
    (s : LifecycleState) (event : BridgeEvent)
    → HasMaps s
    → SameView
        (apply_lifecycle_event (apply_lifecycle_event s event) event)
        (apply_lifecycle_event s event)
unfolding apply_lifecycle_event apply_event apply_pane_created apply_pane_closed
    apply_workspace_created apply_tab_created apply_tabs_replaced move_workspaces move_tabs
    insert-IsPointwise erase-IsPointwise erase_if-IsPointwise edit-IsPointwise
    map_values-IsPointwise status_changed-IsPointwise workspace_renamed-IsPointwise
    tab_renamed-IsPointwise update_panes-IsPointwise IsPointwise-comp
apply_lifecycle_event-replay s (pane_created p) h = record {
  panes = twice (insert-IsPointwise _ p) (put_at_idem (pane_key p.host p.id) p) s.panes h.panes;
  workspaces = same s.workspaces;
  tabs = same s.tabs;
}
apply_lifecycle_event-replay s (pane_closed id host w) h = record {
  panes = twice (erase-IsPointwise _) (drop_at_idem (pane_key host id)) s.panes h.panes;
  workspaces = same s.workspaces;
  tabs = same s.tabs;
}
apply_lifecycle_event-replay s (pane_agent_status_changed id host status since) h = record {
  panes =
      twice (status_changed-IsPointwise id host status since)
        (edit_at_idem (pane_key host id)
          (λ p. record p { agent_status = status; status_since = since }) (λ p. refl))
        s.panes h.panes;
  workspaces = same s.workspaces;
  tabs = same s.tabs;
}
apply_lifecycle_event-replay s (pane_updated p) h = record {
  panes = twice (insert-IsPointwise _ p) (put_at_idem (pane_key p.host p.id) p) s.panes h.panes;
  workspaces = same s.workspaces;
  tabs = same s.tabs;
}
apply_lifecycle_event-replay s (workspace_created w) h = record {
  panes = same s.panes;
  workspaces =
      twice (insert-IsPointwise _ w) (put_at_idem (pane_key w.host w.id) w) s.workspaces
        h.workspaces;
  tabs = same s.tabs;
}
apply_lifecycle_event-replay s (workspace_closed id host w) h = record {
  panes =
      twice (erase_if-IsPointwise _) (λ k. unless_idem (pane_in_workspace host id)) s.panes h.panes;
  workspaces =
      twice (erase-IsPointwise _) (drop_at_idem (pane_key host id)) s.workspaces h.workspaces;
  tabs = twice (erase_if-IsPointwise _) (λ k. unless_idem (tab_in_workspace host id)) s.tabs h.tabs;
}
apply_lifecycle_event-replay s (workspace_renamed id host name) h = record {
  panes =
      twice (update_panes-IsPointwise (pane_in_workspace host id) (rename_workspace name))
        (λ k. on_some_idem _ (
          renamed_idem (pane_in_workspace host id) (rename_workspace name) (λ p. refl) (λ p. refl)))
        s.panes h.panes;
  workspaces =
      twice (workspace_renamed-IsPointwise id host name)
        (edit_at_idem (pane_key host id) (λ w. record w { name = name }) (λ w. refl)) s.workspaces
        h.workspaces;
  tabs = same s.tabs;
}
apply_lifecycle_event-replay s (tab_created t) h = record {
  panes = same s.panes;
  workspaces = same s.workspaces;
  tabs = twice (insert-IsPointwise _ t) (put_at_idem (pane_key t.host t.id) t) s.tabs h.tabs;
}
apply_lifecycle_event-replay s (tab_closed id host workspace) h = record {
  panes = twice (erase_if-IsPointwise _) (λ k. unless_idem (pane_in_tab host id)) s.panes h.panes;
  workspaces = same s.workspaces;
  tabs = twice (erase-IsPointwise _) (drop_at_idem (pane_key host id)) s.tabs h.tabs;
}
apply_lifecycle_event-replay s (tab_renamed id host workspace name) h = record {
  panes =
      twice (update_panes-IsPointwise (pane_in_tab host id) (rename_tab name))
        (λ k.
          on_some_idem _
            (renamed_idem (pane_in_tab host id) (rename_tab name) (λ p. refl) (λ p. refl)))
        s.panes h.panes;
  workspaces = same s.workspaces;
  tabs =
      twice (tab_renamed-IsPointwise id host name)
        (edit_at_idem (pane_key host id) (λ t. record t { name = name }) (λ t. refl)) s.tabs h.tabs;
}
apply_lifecycle_event-replay s (tab_moved host workspace new_tabs) h = record {
  panes = same s.panes;
  workspaces = same s.workspaces;
  tabs =
      twice (IsPointwise-comp (erase_if-IsPointwise _) (set_tabs-IsPointwise new_tabs))
        (λ k.
          SetsOrSkips-unless_idem (tab_in_workspace host workspace) _
            (set_tabs-SetsOrSkips new_tabs k))
        s.tabs h.tabs;
}
apply_lifecycle_event-replay s (pane_moved m) h = record {
  panes =
      twice (insert-IsPointwise _ m.pane) (put_at_idem (pane_key m.pane.host m.pane.id) m.pane)
        s.panes h.panes;
  workspaces =
      twice
        (IsPointwise-comp (create_workspace-IsPointwise m.created_workspace)
          (close_one-IsPointwise m.pane.host (truthy m.closed_workspace_id)))
        (move_workspaces_idem m.pane.host m.created_workspace (truthy m.closed_workspace_id))
        s.workspaces h.workspaces;
  tabs =
      twice
        (IsPointwise-comp
          (IsPointwise-comp (create_tab-IsPointwise m.created_tab)
            (close_tabs_of-IsPointwise m.pane.host (truthy m.closed_workspace_id)))
          (close_one-IsPointwise m.pane.host (truthy m.closed_tab_id)))
        (move_tabs_idem m.pane.host m.created_tab (truthy m.closed_workspace_id)
          (truthy m.closed_tab_id))
        s.tabs h.tabs;
}
