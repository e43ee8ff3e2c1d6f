-- ===== src/State/Panes/Keyed.antt =====
-- Every map of apps/web/src/app/state/panes.store.ts is keyed by `paneKey` of what it holds.
use kanhrd.Base.{
  ℕ, String, ◌≡◌, refl, Bool, Option, none, some, List, [], ◌∷◌, Dict, lookup, inl, inr, Bool-cases,
  Option-cases, AllEntries, AllEntries-insert, AllEntries-erase, AllEntries-erase_if,
  AllEntries-map_values, AllEntries-lookup, truthy,
}
use kanhrd.Wire.{
  AgentStatus, Pane, WorkspaceSummary, TabSummary, BridgeEvent, pane_created, pane_closed,
  pane_agent_status_changed, pane_updated, workspace_created, workspace_closed, workspace_renamed,
  tab_created, tab_closed, tab_renamed, tab_moved, pane_moved,
}
use kanhrd.State.Panes.Reducers.{
  pane_key, PaneMap, WorkspaceMap, TabMap, LifecycleState, apply_pane_agent_status_changed,
  apply_workspace_created, apply_workspace_renamed, apply_tab_created, apply_tab_renamed, set_tabs,
  apply_tabs_replaced, update_panes, move_workspaces, move_tabs, create_workspace, create_tab,
  close_one, close_tabs_of, apply_lifecycle_event,
}

abbrev pub PaneAt : String → Pane → Type 0
PaneAt k p = k ≡ pane_key p.host p.id

abbrev pub WorkspaceAt : String → WorkspaceSummary → Type 0
WorkspaceAt k w = k ≡ pane_key w.host w.id

abbrev pub TabAt : String → TabSummary → Type 0
TabAt k t = k ≡ pane_key t.host t.id

pub record IsKeyed (s : LifecycleState) : Type 0 where
  pub panes : AllEntries PaneAt s.panes
  pub workspaces : AllEntries WorkspaceAt s.workspaces
  pub tabs : AllEntries TabAt s.tabs

status_changed-Keyed :
    (panes : PaneMap) (id host : String) (status : AgentStatus) (since : Option ℕ)
    → AllEntries PaneAt panes
    → AllEntries PaneAt (apply_pane_agent_status_changed panes id host status since)
unfolding apply_pane_agent_status_changed
status_changed-Keyed panes id host status since h =
    elim (Option-cases (lookup (pane_key host id) panes)) [
      | inl e ↦ rw (e, apply_pane_agent_status_changed) h
      | inr (p, e) ↦
          rw (e, apply_pane_agent_status_changed)
            (AllEntries-insert PaneAt _ _ panes (AllEntries-lookup PaneAt _ panes p h e) h)
    ]

workspace_renamed-Keyed :
    (workspaces : WorkspaceMap) (id host name : String)
    → AllEntries WorkspaceAt workspaces
    → AllEntries WorkspaceAt (apply_workspace_renamed workspaces id host name)
unfolding apply_workspace_renamed
workspace_renamed-Keyed workspaces id host name h =
    elim (Option-cases (lookup (pane_key host id) workspaces)) [
      | inl e ↦ rw (e, apply_workspace_renamed) h
      | inr (w, e) ↦
          rw (e, apply_workspace_renamed)
            (AllEntries-insert WorkspaceAt _ _ workspaces
              (AllEntries-lookup WorkspaceAt _ workspaces w h e) h)
    ]

tab_renamed-Keyed :
    (tabs : TabMap) (id host name : String)
    → AllEntries TabAt tabs
    → AllEntries TabAt (apply_tab_renamed tabs id host name)
unfolding apply_tab_renamed
tab_renamed-Keyed tabs id host name h = elim (Option-cases (lookup (pane_key host id) tabs)) [
  | inl e ↦ rw (e, apply_tab_renamed) h
  | inr (t, e) ↦
      rw (e, apply_tab_renamed)
        (AllEntries-insert TabAt _ _ tabs (AllEntries-lookup TabAt _ tabs t h e) h)
]

set_tabs-Keyed :
    (new_tabs : List TabSummary) (tabs : TabMap)
    → AllEntries TabAt tabs
    → AllEntries TabAt (set_tabs new_tabs tabs)
unfolding set_tabs
set_tabs-Keyed [] tabs h = h
set_tabs-Keyed (t ∷ rest) tabs h = set_tabs-Keyed rest _ (AllEntries-insert TabAt _ t tabs refl h)

update_panes-Keyed :
    (matches : Pane → Bool) (update : Pane → Pane) (panes : PaneMap)
    → ((k : String) (p : Pane) → PaneAt k p → PaneAt k (update p))
    → AllEntries PaneAt panes
    → AllEntries PaneAt (update_panes matches update panes)
unfolding update_panes
update_panes-Keyed matches update panes keep h =
    AllEntries-map_values PaneAt _ panes
      (λ k p at. elim (Bool-cases (matches p)) [ inl e ↦ rw e (keep k p at) | inr e ↦ rw e at ]) h

create_workspace-Keyed :
    (o : Option WorkspaceSummary) (m : WorkspaceMap)
    → AllEntries WorkspaceAt m
    → AllEntries WorkspaceAt (create_workspace o m)
unfolding create_workspace
create_workspace-Keyed none m h = h
create_workspace-Keyed (some w) m h = AllEntries-insert WorkspaceAt _ w m refl h

create_tab-Keyed :
    (o : Option TabSummary) (m : TabMap) → AllEntries TabAt m → AllEntries TabAt (create_tab o m)
unfolding create_tab
create_tab-Keyed none m h = h
create_tab-Keyed (some t) m h = AllEntries-insert TabAt _ t m refl h

close_one-Keyed :
    {V : Type 0} (P : String → V → Type 0) (host : String) (o : Option String) (m : Dict V)
    → AllEntries P m
    → AllEntries P (close_one host o m)
unfolding close_one
close_one-Keyed P host none m h = h
close_one-Keyed P host (some id) m h = AllEntries-erase P (pane_key host id) m h

close_tabs_of-Keyed :
    (host : String) (o : Option String) (m : TabMap)
    → AllEntries TabAt m
    → AllEntries TabAt (close_tabs_of host o m)
unfolding close_tabs_of
close_tabs_of-Keyed host none m h = h
close_tabs_of-Keyed host (some id) m h = AllEntries-erase_if TabAt _ m h

-- Every event keeps every map keyed by host and id of what it holds, so that a later event about
-- the same pane, workspace or tab finds it.
pub apply_lifecycle_event-IsKeyed :
    (s : LifecycleState) (event : BridgeEvent) → IsKeyed s → IsKeyed (apply_lifecycle_event s event)
unfolding apply_lifecycle_event apply_workspace_created apply_tab_created apply_tabs_replaced
    move_workspaces move_tabs
apply_lifecycle_event-IsKeyed s (pane_created p) h = record {
  panes = AllEntries-insert PaneAt _ p s.panes refl h.panes;
  workspaces = h.workspaces;
  tabs = h.tabs;
}
apply_lifecycle_event-IsKeyed s (pane_closed id host w) h = record {
  panes = AllEntries-erase PaneAt _ s.panes h.panes;
  workspaces = h.workspaces;
  tabs = h.tabs;
}
apply_lifecycle_event-IsKeyed s (pane_agent_status_changed id host status since) h = record {
  panes = status_changed-Keyed s.panes id host status since h.panes;
  workspaces = h.workspaces;
  tabs = h.tabs;
}
apply_lifecycle_event-IsKeyed s (pane_updated p) h = record {
  panes = AllEntries-insert PaneAt _ p s.panes refl h.panes;
  workspaces = h.workspaces;
  tabs = h.tabs;
}
apply_lifecycle_event-IsKeyed s (workspace_created w) h = record {
  panes = h.panes;
  workspaces = AllEntries-insert WorkspaceAt _ w s.workspaces refl h.workspaces;
  tabs = h.tabs;
}
apply_lifecycle_event-IsKeyed s (workspace_renamed id host name) h = record {
  panes = update_panes-Keyed _ _ s.panes (λ k p at. at) h.panes;
  workspaces = workspace_renamed-Keyed s.workspaces id host name h.workspaces;
  tabs = h.tabs;
}
apply_lifecycle_event-IsKeyed s (workspace_closed id host w) h = record {
  panes = AllEntries-erase_if PaneAt _ s.panes h.panes;
  workspaces = AllEntries-erase WorkspaceAt _ s.workspaces h.workspaces;
  tabs = AllEntries-erase_if TabAt _ s.tabs h.tabs;
}
apply_lifecycle_event-IsKeyed s (tab_created t) h = record {
  panes = h.panes;
  workspaces = h.workspaces;
  tabs = AllEntries-insert TabAt _ t s.tabs refl h.tabs;
}
apply_lifecycle_event-IsKeyed s (tab_renamed id host w name) h = record {
  panes = update_panes-Keyed _ _ s.panes (λ k p at. at) h.panes;
  workspaces = h.workspaces;
  tabs = tab_renamed-Keyed s.tabs id host name h.tabs;
}
apply_lifecycle_event-IsKeyed s (tab_closed id host w) h = record {
  panes = AllEntries-erase_if PaneAt _ s.panes h.panes;
  workspaces = h.workspaces;
  tabs = AllEntries-erase TabAt _ s.tabs h.tabs;
}
apply_lifecycle_event-IsKeyed s (tab_moved host w new_tabs) h = record {
  panes = h.panes;
  workspaces = h.workspaces;
  tabs = set_tabs-Keyed new_tabs _ (AllEntries-erase_if TabAt _ s.tabs h.tabs);
}
apply_lifecycle_event-IsKeyed s (pane_moved m) h = record {
  panes = AllEntries-insert PaneAt _ m.pane s.panes refl h.panes;
  workspaces =
      close_one-Keyed WorkspaceAt m.pane.host (truthy m.closed_workspace_id) _
        (create_workspace-Keyed m.created_workspace s.workspaces h.workspaces);
  tabs = close_one-Keyed TabAt m.pane.host (truthy m.closed_tab_id) _ (
      close_tabs_of-Keyed m.pane.host (truthy m.closed_workspace_id) _
        (create_tab-Keyed m.created_tab s.tabs h.tabs));
}
