-- ===== src/State/Panes/Reducers.antt =====
-- The reducers of apps/web/src/app/state/panes.store.ts, and how an event frame is applied.
use kanhrd.Base.{
  ℕ, String, Bool, ◌&&◌, Option, none, some, List, [], ◌∷◌, if◌then◌else◌, str_eq, Dict, lookup,
  insert, erase, erase_if, map_values, concat, truthy,
}
use kanhrd.Wire.{
  AgentStatus, Pane, WorkspaceSummary, TabSummary, PaneMoved, BridgeEvent, pane_created,
  pane_closed, pane_agent_status_changed, pane_updated, workspace_created, workspace_closed,
  workspace_renamed, tab_created, tab_closed, tab_renamed, tab_moved, pane_moved,
}

unfoldable pub pane_key : String → String → String
pane_key host id = concat (host ∷ ":" ∷ id ∷ [])

abbrev pub PaneMap : Type 0
PaneMap = Dict Pane

abbrev pub WorkspaceMap : Type 0
WorkspaceMap = Dict WorkspaceSummary

abbrev pub TabMap : Type 0
TabMap = Dict TabSummary

unfoldable pub apply_pane_created : PaneMap → Pane → PaneMap
apply_pane_created panes pane = insert (pane_key pane.host pane.id) pane panes

unfoldable pub apply_pane_closed : PaneMap → String → String → PaneMap
apply_pane_closed panes id host = erase (pane_key host id) panes

unfoldable pub apply_pane_agent_status_changed :
    PaneMap → String → String → AgentStatus → Option ℕ → PaneMap
apply_pane_agent_status_changed panes id host status since =
    elim (lookup (pane_key host id) panes) [
      | none ↦ panes
      | some existing ↦
          insert (pane_key host id)
            (record existing { agent_status = status; status_since = since }) panes
    ]

unfoldable pub apply_event : PaneMap → BridgeEvent → PaneMap
unfolding apply_pane_created apply_pane_closed apply_pane_agent_status_changed
apply_event panes (pane_created pane) = apply_pane_created panes pane
apply_event panes (pane_closed id host workspace) = apply_pane_closed panes id host
apply_event panes (pane_agent_status_changed id host status since) =
    apply_pane_agent_status_changed panes id host status since
apply_event panes (pane_moved m) = apply_pane_created panes m.pane
apply_event panes (pane_updated pane) = apply_pane_created panes pane
apply_event panes _ = panes

pub record LifecycleState : Type 0 where
  pub panes : PaneMap
  pub workspaces : WorkspaceMap
  pub tabs : TabMap

unfoldable pub apply_workspace_created : WorkspaceMap → WorkspaceSummary → WorkspaceMap
apply_workspace_created workspaces w = insert (pane_key w.host w.id) w workspaces

unfoldable pub apply_workspace_renamed : WorkspaceMap → String → String → String → WorkspaceMap
apply_workspace_renamed workspaces id host name = elim (lookup (pane_key host id) workspaces) [
  | none ↦ workspaces
  | some existing ↦ insert (pane_key host id) (record existing { name = name }) workspaces
]

unfoldable pub apply_tab_created : TabMap → TabSummary → TabMap
apply_tab_created tabs t = insert (pane_key t.host t.id) t tabs

unfoldable pub apply_tab_renamed : TabMap → String → String → String → TabMap
apply_tab_renamed tabs id host name = elim (lookup (pane_key host id) tabs) [
  | none ↦ tabs
  | some existing ↦ insert (pane_key host id) (record existing { name = name }) tabs
]

-- `t.host === host && t.workspace.id === workspaceId`
abbrev pub tab_in_workspace : String → String → TabSummary → Bool
tab_in_workspace host id t = str_eq t.host host && str_eq t.workspace_id id

abbrev pub pane_in_workspace : String → String → Pane → Bool
pane_in_workspace host id p = str_eq p.host host && str_eq p.workspace.id id

abbrev pub pane_in_tab : String → String → Pane → Bool
pane_in_tab host id p = str_eq p.host host && str_eq p.tab.id id

unfoldable pub set_tabs : List TabSummary → TabMap → TabMap
set_tabs [] tabs = tabs
set_tabs (t ∷ rest) tabs = set_tabs rest (insert (pane_key t.host t.id) t tabs)

unfoldable pub apply_tabs_replaced : TabMap → String → String → List TabSummary → TabMap
unfolding set_tabs
apply_tabs_replaced tabs host workspace_id new_tabs =
    set_tabs new_tabs (erase_if (tab_in_workspace host workspace_id) tabs)

-- `updatePanes`: rewrites each matching pane in place.
unfoldable pub update_panes : (Pane → Bool) → (Pane → Pane) → PaneMap → PaneMap
update_panes matches update panes = map_values (λ p. if matches p then update p else p) panes

abbrev pub rename_workspace : String → Pane → Pane
rename_workspace name p = record p { workspace = record p.workspace { name = name } }

abbrev pub rename_tab : String → Pane → Pane
rename_tab name p = record p { tab = record p.tab { name = name } }

-- The parts of the `pane.moved` case.
unfoldable pub create_workspace : Option WorkspaceSummary → WorkspaceMap → WorkspaceMap
unfolding apply_workspace_created
create_workspace none workspaces = workspaces
create_workspace (some w) workspaces = apply_workspace_created workspaces w

unfoldable pub create_tab : Option TabSummary → TabMap → TabMap
unfolding apply_tab_created
create_tab none tabs = tabs
create_tab (some t) tabs = apply_tab_created tabs t

-- `removeByKey` of a closed workspace or tab, if there is one
unfoldable pub close_one {ℓ} : {V : Type ℓ} → String → Option String → Dict V → Dict V
close_one host none m = m
close_one host (some id) m = erase (pane_key host id) m

unfoldable pub close_tabs_of : String → Option String → TabMap → TabMap
close_tabs_of host none tabs = tabs
close_tabs_of host (some id) tabs = erase_if (tab_in_workspace host id) tabs

unfoldable pub move_workspaces : PaneMoved → WorkspaceMap → WorkspaceMap
unfolding create_workspace close_one
move_workspaces m workspaces =
    close_one m.pane.host (truthy m.closed_workspace_id)
      (create_workspace m.created_workspace workspaces)

unfoldable pub move_tabs : PaneMoved → TabMap → TabMap
unfolding create_tab close_one close_tabs_of
move_tabs m tabs =
    close_one m.pane.host (truthy m.closed_tab_id)
      (close_tabs_of m.pane.host (truthy m.closed_workspace_id) (create_tab m.created_tab tabs))

unfoldable pub apply_lifecycle_event : LifecycleState → BridgeEvent → LifecycleState
unfolding apply_event
apply_lifecycle_event s (pane_created p) = record s { panes = apply_event s.panes (pane_created p) }
apply_lifecycle_event s (pane_closed id host w) = record s {
  panes = apply_event s.panes (pane_closed id host w);
}
apply_lifecycle_event s (pane_agent_status_changed id host status since) = record s {
  panes = apply_event s.panes (pane_agent_status_changed id host status since);
}
apply_lifecycle_event s (pane_updated p) = record s { panes = apply_event s.panes (pane_updated p) }
apply_lifecycle_event s (workspace_created w) = record s {
  workspaces = apply_workspace_created s.workspaces w;
}
apply_lifecycle_event s (workspace_renamed id host name) = record s {
  workspaces = apply_workspace_renamed s.workspaces id host name;
  panes = update_panes (pane_in_workspace host id) (rename_workspace name) s.panes;
}
apply_lifecycle_event s (workspace_closed id host w) = record {
  panes = erase_if (pane_in_workspace host id) s.panes;
  workspaces = erase (pane_key host id) s.workspaces;
  tabs = erase_if (tab_in_workspace host id) s.tabs;
}
apply_lifecycle_event s (tab_created t) = record s { tabs = apply_tab_created s.tabs t }
apply_lifecycle_event s (tab_renamed id host workspace name) = record s {
  tabs = apply_tab_renamed s.tabs id host name;
  panes = update_panes (pane_in_tab host id) (rename_tab name) s.panes;
}
apply_lifecycle_event s (tab_closed id host workspace) = record s {
  tabs = erase (pane_key host id) s.tabs;
  panes = erase_if (pane_in_tab host id) s.panes;
}
apply_lifecycle_event s (tab_moved host workspace new_tabs) = record s {
  tabs = apply_tabs_replaced s.tabs host workspace new_tabs;
}
apply_lifecycle_event s (pane_moved m) = record {
  panes = apply_event s.panes (pane_moved m);
  workspaces = move_workspaces m s.workspaces;
  tabs = move_tabs m s.tabs;
}
