-- ===== src/State/Actions.antt =====
-- apps/web/src/app/state/panes.store.ts: what the board's own actions do to its maps once the bridge
-- has answered, and the first listing of a host.
pub mod Kept
pub mod Released
use kanhrd.Base.{
  ℕ, zero, suc, ◌+◌, String, Bool, true, false, ◌&&◌, Option, none, some, List, [], ◌∷◌,
  if◌then◌else◌, str_eq, erase, Dict, lookup, erase_if, includes, keep_if, not, any, values,
}
use kanhrd.Wire.{Pane, WorkspaceSummary, TabSummary, PaneMoved, BridgeEvent, pane_moved}
use kanhrd.State.Panes.Reducers.{
  pane_key, PaneMap, WorkspaceMap, TabMap, LifecycleState, apply_pane_created, apply_pane_closed,
  apply_workspace_created, apply_workspace_renamed, apply_tab_created, apply_tab_renamed,
  tab_in_workspace, pane_in_workspace, pane_in_tab, update_panes, rename_workspace, rename_tab,
}
use kanhrd.State.Frame.{BoardState, release_dropped_panes, apply_frame}

-- `purgePanes`; an update that changes nothing has nothing to release.
unfoldable pub purge_panes : (PaneMap → PaneMap) → BoardState → BoardState
unfolding release_dropped_panes
purge_panes update s = record {
  maps = record s.maps { panes = update s.maps.panes };
  parked = release_dropped_panes s.maps.panes (update s.maps.panes) s.parked;
}

abbrev on_panes : (PaneMap → PaneMap) → BoardState → BoardState
on_panes f s = record s { maps = record s.maps { panes = f s.maps.panes } }

abbrev on_tabs : (TabMap → TabMap) → BoardState → BoardState
on_tabs f s = record s { maps = record s.maps { tabs = f s.maps.tabs } }

abbrev on_workspaces : (WorkspaceMap → WorkspaceMap) → BoardState → BoardState
on_workspaces f s = record s { maps = record s.maps { workspaces = f s.maps.workspaces } }

-- An action with what the bridge answered; an answer without a result is none.
pub data Action : Type 0 where
  split_pane : Option Pane → Action
  move_pane : Option (Bool × PaneMoved) → Action
  close_pane : String → String → Action
  rename_pane : Option Pane → Action
  create_tab : Option (TabSummary × Pane) → Action
  rename_tab_as : String → String → String → Bool → Action
  close_tab : String → String → Action
  create_workspace : Option (WorkspaceSummary × TabSummary × Pane) → Action
  rename_workspace_as : String → String → String → Bool → Action
  close_workspace : String → String → Action

unfoldable pub act : Action → BoardState → BoardState
unfolding apply_pane_created apply_pane_closed apply_tab_created apply_tab_renamed
    apply_workspace_created
act (split_pane none) s = s
act (split_pane (some pane)) s = on_panes (λ m. apply_pane_created m pane) s
act (move_pane none) s = s
act (move_pane (some (changed, moved))) s = if changed then apply_frame (pane_moved moved) s else s
act (close_pane host id) s = purge_panes (λ m. apply_pane_closed m id host) s
act (rename_pane none) s = s
act (rename_pane (some pane)) s = on_panes (λ m. apply_pane_created m pane) s
act (create_tab none) s = s
act (create_tab (some (tab, pane))) s =
    on_panes (λ m. apply_pane_created m pane) (on_tabs (λ m. apply_tab_created m tab) s)
act (rename_tab_as host id label answered) s =
    if answered
    then on_panes (update_panes (pane_in_tab host id) (rename_tab label))
        (on_tabs (λ m. apply_tab_renamed m id host label) s)
    else s
act (close_tab host id) s =
    purge_panes (erase_if (pane_in_tab host id)) (on_tabs (erase (pane_key host id)) s)
act (create_workspace none) s = s
act (create_workspace (some (workspace, tab, pane))) s =
    on_panes (λ m. apply_pane_created m pane)
      (on_tabs (λ m. apply_tab_created m tab)
        (on_workspaces (λ m. apply_workspace_created m workspace) s))
act (rename_workspace_as host id label answered) s =
    if answered
    then on_panes (update_panes (pane_in_workspace host id) (rename_workspace label))
        (on_workspaces (λ m. apply_workspace_renamed m id host label) s)
    else s
act (close_workspace host id) s =
    purge_panes (erase_if (pane_in_workspace host id))
      (on_tabs (erase_if (tab_in_workspace host id)) (on_workspaces (erase (pane_key host id)) s))

-- The workspace and the tab that a listed pane names.
abbrev pub workspace_of : Pane → WorkspaceSummary
workspace_of p = record { id = p.workspace.id; host = p.host; name = p.workspace.name }

abbrev pub tab_of : Pane → TabSummary
tab_of p = record { id = p.tab.id; host = p.host; workspace_id = p.workspace.id; name = p.tab.name }

unfoldable pub list_panes : List Pane → PaneMap → PaneMap
unfolding apply_pane_created
list_panes [] m = m
list_panes (p ∷ ps) m = list_panes ps (apply_pane_created m p)

unfoldable pub list_workspaces : List Pane → WorkspaceMap → WorkspaceMap
unfolding apply_workspace_created
list_workspaces [] m = m
list_workspaces (p ∷ ps) m = list_workspaces ps (apply_workspace_created m (workspace_of p))

unfoldable pub list_tabs : List Pane → TabMap → TabMap
unfolding apply_tab_created
list_tabs [] m = m
list_tabs (p ∷ ps) m = list_tabs ps (apply_tab_created m (tab_of p))

-- The part of `subscribeHost` that takes the answer of `pane.list`.
unfoldable pub apply_listing : List Pane → LifecycleState → LifecycleState
unfolding list_panes list_workspaces list_tabs
apply_listing panes s = record {
  panes = list_panes panes s.panes;
  workspaces = list_workspaces panes s.workspaces;
  tabs = list_tabs panes s.tabs;
}

abbrev count_if : {A : Type 0} → (A → Bool) → List A → ℕ
count_if p [] = 0
count_if p (x ∷ xs) = (if p x then 1 else 0) + count_if p xs

unfoldable pub workspace_count_for_host : String → WorkspaceMap → ℕ
workspace_count_for_host host m = count_if (λ w. str_eq w.host host) (values m)

unfoldable pub tab_count_for_workspace : String → String → TabMap → ℕ
tab_count_for_workspace host id m = count_if (tab_in_workspace host id) (values m)
