-- ===== src/Herdr/Host.antt =====
-- `HostRuntime` of apps/bridge/src/herdr/hosts.ts: what the bridge tracks of one host, and the events
-- that it emits for what herdr pushes and for what its poll finds.
pub mod Push
pub mod Placed
pub mod Tracking
pub mod Link
pub mod Calls
pub mod Polling
pub mod Trace
use kanhrd.Base.{
  ℕ, String, Bool, true, false, not, ◌&&◌, Option, none, some, List, [], ◌∷◌, ◌++◌, if◌then◌else◌,
  str_eq, Dict, lookup, insert, erase, keys, truthy, includes, min, ◌*◌,
}
use kanhrd.Wire.{
  AgentStatus, status_eq, Pane, WorkspaceSummary, TabSummary, PaneMoved, BridgeEvent, pane_created,
  pane_closed, pane_agent_status_changed, pane_updated, workspace_created, workspace_closed,
  workspace_renamed, tab_created, tab_closed, tab_renamed, tab_moved, pane_moved,
}
use kanhrd.Herdr.Names.{
  PanePlacement, NameCache, WorkspaceInfo, TabInfo, set_workspace, set_tab, set_pane_placement,
  remove_pane, purge_tab, purge_workspace, pane_placement, refresh, erase_all,
}
use kanhrd.Herdr.Project.{
  PaneInfo, Worktree, Checkouts, project_pane, project_workspace, project_tab,
}

pub record Observed : Type 0 where
  pub status : AgentStatus
  pub since : Option ℕ

pub record HostState : Type 0 where
  pub pane_agent_status : Dict Observed
  pub names : NameCache Worktree

-- What does not change: the name of the host, `files !== false`, and the file system.
pub record HostConfig : Type 0 where
  pub name : String
  pub files_enabled : Bool
  pub checkouts : Checkouts

abbrev pub stamp : Bool → ℕ → Option ℕ
stamp seeding now = if seeding then none else some now

abbrev pub observe : Option Observed → PaneInfo → Bool → ℕ → Dict Observed → Dict Observed
observe none p seeding now m =
    insert p.pane_id (record { status = p.agent_status; since = stamp seeding now }) m
observe (some previous) p seeding now m =
    if status_eq previous.status p.agent_status
    then m
    else insert p.pane_id (record { status = p.agent_status; since = some now }) m

unfoldable pub track_pane : PaneInfo → Bool → ℕ → HostState → HostState
track_pane p seeding now s = record {
  pane_agent_status =
      observe (lookup p.pane_id s.pane_agent_status) p seeding now s.pane_agent_status;
  names = set_pane_placement p.pane_id p.workspace_id p.tab_id s.names;
}

abbrev pub since_in : Option Observed → Option ℕ
since_in none = none
since_in (some o) = o.since

unfoldable pub project : HostConfig → HostState → PaneInfo → Pane
project config s p =
    project_pane config.checkouts config.name p s.names
      (since_in (lookup p.pane_id s.pane_agent_status)) config.files_enabled

unfoldable pub untrack_pane : String → HostState → HostState
untrack_pane id s = record {
  pane_agent_status = erase id s.pane_agent_status;
  names = remove_pane id s.names;
}

unfoldable pub track_tab : TabInfo → HostState → HostState
track_tab t s = record s { names = set_tab t.tab_id t.label (some t.workspace_id) s.names }

unfoldable pub track_tabs : List TabInfo → HostState → HostState
unfolding track_tab
track_tabs [] s = s
track_tabs (t ∷ ts) s = track_tabs ts (track_tab t s)

unfoldable pub track_workspace : WorkspaceInfo Worktree → HostState → HostState
track_workspace w s = record s { names = set_workspace w.workspace_id w.label w.worktree s.names }

-- `purgeCascade(names.purgeWorkspace(id).paneIds)`
unfoldable pub close_workspace : String → HostState → HostState
close_workspace id s =
    let purged = purge_workspace id s.names in
    record { pane_agent_status = erase_all purged.2 s.pane_agent_status; names = purged.0 }

-- `purgeCascade(names.purgeTab(id).paneIds)`
unfoldable pub close_tab : String → HostState → HostState
close_tab id s =
    let purged = purge_tab id s.names in
    record { pane_agent_status = erase_all purged.1 s.pane_agent_status; names = purged.0 }

pub record MoveResult : Type 0 where
  pub changed : Bool
  pub pane : PaneInfo
  pub previous_workspace_id : String
  pub previous_tab_id : String
  pub created_workspace : Option (WorkspaceInfo Worktree)
  pub created_tab : Option TabInfo
  pub closed_workspace_id : Option String
  pub closed_tab_id : Option String

unfoldable pub if_some :
    {A : Type 0} → (A → HostState → HostState) → Option A → HostState → HostState
if_some f none s = s
if_some f (some a) s = f a s

unfoldable pub apply_pane_move_cache : MoveResult → ℕ → HostState → HostState
unfolding if_some track_pane track_workspace track_tab close_workspace close_tab
apply_pane_move_cache m now s =
    if m.changed
    then if_some close_tab m.closed_tab_id (
        if_some close_workspace m.closed_workspace_id (
          if_some track_tab m.created_tab
            (if_some track_workspace m.created_workspace (track_pane m.pane false now s))))
    else s

-- The part of `connectOnce` that seeds the caches, once its three lists have come.
unfoldable pub seed_panes : List PaneInfo → ℕ → HostState → HostState
unfolding track_pane
seed_panes [] now s = s
seed_panes (p ∷ ps) now s = seed_panes ps now (track_pane p true now s)

unfoldable pub connect_once :
    List (WorkspaceInfo Worktree) → List TabInfo → List PaneInfo → ℕ → HostState → HostState
unfolding seed_panes
connect_once ws ts ps now s =
    seed_panes ps now (record { pane_agent_status = []; names = refresh ws ts s.names })

-- The state after a step, and the events that it emits.
abbrev pub Emitting : Type 0
Emitting = HostState × List BridgeEvent

abbrev pub closed_event : HostConfig → String → String → BridgeEvent
closed_event config id workspace_id = pane_closed id config.name workspace_id
