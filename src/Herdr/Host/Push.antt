-- ===== src/Herdr/Host/Push.antt =====
-- `handlePushedEvent` of apps/bridge/src/herdr/hosts.ts: what the bridge does with an event of herdr.
use kanhrd.Base.{ℕ, String, true, false, Option, none, some, List, [], ◌∷◌, truthy}
use kanhrd.Wire.{
  Pane, TabSummary, BridgeEvent, pane_created, pane_updated, workspace_created, workspace_closed,
  workspace_renamed, tab_created, tab_closed, tab_renamed, tab_moved, pane_moved,
}
use kanhrd.Herdr.Names.{WorkspaceInfo, TabInfo, set_workspace, set_tab}
use kanhrd.Herdr.Project.{PaneInfo, Worktree, project_workspace, project_tab}
use kanhrd.Herdr.Host.{
  HostState, HostConfig, Emitting, track_pane, project, untrack_pane, track_tab, track_tabs,
  track_workspace, close_workspace, close_tab, MoveResult, apply_pane_move_cache, closed_event,
}

-- What herdr pushes, with the fields that may be absent.
pub data Pushed : Type 0 where
  pushed_pane_created pushed_pane_updated : Option PaneInfo → Pushed
  pushed_pane_closed : Option String → Option String → Pushed
  pushed_workspace_created : Option (WorkspaceInfo Worktree) → Pushed
  pushed_workspace_closed : Option String → Option (WorkspaceInfo Worktree) → Pushed
  pushed_workspace_renamed : Option String → Option String → Pushed
  pushed_tab_created : Option TabInfo → Pushed
  pushed_tab_closed : Option String → Option String → Pushed
  pushed_tab_renamed : Option String → Option String → Option String → Pushed
  pushed_tab_moved : Option String → Option (List TabInfo) → Pushed
  pushed_pane_moved :
      Option PaneInfo
      → Option String
      → Option String
      → Option (WorkspaceInfo Worktree)
      → Option TabInfo
      → Option String
      → Option String
      → Pushed
  pushed_other : Pushed

abbrev pub summary_of : {A B : Type 0} → (A → B) → Option A → Option B
summary_of f none = none
summary_of f (some a) = some (f a)

abbrev pub tab_summaries : String → List TabInfo → List TabSummary
tab_summaries host [] = []
tab_summaries host (t ∷ ts) = project_tab host t ∷ tab_summaries host ts

abbrev pub moved_event : HostConfig → MoveResult → HostState → BridgeEvent
moved_event config m s = pane_moved (record {
  pane = project config s m.pane;
  previous_workspace_id = m.previous_workspace_id;
  previous_tab_id = m.previous_tab_id;
  created_workspace = summary_of (project_workspace config.name) m.created_workspace;
  created_tab = summary_of (project_tab config.name) m.created_tab;
  closed_workspace_id = m.closed_workspace_id;
  closed_tab_id = m.closed_tab_id;
})

abbrev pub on_pane : (Pane → BridgeEvent) → HostConfig → ℕ → PaneInfo → HostState → Emitting
on_pane event config now p s =
    (track_pane p false now s, event (project config (track_pane p false now s) p) ∷ [])

abbrev pub on_pane_closed : HostConfig → Option String → Option String → HostState → Emitting
on_pane_closed config (some id) (some w) s = (untrack_pane id s, closed_event config id w ∷ [])
on_pane_closed config id none s = (s, [])
on_pane_closed config none (some w) s = (s, [])

abbrev pub on_workspace_closed :
    HostConfig → Option String → Option (WorkspaceInfo Worktree) → HostState → Emitting
on_workspace_closed config none w s = (s, [])
on_workspace_closed config (some id) w s = (
  close_workspace id s,
  workspace_closed id config.name (summary_of (project_workspace config.name) w) ∷ [],
)

abbrev pub on_workspace_renamed : HostConfig → Option String → Option String → HostState → Emitting
on_workspace_renamed config (some id) (some label) s = (
  record s { names = set_workspace id label none s.names },
  workspace_renamed id config.name label ∷ [],
)
on_workspace_renamed config id none s = (s, [])
on_workspace_renamed config none (some label) s = (s, [])

abbrev pub on_tab_closed : HostConfig → Option String → Option String → HostState → Emitting
on_tab_closed config (some id) (some w) s = (close_tab id s, tab_closed id config.name w ∷ [])
on_tab_closed config id none s = (s, [])
on_tab_closed config none (some w) s = (s, [])

abbrev pub on_tab_renamed :
    HostConfig → Option String → Option String → Option String → HostState → Emitting
on_tab_renamed config (some id) (some w) (some label) s = (
  record s { names = set_tab id label (some w) s.names },
  tab_renamed id config.name w label ∷ [],
)
on_tab_renamed config none w label s = (s, [])
on_tab_renamed config (some id) none label s = (s, [])
on_tab_renamed config (some id) (some w) none s = (s, [])

abbrev pub on_tab_moved : HostConfig → Option String → Option (List TabInfo) → HostState → Emitting
on_tab_moved config (some w) (some ts) s =
    (track_tabs ts s, tab_moved config.name w (tab_summaries config.name ts) ∷ [])
on_tab_moved config none ts s = (s, [])
on_tab_moved config (some w) none s = (s, [])

abbrev pub on_moved : HostConfig → ℕ → MoveResult → HostState → Emitting
on_moved config now m s =
    (apply_pane_move_cache m now s, moved_event config m (apply_pane_move_cache m now s) ∷ [])

abbrev pub move_of :
    Option PaneInfo
    → Option String
    → Option String
    → Option (WorkspaceInfo Worktree)
    → Option TabInfo
    → Option String
    → Option String
    → Option MoveResult
move_of (some p) (some w) (some t) cw ct dw dt = some (record {
  changed = true;
  pane = p;
  previous_workspace_id = w;
  previous_tab_id = t;
  created_workspace = cw;
  created_tab = ct;
  closed_workspace_id = dw;
  closed_tab_id = dt;
})
move_of none w t cw ct dw dt = none
move_of (some p) none t cw ct dw dt = none
move_of (some p) (some w) none cw ct dw dt = none

abbrev pub on_some_of : {A : Type 0} → (A → HostState → Emitting) → Option A → HostState → Emitting
on_some_of f none s = (s, [])
on_some_of f (some a) s = f a s

unfoldable pub handle_pushed_event : HostConfig → ℕ → Pushed → HostState → Emitting
unfolding track_pane project untrack_pane track_tabs close_workspace close_tab apply_pane_move_cache
handle_pushed_event config now (pushed_pane_created p) s =
    on_some_of (on_pane pane_created config now) p s
handle_pushed_event config now (pushed_pane_updated p) s =
    on_some_of (on_pane pane_updated config now) p s
handle_pushed_event config now (pushed_pane_closed id w) s =
    on_pane_closed config (truthy id) (truthy w) s
handle_pushed_event config now (pushed_workspace_created w) s =
    on_some_of
      (λ x t. (track_workspace x t, workspace_created (project_workspace config.name x) ∷ [])) w s
handle_pushed_event config now (pushed_workspace_closed id w) s =
    on_workspace_closed config (truthy id) w s
handle_pushed_event config now (pushed_workspace_renamed id label) s =
    on_workspace_renamed config (truthy id) label s
handle_pushed_event config now (pushed_tab_created t) s =
    on_some_of (λ x u. (track_tab x u, tab_created (project_tab config.name x) ∷ [])) t s
handle_pushed_event config now (pushed_tab_closed id w) s =
    on_tab_closed config (truthy id) (truthy w) s
handle_pushed_event config now (pushed_tab_renamed id w label) s =
    on_tab_renamed config (truthy id) (truthy w) label s
handle_pushed_event config now (pushed_tab_moved w ts) s = on_tab_moved config (truthy w) ts s
handle_pushed_event config now (pushed_pane_moved p w t cw ct dw dt) s =
    on_some_of (on_moved config now) (move_of p (truthy w) (truthy t) cw ct dw dt) s
handle_pushed_event config now pushed_other s = (s, [])
