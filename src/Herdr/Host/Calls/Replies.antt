-- ===== src/Herdr/Host/Calls/Replies.antt =====
-- What the calls of `HostRuntime` in apps/bridge/src/herdr/hosts.ts do with herdr's reply.
use kanhrd.Base.{ℕ, String, false, Option, none, some, List}
use kanhrd.Herdr.Names.{WorkspaceInfo, TabInfo}
use kanhrd.Herdr.Project.{PaneInfo, Worktree, project_workspace, project_tab}
use kanhrd.Herdr.Host.{
  HostState, HostConfig, MoveResult, track_pane, project, untrack_pane, track_tab, track_tabs,
  track_workspace, close_workspace, close_tab, apply_pane_move_cache,
}
use kanhrd.Herdr.Host.Push.{tab_summaries}
use kanhrd.Herdr.Host.Calls.{
  LifecycleCall, pane_send_keys, pane_send_text, pane_split, pane_close, pane_rename, pane_move,
  tab_create, tab_rename, tab_close, tab_move, workspace_create, workspace_rename, workspace_close,
  Reply, Outcome, done, pane_result, moved_result, tab_result, tab_pane_result, tabs_result,
  workspace_result, workspace_tab_pane_result, rejected, moved_of,
}

abbrev pub Settled : Type 0
Settled = HostState × Outcome

-- A reply without a field is an exception where the field is first used; what was done before stays.
abbrev pub with_pane : HostConfig → ℕ → Option PaneInfo → HostState → Settled
with_pane config now (some p) s =
    (track_pane p false now s, pane_result (project config (track_pane p false now s) p))
with_pane config now none s = (s, rejected)

abbrev pub with_move : HostConfig → ℕ → Option (MoveResult × Option String) → HostState → Settled
with_move config now (some (m, reason)) s = (
  apply_pane_move_cache m now s,
  moved_result (moved_of config m reason (apply_pane_move_cache m now s)),
)
with_move config now none s = (s, rejected)

abbrev pub with_tab : HostConfig → Option TabInfo → HostState → Settled
with_tab config (some t) s = (track_tab t s, tab_result (project_tab config.name t))
with_tab config none s = (s, rejected)

-- `trackTab` comes before `trackPane`.
abbrev pub with_tab_pane : HostConfig → ℕ → Option TabInfo → Option PaneInfo → HostState → Settled
with_tab_pane config now (some t) (some p) s =
    let after = track_pane p false now (track_tab t s) in
    (after, tab_pane_result (project_tab config.name t) (project config after p))
with_tab_pane config now (some t) none s = (track_tab t s, rejected)
with_tab_pane config now none p s = (s, rejected)

abbrev pub with_tabs : HostConfig → Option (List TabInfo) → HostState → Settled
with_tabs config (some ts) s = (track_tabs ts s, tabs_result (tab_summaries config.name ts))
with_tabs config none s = (s, rejected)

abbrev pub with_workspace : HostConfig → Option (WorkspaceInfo Worktree) → HostState → Settled
with_workspace config (some w) s =
    (track_workspace w s, workspace_result (project_workspace config.name w))
with_workspace config none s = (s, rejected)

-- `trackWorkspace`, `trackTab` and `trackPane`, in this order.
abbrev pub with_workspace_tab_pane :
    HostConfig
    → ℕ
    → Option (WorkspaceInfo Worktree)
    → Option TabInfo
    → Option PaneInfo
    → HostState
    → Settled
with_workspace_tab_pane config now (some w) (some t) (some p) s =
    let after = track_pane p false now (track_tab t (track_workspace w s)) in
    (
      after,
      workspace_tab_pane_result (project_workspace config.name w) (project_tab config.name t)
          (project config after p),
    )
with_workspace_tab_pane config now (some w) (some t) none s =
    (track_tab t (track_workspace w s), rejected)
with_workspace_tab_pane config now (some w) none p s = (track_workspace w s, rejected)
with_workspace_tab_pane config now none t p s = (s, rejected)

-- The rest of a call once its request has been answered; none is a request that failed.
unfoldable pub settle_call : HostConfig → ℕ → LifecycleCall → Option Reply → HostState → Settled
unfolding untrack_pane close_tab close_workspace track_pane project track_tabs apply_pane_move_cache
settle_call config now c none s = (s, rejected)
settle_call config now (pane_send_keys id keys) (some r) s = (s, done)
settle_call config now (pane_send_text id t) (some r) s = (s, done)
settle_call config now (pane_split p) (some r) s = with_pane config now r.pane s
settle_call config now (pane_close id) (some r) s = (untrack_pane id s, done)
settle_call config now (pane_rename id label) (some r) s = with_pane config now r.pane s
settle_call config now (pane_move id destination focus) (some r) s =
    with_move config now r.move_result s
settle_call config now (tab_create p) (some r) s = with_tab_pane config now r.tab r.root_pane s
settle_call config now (tab_rename id label) (some r) s = with_tab config r.tab s
settle_call config now (tab_close id) (some r) s = (close_tab id s, done)
settle_call config now (tab_move id index) (some r) s = with_tabs config r.tabs s
settle_call config now (workspace_create p) (some r) s =
    with_workspace_tab_pane config now r.workspace r.tab r.root_pane s
settle_call config now (workspace_rename id label) (some r) s = with_workspace config r.workspace s
settle_call config now (workspace_close id close_group) (some r) s = (close_workspace id s, done)
