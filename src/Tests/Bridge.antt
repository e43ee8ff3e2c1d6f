-- ===== src/Tests/Bridge.antt =====
-- A host with one tracked pane that is gone from herdr's next list.
use kanhrd.Base.{
  HasUniqueKeys, erase, String, ◌≡◌, refl, true, false, not, ◌&&◌, none, some, [], ◌∷◌, lookup,
  includes, arith,
}
use kanhrd.Wire.{AgentStatus}
use kanhrd.Herdr.Names.{NameCache, purge_workspace}
use kanhrd.Herdr.Names.Purge.{IsPurged, purge_workspace-IsPurged}
use kanhrd.Herdr.Project.{PaneInfo, Worktree}
use kanhrd.Herdr.Host.{HostState, HostConfig, track_pane}
use kanhrd.Herdr.Host.Push.{pushed_pane_closed}
use kanhrd.Herdr.Host.Trace.{pushed, polled, seeded, changed_by, untracked, changed_by-IsPlaced}
use kanhrd.Herdr.Host.Placed.{is_tracked, IsPlaced, track_pane-IsPlaced}
use kanhrd.Herdr.Host.Polling.{pane_ids, poll_begin, poll_finish}
use kanhrd.Herdr.Host.Polling.Laws.{closes, IsPolled, poll_finish-IsPolled, poll-reports_gone}

abbrev pane : String → PaneInfo
pane id = record {
  pane_id = id;
  workspace_id = "w1";
  tab_id = "t1";
  label = none;
  agent = none;
  title = none;
  display_agent = none;
  agent_status = AgentStatus.idle;
  cwd = none;
}

abbrev pub config : HostConfig
config = record {
  name = "local";
  files_enabled = true;
  checkouts = record { resolve_repo = λ cwd. none; files_local_hint = λ enabled cwd path. false };
}

abbrev names : NameCache Worktree
names = record {
  workspaces = ("w1", record { label = "main"; worktree = none }) ∷ [];
  tabs = ("t1", "shell") ∷ [];
  tab_workspace = ("t1", "w1") ∷ [];
  pane_placements = [];
}

abbrev no_panes : HostState
no_panes = record { pane_agent_status = []; names = names }

abbrev pub one_pane : HostState
one_pane = track_pane (pane "1") false 5 no_panes

pub one_pane-IsPlaced : IsPlaced one_pane
unfolding lookup
one_pane-IsPlaced =
    track_pane-IsPlaced (pane "1") false 5 no_panes
      (record { placed = λ id t. absurd (ground arith) })

-- A pane in the tab of the workspace, and one in a tab that the cache does not know.
abbrev placed : NameCache Worktree
placed = record names {
  pane_placements =
      ("1", record { workspace_id = "w1"; tab_id = "t1" })
      ∷ ("2", record { workspace_id = "w1"; tab_id = "t9" })
      ∷ [];
}

only_known_tabs :
    (purge_workspace "w1" placed).0.pane_placements
    ≡ ("2", record { workspace_id = "w1"; tab_id = "t9" }) ∷ []
unfolding purge_workspace erase
only_known_tabs = refl

placed_once : HasUniqueKeys placed.pane_placements
unfolding lookup
placed_once = (refl, (refl, tt))

tabs_once : HasUniqueKeys placed.tab_workspace
unfolding lookup
tabs_once = (refl, tt)

purge_workspace-IsPurged_example : IsPurged "w1" placed (purge_workspace "w1" placed)
purge_workspace-IsPurged_example = purge_workspace-IsPurged "w1" placed tabs_once placed_once

poll-reports_gone_example :
    (is_tracked "1" (poll_finish config 9 (poll_begin one_pane) (pane "2" ∷ []) one_pane).0
      ≡ includes "1" (pane_ids (pane "2" ∷ [])))
    × (closes "1" (poll_finish config 9 (poll_begin one_pane) (pane "2" ∷ []) one_pane).1
        ≡ (is_tracked "1" one_pane && not (includes "1" (pane_ids (pane "2" ∷ [])))))
poll-reports_gone_example =
    poll-reports_gone config 9 (pane "2" ∷ []) one_pane "1" one_pane-IsPlaced

poll_finish-IsPolled_example :
    IsPolled "1"
      ("1" ∷ [])
      ("2" ∷ [])
      one_pane
      (poll_finish config 9 ("1" ∷ []) (pane "2" ∷ []) one_pane).0
      (poll_finish config 9 ("1" ∷ []) (pane "2" ∷ []) one_pane).1
poll_finish-IsPolled_example = poll_finish-IsPolled config 9 ("1" ∷ []) (pane "2" ∷ []) one_pane "1"

changed_by-IsPlaced_example : IsPlaced (
    changed_by config
      (seeded 3 [] [] (pane "1" ∷ [])
        ∷ pushed 5 (pushed_pane_closed (some "1") (some "w1"))
        ∷ polled 9 ("1" ∷ []) (pane "2" ∷ [])
        ∷ [])
      (untracked names))
changed_by-IsPlaced_example = changed_by-IsPlaced config names (
    seeded 3 [] [] (pane "1" ∷ [])
    ∷ pushed 5 (pushed_pane_closed (some "1") (some "w1"))
    ∷ polled 9 ("1" ∷ []) (pane "2" ∷ [])
    ∷ [])
