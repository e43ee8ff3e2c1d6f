-- ===== src/Herdr/Host/Polling.antt =====
-- `pollAgentStatus` of apps/bridge/src/herdr/hosts.ts: panes that vanished, and statuses that changed.
pub mod Laws
use kanhrd.Base.{
  ℕ, String, Bool, true, false, not, ◌&&◌, Option, none, some, List, [], ◌∷◌, ◌++◌, if◌then◌else◌,
  str_eq, Dict, lookup, keys, includes,
}
use kanhrd.Wire.{AgentStatus, status_eq, BridgeEvent, pane_closed, pane_agent_status_changed}
use kanhrd.Herdr.Names.{PanePlacement, pane_placement}
use kanhrd.Herdr.Project.{PaneInfo}
use kanhrd.Herdr.Host.{
  Observed, HostState, HostConfig, Emitting, track_pane, untrack_pane, since_in, closed_event,
}

abbrev pub pane_ids : List PaneInfo → List String
pane_ids [] = []
pane_ids (p ∷ ps) = p.pane_id ∷ pane_ids ps

-- The frame for a pane that is gone: none if its workspace is not known.
abbrev pub gone : HostConfig → String → Option PanePlacement → List BridgeEvent
gone config id none = []
gone config id (some p) = closed_event config id p.workspace_id ∷ []

-- The loop over the panes that were known before the request.
unfoldable pub close_missing : HostConfig → List String → List String → HostState → Emitting
unfolding untrack_pane
close_missing config [] live s = (s, [])
close_missing config (id ∷ known) live s =
    let kept = close_missing config known live s in
    let dropped = close_missing config known live (untrack_pane id s) in
    if includes id live
    then kept
    else (dropped.0, gone config id (pane_placement id s.names) ++ dropped.1)

-- The frame for a pane whose status differs from the one last seen.
abbrev pub changed : HostConfig → PaneInfo → Option Observed → Option ℕ → List BridgeEvent
changed config p none since = []
changed config p (some previous) since =
    if status_eq previous.status p.agent_status
    then []
    else pane_agent_status_changed p.pane_id config.name p.agent_status since ∷ []

-- The loop over the panes of the reply.
unfoldable pub report_changes : HostConfig → ℕ → List PaneInfo → HostState → Emitting
unfolding track_pane
report_changes config now [] s = (s, [])
report_changes config now (p ∷ ps) s =
    let tracked = track_pane p false now s in
    let rest = report_changes config now ps tracked in
    (
      rest.0,
      changed config p (lookup p.pane_id s.pane_agent_status)
            (since_in (lookup p.pane_id tracked.pane_agent_status))
          ++ rest.1,
    )

-- The set that is taken before the request. A poll of a host that is not connected, and one whose
-- request fails, does nothing more.
unfoldable pub poll_begin : HostState → List String
poll_begin s = keys s.pane_agent_status

-- What follows the reply; the state may have changed since `poll_begin`.
unfoldable pub poll_finish : HostConfig → ℕ → List String → List PaneInfo → HostState → Emitting
unfolding close_missing report_changes
poll_finish config now known panes s =
    let closed = close_missing config known (pane_ids panes) s in
    let reported = report_changes config now panes closed.0 in (reported.0, closed.1 ++ reported.1)
