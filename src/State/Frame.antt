-- ===== src/State/Frame.antt =====
-- `applyFrame` and `releaseDroppedPanes` of apps/web/src/app/state/panes.store.ts: one event frame,
-- applied to the maps of the board and to the parked columns.
pub mod Release
use kanhrd.Base.{
  ℕ, String, Bool, true, false, not, Option, none, some, List, [], ◌∷◌, if◌then◌else◌, leb, Dict,
  lookup, keys, is_some, keep_if, length,
}
use kanhrd.Wire.{
  AgentStatus, Pane, BridgeEvent, pane_created, pane_closed, pane_agent_status_changed,
  pane_updated, workspace_created, workspace_closed, workspace_renamed, tab_created, tab_closed,
  tab_renamed, tab_moved, pane_moved,
}
use kanhrd.State.Panes.Reducers.{pane_key, PaneMap, LifecycleState, apply_lifecycle_event}
use kanhrd.State.Parked.{ParkedState, release_panes, apply_agent_status_changed}

pub record BoardState : Type 0 where
  pub maps : LifecycleState
  pub parked : ParkedState

-- The keys of `current` that `next` does not have.
abbrev pub dropped_keys : PaneMap → PaneMap → List String
dropped_keys current next = keep_if (λ k. not (is_some (lookup k next))) (keys current)

unfoldable pub release_dropped_panes : PaneMap → PaneMap → ParkedState → ParkedState
unfolding release_panes
release_dropped_panes current next parked =
    if leb (length current) (length next)
    then parked
    else release_panes (dropped_keys current next) parked

abbrev pub exit_if_known : Option Pane → String → AgentStatus → ParkedState → ParkedState
exit_if_known none key next parked = parked
exit_if_known (some p) key next parked = apply_agent_status_changed key p.agent_status next parked

-- The exit rule of the column that the pane is in, before the event is applied.
unfoldable pub apply_exit_rule : PaneMap → BridgeEvent → ParkedState → ParkedState
unfolding apply_agent_status_changed
apply_exit_rule panes (pane_agent_status_changed id host status since) parked =
    exit_if_known (lookup (pane_key host id) panes) (pane_key host id) status parked
apply_exit_rule panes _ parked = parked

unfoldable pub apply_frame : BridgeEvent → BoardState → BoardState
unfolding release_dropped_panes apply_exit_rule apply_lifecycle_event
apply_frame event s = record {
  maps = apply_lifecycle_event s.maps event;
  parked =
      release_dropped_panes s.maps.panes (apply_lifecycle_event s.maps event).panes
        (apply_exit_rule s.maps.panes event s.parked);
}
