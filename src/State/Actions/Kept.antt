-- ===== src/State/Actions/Kept.antt =====
-- Every action of apps/web/src/app/state/panes.store.ts has the effect of some frames, so that what each
-- frame keeps each action keeps.
use kanhrd.Base.{
  ◌≡◌, refl, String, none, some, List, [], ◌∷◌, if◌then◌else◌, leb, length, Bool-cases, inl, inr,
  Option, sym, subst, lookup,
}
use kanhrd.Wire.{
  Pane, BridgeEvent, pane_agent_status_changed, pane_created, pane_closed, pane_updated,
  workspace_created, workspace_closed, workspace_renamed, tab_created, tab_closed, tab_renamed,
  pane_moved,
}
use kanhrd.State.Panes.Reducers.{pane_key, PaneMap, apply_event, apply_lifecycle_event}
use kanhrd.State.Panes.Keyed.{IsKeyed, apply_lifecycle_event-IsKeyed}
use kanhrd.State.Parked.{ParkedState, apply_agent_status_changed}
use kanhrd.State.Parked.Counts.{IsConsistent}
use kanhrd.State.Parked.Membership.{release_panes-IsConsistent, exit_from-IsConsistent}
use kanhrd.State.Frame.{
  BoardState, release_dropped_panes, apply_exit_rule, exit_if_known, apply_frame,
}
use kanhrd.State.Frame.Release.{is_dropped}
use kanhrd.State.Actions.Released.{
  Released, act-Released, release_dropped-same, release_dropped-created, release_dropped-updated,
}
use kanhrd.State.Actions.{
  Action, split_pane, move_pane, close_pane, rename_pane, create_tab, rename_tab_as, close_tab,
  create_workspace, rename_workspace_as, close_workspace, purge_panes, act,
}

unfoldable apply_frames : List BridgeEvent → BoardState → BoardState
unfolding apply_frame
apply_frames [] s = s
apply_frames (e ∷ es) s = apply_frames es (apply_frame e s)

-- Frames with the effect of an action. They need not be those that the bridge sends; the text is the
-- workspace of a pane or of a tab, which the board does not read.
abbrev events_of : String → Action → List BridgeEvent
events_of w (split_pane none) = []
events_of w (split_pane (some pane)) = pane_created pane ∷ []
events_of w (move_pane none) = []
events_of w (move_pane (some (changed, moved))) = if changed then pane_moved moved ∷ [] else []
events_of w (close_pane host id) = pane_closed id host w ∷ []
events_of w (rename_pane none) = []
events_of w (rename_pane (some pane)) = pane_updated pane ∷ []
events_of w (create_tab none) = []
events_of w (create_tab (some (tab, pane))) = tab_created tab ∷ pane_created pane ∷ []
events_of w (rename_tab_as host id label answered) =
    if answered then tab_renamed id host w label ∷ [] else []
events_of w (close_tab host id) = tab_closed id host w ∷ []
events_of w (create_workspace none) = []
events_of w (create_workspace (some (workspace, tab, pane))) =
    workspace_created workspace ∷ tab_created tab ∷ pane_created pane ∷ []
events_of w (rename_workspace_as host id label answered) =
    if answered then workspace_renamed id host label ∷ [] else []
events_of w (close_workspace host id) = workspace_closed id host none ∷ []

act-apply_frames :
    (w : String) (a : Action) (s : BoardState) → act a s ≡ apply_frames (events_of w a) s
unfolding act apply_frames apply_frame apply_lifecycle_event apply_event apply_exit_rule purge_panes
act-apply_frames w (split_pane none) s = refl
act-apply_frames w (split_pane (some pane)) s = rw (release_dropped-created pane) refl
act-apply_frames w (move_pane none) s = refl
act-apply_frames w (move_pane (some (changed, moved))) s = elim (Bool-cases changed) [
  | inl e ↦ rw e refl
  | inr e ↦ rw e refl
]
act-apply_frames w (close_pane host id) s = refl
act-apply_frames w (rename_pane none) s = refl
act-apply_frames w (rename_pane (some pane)) s = rw (release_dropped-created pane) refl
act-apply_frames w (create_tab none) s = refl
act-apply_frames w (create_tab (some (tab, pane))) s =
    rw (release_dropped-same, release_dropped-created pane) refl
act-apply_frames w (rename_tab_as host id label answered) s = elim (Bool-cases answered) [
  | inl e ↦ rw (e, release_dropped-updated) refl
  | inr e ↦ rw e refl
]
act-apply_frames w (close_tab host id) s = refl
act-apply_frames w (create_workspace none) s = refl
act-apply_frames w (create_workspace (some (workspace, tab, pane))) s =
    rw (release_dropped-same, release_dropped-same, release_dropped-created pane) refl
act-apply_frames w (rename_workspace_as host id label answered) s = elim (Bool-cases answered) [
  | inl e ↦ rw (e, release_dropped-updated) refl
  | inr e ↦ rw e refl
]
act-apply_frames w (close_workspace host id) s = refl

release_dropped-IsConsistent :
    (current next : PaneMap) (parked : ParkedState)
    → IsConsistent parked
    → IsConsistent (release_dropped_panes current next parked)
unfolding release_dropped_panes
release_dropped-IsConsistent current next parked h =
    elim (Bool-cases (leb (length current) (length next))) [
      | inl e ↦ rw e h
      | inr e ↦ rw e (release_panes-IsConsistent _ parked h)
    ]

apply_exit_rule-IsConsistent :
    (panes : PaneMap) (e : BridgeEvent) (parked : ParkedState)
    → IsConsistent parked
    → IsConsistent (apply_exit_rule panes e parked)
unfolding apply_exit_rule apply_agent_status_changed
apply_exit_rule-IsConsistent panes (pane_agent_status_changed id host status since) parked h =
    known (lookup (pane_key host id) panes)
  where
    known : (o : Option Pane) → IsConsistent (exit_if_known o (pane_key host id) status parked)
    known none = h
    known (some p) = exit_from-IsConsistent _ (pane_key host id) p.agent_status status parked h
apply_exit_rule-IsConsistent panes _ parked h = h

-- What holds of the board: its maps are keyed, and its membership names columns that exist.
pub record IsBoard (s : BoardState) : Type 0 where
  pub keyed : IsKeyed s.maps
  pub consistent : IsConsistent s.parked

apply_frames-IsBoard :
    (es : List BridgeEvent) (s : BoardState) → IsBoard s → IsBoard (apply_frames es s)
unfolding apply_frames apply_frame
apply_frames-IsBoard [] s h = h
apply_frames-IsBoard (e ∷ es) s h = apply_frames-IsBoard es (apply_frame e s) (record {
  keyed = apply_lifecycle_event-IsKeyed s.maps e h.keyed;
  consistent =
      release_dropped-IsConsistent s.maps.panes _ _
        (apply_exit_rule-IsConsistent s.maps.panes e s.parked h.consistent);
})

-- Every action of the board, however it is answered, keeps each of the three maps keyed by `paneKey`
-- of what it holds, the ids of the parked columns distinct, and every membership entry on a column
-- that exists; and after it the membership entry of a pane that the action took off the board is gone,
-- and every other one is as it was.
pub act-IsBoard :
    (a : Action) (s : BoardState) (k : String)
    → IsBoard s
    → IsBoard (act a s)
      × (lookup k (act a s).parked.membership ≡ (
          if is_dropped k s.maps.panes (act a s).maps.panes
          then none
          else lookup k s.parked.membership))
unfolding Released
act-IsBoard a s k h = (
  subst IsBoard (sym (act-apply_frames "" a s)) (apply_frames-IsBoard (events_of "" a) s h),
  act-Released a s k,
)
