-- ===== src/Tests/Board.antt =====
-- A board with one pane in one workspace, which is closed.
use kanhrd.Base.{◌≡◌, refl, none, some, List, [], ◌∷◌, lookup, if◌then◌else◌, get_elem?, length}
use kanhrd.Wire.{AgentStatus, Pane, workspace_closed, workspace_renamed}
use kanhrd.State.Panes.Reducers.{pane_key, LifecycleState, apply_lifecycle_event}
use kanhrd.State.Panes.Keyed.{IsKeyed, apply_lifecycle_event-IsKeyed}
use kanhrd.State.Panes.Cascade.{HasMaps}
use kanhrd.State.Panes.Replay.{SameView, apply_lifecycle_event-replay}
use kanhrd.State.Parked.{
  ParkedState, default_parked, agent_activity, never, left, right, index_of, sort_columns,
  insert_by_order, move_column, create_column, clamp_move, ids_of,
}
use kanhrd.State.Parked.Fresh.{Creates, create_column-Creates}
use kanhrd.State.Parked.Order.{move_column-lands}
use kanhrd.State.Parked.Membership.{run-IsConsistent}
use kanhrd.State.Parked.Counts.{IsConsistent, Action, create, park_at, move, remove, run}
use kanhrd.State.Frame.{BoardState, apply_exit_rule, apply_frame}
use kanhrd.State.Frame.Release.{is_dropped, apply_frame-releases}
use kanhrd.State.Toast.{no_toasts, PushOptions, ToastLevel}
use kanhrd.State.Toast.Queue.{Event, pushed, dismissed_top, timed_out, steps, steps-IsQueue}
use kanhrd.State.Toast.Counts.{IsQueue}

abbrev pane : Pane
pane = record {
  id = "1";
  host = "local";
  workspace = record { id = "w1"; name = "main" };
  tab = record { id = "t1"; name = "shell" };
  label = none;
  title = none;
  agent = none;
  project = none;
  agent_status = AgentStatus.idle;
  status_since = none;
}

abbrev pub board : LifecycleState
board = record {
  panes = (pane_key "local" "1", pane) ∷ [];
  workspaces = (pane_key "local" "w1", record { id = "w1"; host = "local"; name = "main" }) ∷ [];
  tabs =
      (
        pane_key "local" "t1",
        record { id = "t1"; host = "local"; workspace_id = "w1"; name = "shell" },
      )
      ∷ [];
}

board-IsKeyed : IsKeyed board
board-IsKeyed = record { panes = (refl, tt); workspaces = (refl, tt); tabs = (refl, tt) }

board-HasMaps : HasMaps board
unfolding lookup
board-HasMaps = record { panes = (refl, tt); workspaces = (refl, tt); tabs = (refl, tt) }

apply_lifecycle_event-IsKeyed_example :
    IsKeyed (apply_lifecycle_event board (workspace_renamed "w1" "local" "other"))
apply_lifecycle_event-IsKeyed_example =
    apply_lifecycle_event-IsKeyed board (workspace_renamed "w1" "local" "other") board-IsKeyed

apply_lifecycle_event-replay_example :
    SameView
      (apply_lifecycle_event
        (apply_lifecycle_event board (workspace_closed "w1" "local" none))
        (workspace_closed "w1" "local" none))
      (apply_lifecycle_event board (workspace_closed "w1" "local" none))
apply_lifecycle_event-replay_example =
    apply_lifecycle_event-replay board (workspace_closed "w1" "local" none) board-HasMaps

abbrev parking : List Action
parking =
    create "later" agent_activity
    ∷ create "never" never
    ∷ park_at "local:1" "p2"
    ∷ move "p2" (left 1)
    ∷ remove "p1"
    ∷ []

run-IsConsistent_example : IsConsistent (run parking default_parked)
run-IsConsistent_example = run-IsConsistent parking

abbrev two_columns : ParkedState
two_columns = record {
  columns =
      record { id = "p1"; name = "later"; exit_rule = never; order = 0 }
      ∷ record { id = "p2"; name = "soon"; exit_rule = agent_activity; order = 1 }
      ∷ [];
  membership = ("local:1", "p1") ∷ [];
}

first_column : index_of "p1" (sort_columns two_columns.columns) ≡ some 0
unfolding sort_columns insert_by_order
first_column = refl

move_column-lands_example :
    get_elem?
      (ids_of (sort_columns (move_column "p1" (right 5) two_columns).columns))
      (clamp_move 0 (right 5) (length (sort_columns two_columns.columns)))
    ≡ some "p1"
move_column-lands_example = move_column-lands "p1" (right 5) two_columns 0 first_column

abbrev whole : BoardState
whole = record { maps = board; parked = two_columns }

apply_frame-releases_example :
    lookup "local:1" (apply_frame (workspace_closed "w1" "local" none) whole).parked.membership ≡ (
      if is_dropped "local:1" whole.maps.panes
        (apply_frame (workspace_closed "w1" "local" none) whole).maps.panes
      then none
      else lookup "local:1"
          (apply_exit_rule whole.maps.panes
            (workspace_closed "w1" "local" none)
            whole.parked).membership)
apply_frame-releases_example =
    apply_frame-releases (workspace_closed "w1" "local" none) whole "local:1"

abbrev notice : PushOptions
notice = record {
  level = ToastLevel.warn;
  message = "connection lost";
  persistent = none;
  key = none;
}

abbrev events : List Event
events = pushed notice ∷ pushed notice ∷ dismissed_top ∷ pushed notice ∷ timed_out 1 ∷ []

steps-IsQueue_example : IsQueue (steps events no_toasts)
steps-IsQueue_example = steps-IsQueue events

create_column-Creates_example :
    Creates "third" never two_columns (create_column "third" never two_columns)
create_column-Creates_example = create_column-Creates "third" never two_columns
