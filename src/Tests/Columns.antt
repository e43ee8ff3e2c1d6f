-- ===== src/Tests/Columns.antt =====
-- Two panes, one of them parked, on a board that hides the idle column.
use kanhrd.Base.{
  String, ◌≡◌, none, some, List, [], ◌∷◌, Dict, lookup, keep_if, includes, if◌then◌else◌,
}
use kanhrd.Wire.{AgentStatus, Pane}
use kanhrd.State.Panes.Columns.{Filters, column, group_into_columns}
use kanhrd.State.Panes.Partition.{group_into_columns-status, group_into_columns-parked}
use kanhrd.State.Panes.Placing.{shows_in_status, shows_in_parked}

abbrev pane_with : String → AgentStatus → Pane
pane_with id status = record {
  id = id;
  host = "local";
  workspace = record { id = "w1"; name = "main" };
  tab = record { id = "t1"; name = "shell" };
  label = none;
  title = none;
  agent = none;
  project = none;
  agent_status = status;
  status_since = none;
}

abbrev pub panes : List Pane
panes =
    pane_with "1" AgentStatus.working
    ∷ pane_with "2" AgentStatus.idle
    ∷ pane_with "3" AgentStatus.working
    ∷ []

abbrev pub filters : Filters
filters = record { excluded_hosts = []; hidden_columns = "idle" ∷ [] }

abbrev pub membership : Dict String
membership = ("local:3", "p1") ∷ []

group_into_columns-status_example :
    column AgentStatus.working (group_into_columns panes filters membership ("p1" ∷ [])).status
    ≡ keep_if (shows_in_status filters membership ("p1" ∷ []) AgentStatus.working) panes
group_into_columns-status_example =
    group_into_columns-status panes filters membership ("p1" ∷ []) AgentStatus.working

group_into_columns-parked_example :
    lookup "p1" (group_into_columns panes filters membership ("p1" ∷ [])).parked ≡ (
      if includes "p1" ("p1" ∷ [])
      then some (keep_if (shows_in_parked filters membership ("p1" ∷ []) "p1") panes)
      else none)
group_into_columns-parked_example =
    group_into_columns-parked panes filters membership ("p1" ∷ []) "p1"
