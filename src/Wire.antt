-- ===== src/Wire.antt =====
-- packages/schema/src: the types of the wire that the bridge and the browser share. Optional fields
-- are `Option`, ids and names are texts, times are epoch milliseconds.
use kanhrd.Base.{ℕ, String, Bool, Option, List}

pub data AgentStatus : Type 0 where
  idle working blocked done unknown : AgentStatus

-- The string that stands for a status on the wire.
abbrev pub status_text : AgentStatus → String
status_text AgentStatus.idle = "idle"
status_text AgentStatus.working = "working"
status_text AgentStatus.blocked = "blocked"
status_text AgentStatus.done = "done"
status_text AgentStatus.unknown = "unknown"

abbrev pub status_eq : AgentStatus → AgentStatus → Bool
status_eq AgentStatus.idle AgentStatus.idle = Bool.true
status_eq AgentStatus.working AgentStatus.working = Bool.true
status_eq AgentStatus.blocked AgentStatus.blocked = Bool.true
status_eq AgentStatus.done AgentStatus.done = Bool.true
status_eq AgentStatus.unknown AgentStatus.unknown = Bool.true
status_eq _ _ = Bool.false

-- `{ id, name }`
pub record Ref : Type 0 where
  pub id : String
  pub name : String

pub record Project : Type 0 where
  pub repo_name : String
  pub checkout_path : String
  pub is_linked_worktree : Bool
  pub files_local : Bool

pub record Pane : Type 0 where
  pub id : String
  pub host : String
  pub workspace : Ref
  pub tab : Ref
  pub label : Option String
  pub title : Option String
  pub agent : Option String
  pub project : Option Project
  pub agent_status : AgentStatus
  pub status_since : Option ℕ

pub record WorkspaceSummary : Type 0 where
  pub id : String
  pub host : String
  pub name : String

pub record TabSummary : Type 0 where
  pub id : String
  pub host : String
  pub workspace_id : String
  pub name : String

pub record PaneMoved : Type 0 where
  pub pane : Pane
  pub previous_workspace_id : String
  pub previous_tab_id : String
  pub created_workspace : Option WorkspaceSummary
  pub created_tab : Option TabSummary
  pub closed_workspace_id : Option String
  pub closed_tab_id : Option String

-- A lifecycle event with its payload; `pane_closed id host workspace_id` and so on.
pub data BridgeEvent : Type 0 where
  pane_created : Pane → BridgeEvent
  pane_closed : String → String → String → BridgeEvent
  pane_agent_status_changed : String → String → AgentStatus → Option ℕ → BridgeEvent
  pane_updated : Pane → BridgeEvent
  workspace_created : WorkspaceSummary → BridgeEvent
  workspace_closed : String → String → Option WorkspaceSummary → BridgeEvent
  workspace_renamed : String → String → String → BridgeEvent
  tab_created : TabSummary → BridgeEvent
  tab_closed : String → String → String → BridgeEvent
  tab_renamed : String → String → String → String → BridgeEvent
  tab_moved : String → String → List TabSummary → BridgeEvent
  pane_moved : PaneMoved → BridgeEvent

-- A frame that the bridge pushes: the host it concerns, and the event.
pub record WsEvent : Type 0 where
  pub host : String
  pub event : BridgeEvent
