-- ===== src/Herdr/Host/Calls.antt =====
-- The calls of `HostRuntime` in apps/bridge/src/herdr/hosts.ts that change panes, tabs and workspaces:
-- what each sends to herdr, in which queue, and what it does with the reply.
pub mod Replies
pub mod Laws
use kanhrd.Base.{
  ℕ, String, Bool, true, false, Option, none, some, List, [], ◌∷◌, ◌++◌, if◌then◌else◌,
}
use kanhrd.Wire.{Pane, TabSummary, WorkspaceSummary}
use kanhrd.Herdr.Names.{WorkspaceInfo, TabInfo}
use kanhrd.Herdr.Project.{PaneInfo, Worktree, project_workspace, project_tab}
use kanhrd.Herdr.Queue.{write_key}
use kanhrd.Herdr.Host.{
  HostState, HostConfig, track_pane, project, untrack_pane, track_tab, track_tabs, track_workspace,
  close_workspace, close_tab, MoveResult, apply_pane_move_cache,
}
use kanhrd.Herdr.Host.Push.{tab_summaries, summary_of}

-- A value of a request; a ratio, an environment and a destination are opaque.
pub data Value : Type 0 where
  text : String → Value
  flag : Bool → Value
  number : ℕ → Value
  texts : List String → Value
  null : Value
  opaque : String → Value

pub record SplitParams : Type 0 where
  pub direction : String
  pub workspace_id : Option String
  pub target_pane_id : Option String
  pub ratio : Option String
  pub cwd : Option String
  pub focus : Option Bool
  pub env : Option String

-- The parameters of `tab.create` and `workspace.create`; the parent is a workspace.
pub record CreateParams : Type 0 where
  pub parent_id : Option String
  pub cwd : Option String
  pub focus : Option Bool
  pub label : Option String
  pub env : Option String

-- A label of `pane.rename` may be absent, null or a text.
pub data Label : Type 0 where
  absent : Label
  cleared : Label
  named : String → Label

pub data LifecycleCall : Type 0 where
  pane_send_keys : String → List String → LifecycleCall
  pane_send_text : String → String → LifecycleCall
  pane_split : SplitParams → LifecycleCall
  pane_close : String → LifecycleCall
  pane_rename : String → Label → LifecycleCall
  pane_move : String → String → Option Bool → LifecycleCall
  tab_create : CreateParams → LifecycleCall
  tab_rename : String → String → LifecycleCall
  tab_close : String → LifecycleCall
  tab_move : String → ℕ → LifecycleCall
  workspace_create : CreateParams → LifecycleCall
  workspace_rename : String → String → LifecycleCall
  workspace_close : String → Option Bool → LifecycleCall

abbrev pub Fields : Type 0
Fields = List (String × Value)

abbrev pub text_field : String → Option String → Fields → Fields
text_field key none rest = rest
text_field key (some t) rest = (key, text t) ∷ rest

abbrev pub flag_field : String → Option Bool → Fields → Fields
flag_field key none rest = rest
flag_field key (some b) rest = (key, flag b) ∷ rest

abbrev pub opaque_field : String → Option String → Fields → Fields
opaque_field key none rest = rest
opaque_field key (some t) rest = (key, opaque t) ∷ rest

abbrev pub label_field : Label → Fields
label_field absent = []
label_field cleared = ("label", null) ∷ []
label_field (named t) = ("label", text t) ∷ []

abbrev pub create_fields : CreateParams → Fields
create_fields p =
    text_field "cwd" p.cwd
      (flag_field "focus" p.focus (text_field "label" p.label (opaque_field "env" p.env [])))

-- The method and the parameters that herdr is sent.
unfoldable pub request_of : LifecycleCall → String × Fields
request_of (pane_send_keys id keys) =
    ("pane.send_keys", ("pane_id", text id) ∷ ("keys", texts keys) ∷ [])
request_of (pane_send_text id t) = ("pane.send_text", ("pane_id", text id) ∷ ("text", text t) ∷ [])
request_of (pane_split p) = (
  "pane.split",
  ("direction", text p.direction)
      ∷ text_field "workspace_id" p.workspace_id (
          text_field "target_pane_id" p.target_pane_id (
            opaque_field "ratio" p.ratio
              (text_field "cwd" p.cwd (flag_field "focus" p.focus (opaque_field "env" p.env []))))),
)
request_of (pane_close id) = ("pane.close", ("pane_id", text id) ∷ [])
request_of (pane_rename id label) = ("pane.rename", ("pane_id", text id) ∷ label_field label)
request_of (pane_move id destination focus) = (
  "pane.move",
  ("pane_id", text id) ∷ ("destination", opaque destination) ∷ flag_field "focus" focus [],
)
request_of (tab_create p) = ("tab.create", text_field "workspace_id" p.parent_id (create_fields p))
request_of (tab_rename id label) = ("tab.rename", ("tab_id", text id) ∷ ("label", text label) ∷ [])
request_of (tab_close id) = ("tab.close", ("tab_id", text id) ∷ [])
request_of (tab_move id index) =
    ("tab.move", ("tab_id", text id) ∷ ("insert_index", number index) ∷ [])
request_of (workspace_create p) =
    ("workspace.create", text_field "source_workspace_id" p.parent_id (create_fields p))
request_of (workspace_rename id label) =
    ("workspace.rename", ("workspace_id", text id) ∷ ("label", text label) ∷ [])
request_of (workspace_close id close_group) =
    ("workspace.close", ("workspace_id", text id) ∷ flag_field "close_group" close_group [])

-- The queue of a call: that of a pane in `writeQueue`, or that of the host in `mutationQueue`.
pub data Lane : Type 0 where
  of_pane : String → Lane
  of_host : String → Lane

unfoldable pub lane_of : String → LifecycleCall → Lane
lane_of host (pane_send_keys id keys) = of_pane (write_key host id)
lane_of host (pane_send_text id t) = of_pane (write_key host id)
lane_of host (pane_rename id label) = of_pane (write_key host id)
lane_of host (pane_split p) = of_host host
lane_of host (pane_close id) = of_host host
lane_of host (pane_move id destination focus) = of_host host
lane_of host (tab_create p) = of_host host
lane_of host (tab_rename id label) = of_host host
lane_of host (tab_close id) = of_host host
lane_of host (tab_move id index) = of_host host
lane_of host (workspace_create p) = of_host host
lane_of host (workspace_rename id label) = of_host host
lane_of host (workspace_close id close_group) = of_host host

-- What a call enqueues; none is the `HostUnavailableError`.
unfoldable pub call : HostConfig → Bool → LifecycleCall → Option (Lane × (String × Fields))
unfolding lane_of request_of
call config connected c = if connected then some (lane_of config.name c, request_of c) else none

-- What herdr replies to a request that it does not refuse: an object, of which a call reads some fields.
pub record Reply : Type 0 where
  pub pane : Option PaneInfo
  pub move_result : Option (MoveResult × Option String)
  pub tab : Option TabInfo
  pub root_pane : Option PaneInfo
  pub tabs : Option (List TabInfo)
  pub workspace : Option (WorkspaceInfo Worktree)

pub record MovedResult : Type 0 where
  pub changed : Bool
  pub pane : Pane
  pub previous_workspace_id : String
  pub previous_tab_id : String
  pub reason : Option String
  pub created_workspace : Option WorkspaceSummary
  pub created_tab : Option TabSummary
  pub closed_workspace_id : Option String
  pub closed_tab_id : Option String

-- What the call's promise is resolved with, or that it is rejected.
pub data Outcome : Type 0 where
  done : Outcome
  pane_result : Pane → Outcome
  moved_result : MovedResult → Outcome
  tab_result : TabSummary → Outcome
  tab_pane_result : TabSummary → Pane → Outcome
  tabs_result : List TabSummary → Outcome
  workspace_result : WorkspaceSummary → Outcome
  workspace_tab_pane_result : WorkspaceSummary → TabSummary → Pane → Outcome
  rejected : Outcome

abbrev pub moved_of : HostConfig → MoveResult → Option String → HostState → MovedResult
moved_of config m reason s = record {
  changed = m.changed;
  pane = project config s m.pane;
  previous_workspace_id = m.previous_workspace_id;
  previous_tab_id = m.previous_tab_id;
  reason = reason;
  created_workspace = summary_of (project_workspace config.name) m.created_workspace;
  created_tab = summary_of (project_tab config.name) m.created_tab;
  closed_workspace_id = m.closed_workspace_id;
  closed_tab_id = m.closed_tab_id;
}
