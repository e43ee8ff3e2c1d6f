-- ===== src/Herdr/Project.antt =====
-- apps/bridge/src/herdr/project.ts: herdr's panes, tabs and workspaces as the browser sees them. What
-- `resolveRepo` and `filesLocalHint` find on the file system is a parameter.
use kanhrd.Base.{ℕ, String, Bool, Option, none, some, truthy}
use kanhrd.Wire.{AgentStatus, Project, Pane, WorkspaceSummary, TabSummary}
use kanhrd.Herdr.Names.{
  NameCache, WorkspaceInfo, TabInfo, workspace_name, tab_name, workspace_worktree,
}

-- `HerdrPaneInfo`
pub record PaneInfo : Type 0 where
  pub pane_id : String
  pub workspace_id : String
  pub tab_id : String
  pub label : Option String
  pub agent : Option String
  pub title : Option String
  pub display_agent : Option String
  pub agent_status : AgentStatus
  pub cwd : Option String

-- `HerdrWorkspaceWorktreeInfo`, without the two fields that nothing reads.
pub record Worktree : Type 0 where
  pub repo_name : String
  pub checkout_path : String
  pub is_linked_worktree : Bool

-- The file system: the repository of a directory, and whether a host's `cwd` lies in a checkout here.
pub record Checkouts : Type 0 where
  pub resolve_repo : String → Option Worktree
  pub files_local_hint : Bool → Option String → String → Bool

abbrev pub first_of : Option String → Option String → Option String
first_of none b = b
first_of (some a) b = some a

abbrev pub repo_of_cwd : Checkouts → Option String → Option Worktree
repo_of_cwd fs none = none
repo_of_cwd fs (some cwd) = fs.resolve_repo cwd

abbrev pub first_worktree : Option Worktree → Option Worktree → Option Worktree
first_worktree none b = b
first_worktree (some a) b = some a

abbrev pub project_of : Checkouts → Bool → Option String → Option Worktree → Option Project
project_of fs enabled cwd none = none
project_of fs enabled cwd (some w) = some (record {
  repo_name = w.repo_name;
  checkout_path = w.checkout_path;
  is_linked_worktree = w.is_linked_worktree;
  files_local = fs.files_local_hint enabled cwd w.checkout_path;
})

unfoldable pub project_pane :
    Checkouts → String → PaneInfo → NameCache Worktree → Option ℕ → Bool → Pane
project_pane fs host p names since files_enabled = record {
  id = p.pane_id;
  host = host;
  workspace = record { id = p.workspace_id; name = workspace_name p.workspace_id names };
  tab = record { id = p.tab_id; name = tab_name p.tab_id names };
  label = truthy p.label;
  title = p.title;
  agent = first_of p.display_agent p.agent;
  project =
      project_of fs files_enabled p.cwd
        (first_worktree (repo_of_cwd fs p.cwd) (workspace_worktree p.workspace_id names));
  agent_status = p.agent_status;
  status_since = since;
}

unfoldable pub project_workspace : String → WorkspaceInfo Worktree → WorkspaceSummary
project_workspace host w = record { id = w.workspace_id; host = host; name = w.label }

unfoldable pub project_tab : String → TabInfo → TabSummary
project_tab host t = record {
  id = t.tab_id;
  host = host;
  workspace_id = t.workspace_id;
  name = t.label;
}
