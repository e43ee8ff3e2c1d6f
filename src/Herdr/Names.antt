-- ===== src/Herdr/Names.antt =====
-- apps/bridge/src/herdr/names.ts: the names of workspaces and tabs, and where each pane is placed.
pub mod Purge
use kanhrd.Base.{
  String, Bool, true, false, ◌&&◌, Option, none, some, List, [], ◌∷◌, ◌++◌, if◌then◌else◌, str_eq,
  Dict, lookup, insert, erase, or_else,
}

pub record PanePlacement : Type 0 where
  pub workspace_id : String
  pub tab_id : String

-- `W` stands for herdr's description of a git worktree, which is only passed on.
pub record WorkspaceEntry (W : Type 0) : Type 0 where
  pub label : String
  pub worktree : Option W

pub record NameCache (W : Type 0) : Type 0 where
  pub workspaces : Dict (WorkspaceEntry W)
  pub tabs : Dict String
  pub tab_workspace : Dict String
  pub pane_placements : Dict PanePlacement

-- An entry of `workspace.list`, and one of `tab.list`.
pub record WorkspaceInfo (W : Type 0) : Type 0 where
  pub workspace_id : String
  pub label : String
  pub worktree : Option W

pub record TabInfo : Type 0 where
  pub tab_id : String
  pub workspace_id : String
  pub label : String

abbrev pub tab_map : List TabInfo → Dict String → Dict String
tab_map [] m = m
tab_map (t ∷ ts) m = tab_map ts (insert t.tab_id t.label m)

abbrev pub parent_map : List TabInfo → Dict String → Dict String
parent_map [] m = m
parent_map (t ∷ ts) m = parent_map ts (insert t.tab_id t.workspace_id m)

abbrev pub set_parent : String → Option String → Dict String → Dict String
set_parent id none m = m
set_parent id (some workspace_id) m = insert id workspace_id m

module _ {W : Type 0} where
  abbrev pub empty_cache : NameCache W
  empty_cache = record { workspaces = []; tabs = []; tab_workspace = []; pane_placements = [] }

  -- `new Map(entries)`
  abbrev pub workspace_map :
      List (WorkspaceInfo W) → Dict (WorkspaceEntry W) → Dict (WorkspaceEntry W)
  workspace_map [] m = m
  workspace_map (w ∷ ws) m =
      workspace_map ws (insert w.workspace_id (record { label = w.label; worktree = w.worktree }) m)

  -- `refresh`, once both lists have come.
  unfoldable pub refresh : List (WorkspaceInfo W) → List TabInfo → NameCache W → NameCache W
  refresh ws ts c = record c {
    workspaces = workspace_map ws [];
    tabs = tab_map ts [];
    tab_workspace = parent_map ts [];
  }

  abbrev pub worktree_in : Option (WorkspaceEntry W) → Option W
  worktree_in none = none
  worktree_in (some e) = e.worktree

  abbrev pub or_stored : Option W → Option W → Option W
  or_stored none stored = stored
  or_stored (some w) stored = some w

  unfoldable pub set_workspace : String → String → Option W → NameCache W → NameCache W
  set_workspace id name worktree c = record c {
    workspaces =
        insert id
          (record {
            label = name;
            worktree = or_stored worktree (worktree_in (lookup id c.workspaces));
          })
          c.workspaces;
  }

  unfoldable pub set_tab : String → String → Option String → NameCache W → NameCache W
  set_tab id name workspace_id c = record c {
    tabs = insert id name c.tabs;
    tab_workspace = set_parent id workspace_id c.tab_workspace;
  }

  unfoldable pub set_pane_placement : String → String → String → NameCache W → NameCache W
  set_pane_placement id workspace_id tab_id c = record c {
    pane_placements =
        insert id (record { workspace_id = workspace_id; tab_id = tab_id }) c.pane_placements;
  }

  unfoldable pub remove_pane : String → NameCache W → NameCache W
  remove_pane id c = record c { pane_placements = erase id c.pane_placements }

  abbrev pub label_or : String → Option (WorkspaceEntry W) → String
  label_or id none = id
  label_or id (some e) = e.label

  unfoldable pub workspace_name : String → NameCache W → String
  workspace_name id c = label_or id (lookup id c.workspaces)

  unfoldable pub workspace_worktree : String → NameCache W → Option W
  workspace_worktree id c = worktree_in (lookup id c.workspaces)

  unfoldable pub tab_name : String → NameCache W → String
  tab_name id c = or_else (lookup id c.tabs) id

  unfoldable pub pane_placement : String → NameCache W → Option PanePlacement
  pane_placement id c = lookup id c.pane_placements

-- The keys of the entries whose value passes the test.
abbrev pub keys_where : {V : Type 0} → (V → Bool) → Dict V → List String
keys_where p [] = []
keys_where p ((k, v) ∷ m) = let rest = keys_where p m in if p v then k ∷ rest else rest

abbrev pub erase_all : {V : Type 0} → List String → Dict V → Dict V
erase_all [] m = m
erase_all (k ∷ ks) m = erase_all ks (erase k m)

abbrev pub in_tab : String → PanePlacement → Bool
in_tab tab_id p = str_eq p.tab_id tab_id

module _ {W : Type 0} where
  -- The cache after `purgeTab`, with the ids of the panes that were dropped.
  unfoldable pub purge_tab : String → NameCache W → NameCache W × List String
  purge_tab tab_id c = (
    record c {
      tabs = erase tab_id c.tabs;
      tab_workspace = erase tab_id c.tab_workspace;
      pane_placements = erase_all (keys_where (in_tab tab_id) c.pane_placements) c.pane_placements;
    },
    keys_where (in_tab tab_id) c.pane_placements,
  )

  unfoldable pub purge_tabs : List String → NameCache W → NameCache W × List String
  unfolding purge_tab
  purge_tabs [] c = (c, [])
  purge_tabs (t ∷ ts) c =
      let first = purge_tab t c in let rest = purge_tabs ts first.0 in (rest.0, first.1 ++ rest.1)

  abbrev pub tabs_of : String → NameCache W → List String
  tabs_of workspace_id c = keys_where (λ w. str_eq w workspace_id) c.tab_workspace

  -- The cache after `purgeWorkspace`, with the ids of the tabs and of the panes that were dropped.
  unfoldable pub purge_workspace : String → NameCache W → NameCache W × List String × List String
  unfolding purge_tabs
  purge_workspace workspace_id c =
      let purged =
        purge_tabs (tabs_of workspace_id c)
          (record c { workspaces = erase workspace_id c.workspaces }) in
      (purged.0, tabs_of workspace_id c, purged.1)
