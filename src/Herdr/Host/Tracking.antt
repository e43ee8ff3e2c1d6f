-- ===== src/Herdr/Host/Tracking.antt =====
-- apps/bridge/src/herdr/hosts.ts: every pane whose status is tracked has a placement.
use kanhrd.Base.{
  ℕ, String, ◌≡◌, refl, ap, ◌∙◌, false, Option, none, some, List, lookup, is_some, truthy, arith,
}
use kanhrd.Herdr.Names.{NameCache, WorkspaceInfo, TabInfo, set_workspace, set_tab}
use kanhrd.Herdr.Project.{PaneInfo, Worktree}
use kanhrd.Herdr.Host.{HostState, HostConfig, Emitting, connect_once}
use kanhrd.Herdr.Host.Push.{
  Pushed, handle_pushed_event, on_pane_closed, on_workspace_closed, on_workspace_renamed,
  on_tab_closed, on_tab_renamed, on_tab_moved, on_moved, move_of, on_some_of, pushed_pane_created,
  pushed_pane_updated, pushed_pane_closed, pushed_workspace_created, pushed_workspace_closed,
  pushed_workspace_renamed, pushed_tab_created, pushed_tab_closed, pushed_tab_renamed,
  pushed_tab_moved, pushed_pane_moved, pushed_other,
}
use kanhrd.Herdr.Host.Placed.{
  IsPlaced, track_pane-IsPlaced, untrack_pane-IsPlaced, close_workspace-IsPlaced,
  close_tab-IsPlaced, track_tab-IsPlaced, track_tabs-IsPlaced, track_workspace-IsPlaced,
  apply_pane_move_cache-IsPlaced, seed_panes-IsPlaced,
}

on_some_of-IsPlaced :
    {A : Type 0} (f : A → HostState → Emitting) (o : Option A) (s : HostState)
    → ((a : A) → IsPlaced (f a s).0)
    → IsPlaced s
    → IsPlaced (on_some_of f o s).0
on_some_of-IsPlaced f none s keeps h = h
on_some_of-IsPlaced f (some a) s keeps h = keeps a

names-IsPlaced :
    (s : HostState) (names : NameCache Worktree)
    → names.pane_placements ≡ s.names.pane_placements
    → IsPlaced s
    → IsPlaced (record s { names = names })
names-IsPlaced s names same h = record {
  placed = λ id t. ap (λ m. is_some (lookup id m)) same ∙ h.placed id t;
}

set_tab-placements :
    (id label : String) (w : Option String) (c : NameCache Worktree)
    → (set_tab id label w c).pane_placements ≡ c.pane_placements
unfolding set_tab
set_tab-placements id label w c = refl

set_workspace-placements :
    (id label : String) (w : Option Worktree) (c : NameCache Worktree)
    → (set_workspace id label w c).pane_placements ≡ c.pane_placements
unfolding set_workspace
set_workspace-placements id label w c = refl

-- Handling an event that herdr pushes keeps a placement for every tracked pane.
pub handle-IsPlaced :
    (config : HostConfig) (now : ℕ) (pushed : Pushed) (s : HostState)
    → IsPlaced s
    → IsPlaced (handle_pushed_event config now pushed s).0
unfolding handle_pushed_event
handle-IsPlaced config now (pushed_pane_created p) s h =
    on_some_of-IsPlaced _ p s (λ q. track_pane-IsPlaced q false now s h) h
handle-IsPlaced config now (pushed_pane_updated p) s h =
    on_some_of-IsPlaced _ p s (λ q. track_pane-IsPlaced q false now s h) h
handle-IsPlaced config now (pushed_pane_closed id w) s h = closed (truthy id) (truthy w)
  where
    closed : (i v : Option String) → IsPlaced (on_pane_closed config i v s).0
    closed (some i) (some v) = untrack_pane-IsPlaced i s h
    closed i none = h
    closed none (some v) = h
handle-IsPlaced config now (pushed_workspace_created w) s h =
    on_some_of-IsPlaced _ w s (λ x. track_workspace-IsPlaced x s h) h
handle-IsPlaced config now (pushed_workspace_closed id w) s h = closed (truthy id)
  where
    closed : (i : Option String) → IsPlaced (on_workspace_closed config i w s).0
    closed none = h
    closed (some i) = close_workspace-IsPlaced i s h
handle-IsPlaced config now (pushed_workspace_renamed id label) s h = renamed (truthy id) label
  where
    renamed : (i l : Option String) → IsPlaced (on_workspace_renamed config i l s).0
    renamed (some i) (some l) = names-IsPlaced s _ (set_workspace-placements i l none s.names) h
    renamed i none = h
    renamed none (some l) = h
handle-IsPlaced config now (pushed_tab_created t) s h =
    on_some_of-IsPlaced _ t s (λ x. track_tab-IsPlaced x s h) h
handle-IsPlaced config now (pushed_tab_closed id w) s h = closed (truthy id) (truthy w)
  where
    closed : (i v : Option String) → IsPlaced (on_tab_closed config i v s).0
    closed (some i) (some v) = close_tab-IsPlaced i s h
    closed i none = h
    closed none (some v) = h
handle-IsPlaced config now (pushed_tab_renamed id w label) s h =
    renamed (truthy id) (truthy w) label
  where
    renamed : (i v l : Option String) → IsPlaced (on_tab_renamed config i v l s).0
    renamed (some i) (some v) (some l) =
        names-IsPlaced s _ (set_tab-placements i l (some v) s.names) h
    renamed none v l = h
    renamed (some i) none l = h
    renamed (some i) (some v) none = h
handle-IsPlaced config now (pushed_tab_moved w ts) s h = moved (truthy w) ts
  where
    moved : (v : Option String) (o : Option (List TabInfo)) → IsPlaced (on_tab_moved config v o s).0
    moved (some v) (some l) = track_tabs-IsPlaced l s h
    moved none o = h
    moved (some v) none = h
handle-IsPlaced config now (pushed_pane_moved p w t cw ct dw dt) s h =
    on_some_of-IsPlaced (on_moved config now) (move_of p (truthy w) (truthy t) cw ct dw dt) s
      (λ m. apply_pane_move_cache-IsPlaced m now s h) h
handle-IsPlaced config now pushed_other s h = h

-- After the seeding of a connection every tracked pane has a placement, whatever was cached before.
pub connect_once-IsPlaced :
    (ws : List (WorkspaceInfo Worktree)) (ts : List TabInfo) (ps : List PaneInfo) (now : ℕ)
    (s : HostState)
    → IsPlaced (connect_once ws ts ps now s)
unfolding connect_once lookup
connect_once-IsPlaced ws ts ps now s =
    seed_panes-IsPlaced ps now _ (record { placed = λ id t. absurd (ground arith) })
