-- ===== src/Herdr/Host/Placed.antt =====
-- apps/bridge/src/herdr/hosts.ts: the tracking steps, and the placement of every tracked pane.
use kanhrd.Base.{
  ℕ, String, ◌≡◌, refl, ap, subst, Bool, true, false, ◌||◌, Option, none, some, List, [], ◌∷◌,
  str_eq, Dict, lookup, is_some, arith, eq_iff, Bool-cases, inl, inr, lookup-insert, lookup-erase,
}
use kanhrd.Wire.{status_eq}
use kanhrd.Herdr.Names.{
  WorkspaceInfo, TabInfo, set_workspace, set_tab, set_pane_placement, remove_pane, purge_tab,
  purge_workspace, keys_where, in_tab,
}
use kanhrd.Herdr.Names.Purge.{lookup-erase_all, purge_workspace-panes}
use kanhrd.Herdr.Project.{PaneInfo, Worktree}
use kanhrd.Herdr.Host.{
  Observed, HostState, observe, stamp, track_pane, untrack_pane, track_tab, track_tabs,
  track_workspace, close_workspace, close_tab, MoveResult, if_some, apply_pane_move_cache,
  seed_panes,
}

abbrev pub is_tracked : String → HostState → Bool
is_tracked id s = is_some (lookup id s.pane_agent_status)

abbrev pub is_placed : String → HostState → Bool
is_placed id s = is_some (lookup id s.names.pane_placements)

-- Every tracked pane has a placement.
pub record IsPlaced (s : HostState) : Type 0 where
  pub placed : (id : String) → is_tracked id s ≡ true → is_placed id s ≡ true

known_stays :
    (id k : String) (m : Dict Observed) (o : Observed)
    → lookup k m ≡ some o
    → is_some (lookup id m) ≡ (str_eq k id || is_some (lookup id m))
known_stays id k m o h = elim (Bool-cases (str_eq k id)) [
  | inl e ↦ rw e (subst (λ j. is_some (lookup j m) ≡ true) ((eq_iff k id).0 e) (ap is_some h))
  | inr e ↦ rw e refl
]

pub observe-tracked :
    (id : String) (p : PaneInfo) (seeding : Bool) (now : ℕ) (m : Dict Observed)
    (o : Option Observed)
    → lookup p.pane_id m ≡ o
    → is_some (lookup id (observe o p seeding now m))
      ≡ (str_eq p.pane_id id || is_some (lookup id m))
observe-tracked id p seeding now m none h = ground (
  arith,
  lookup-insert p.pane_id id (record { status = p.agent_status; since = stamp seeding now }) m,
)
observe-tracked id p seeding now m (some previous) h =
    elim (Bool-cases (status_eq previous.status p.agent_status)) [
      | inl e ↦ rw e (known_stays id p.pane_id m previous h)
      | inr e ↦ rw e (
          ground (
            arith,
            lookup-insert p.pane_id id (record { status = p.agent_status; since = some now }) m,
          ))
    ]

pub track_pane-tracked :
    (id : String) (p : PaneInfo) (seeding : Bool) (now : ℕ) (s : HostState)
    → is_tracked id (track_pane p seeding now s) ≡ (str_eq p.pane_id id || is_tracked id s)
unfolding track_pane
track_pane-tracked id p seeding now s =
    observe-tracked id p seeding now s.pane_agent_status (lookup p.pane_id s.pane_agent_status) refl

pub track_pane-placed :
    (id : String) (p : PaneInfo) (seeding : Bool) (now : ℕ) (s : HostState)
    → is_placed id (track_pane p seeding now s) ≡ (str_eq p.pane_id id || is_placed id s)
unfolding track_pane set_pane_placement
track_pane-placed id p seeding now s = ground (
  arith,
  lookup-insert p.pane_id id (record { workspace_id = p.workspace_id; tab_id = p.tab_id })
      s.names.pane_placements,
)

pub track_pane-IsPlaced :
    (p : PaneInfo) (seeding : Bool) (now : ℕ) (s : HostState)
    → IsPlaced s
    → IsPlaced (track_pane p seeding now s)
track_pane-IsPlaced p seeding now s h = record {
  placed = λ id t. ground (
    arith,
    track_pane-tracked id p seeding now s,
    track_pane-placed id p seeding now s,
    h.placed id,
  );
}

pub untrack_pane-IsPlaced :
    (id : String) (s : HostState) → IsPlaced s → IsPlaced (untrack_pane id s)
unfolding untrack_pane remove_pane
untrack_pane-IsPlaced id s h = record {
  placed = λ j t. ground (
    arith,
    lookup-erase id j s.pane_agent_status,
    lookup-erase id j s.names.pane_placements,
    h.placed j,
  );
}

pub close_workspace-IsPlaced :
    (id : String) (s : HostState) → IsPlaced s → IsPlaced (close_workspace id s)
unfolding close_workspace
close_workspace-IsPlaced id s h = record {
  placed = λ j t. ground (
    arith,
    lookup-erase_all j (purge_workspace id s.names).2 s.pane_agent_status,
    purge_workspace-panes id s.names j,
    h.placed j,
  );
}

pub close_tab-IsPlaced : (id : String) (s : HostState) → IsPlaced s → IsPlaced (close_tab id s)
unfolding close_tab purge_tab
close_tab-IsPlaced id s h = record {
  placed = λ j t. ground (
    arith,
    lookup-erase_all j (purge_tab id s.names).1 s.pane_agent_status,
    lookup-erase_all j (keys_where (in_tab id) s.names.pane_placements) s.names.pane_placements,
    h.placed j,
  );
}

pub track_tab-IsPlaced : (t : TabInfo) (s : HostState) → IsPlaced s → IsPlaced (track_tab t s)
unfolding track_tab set_tab
track_tab-IsPlaced t s h = record { placed = h.placed }

pub track_tabs-IsPlaced :
    (ts : List TabInfo) (s : HostState) → IsPlaced s → IsPlaced (track_tabs ts s)
unfolding track_tabs
track_tabs-IsPlaced [] s h = h
track_tabs-IsPlaced (t ∷ ts) s h = track_tabs-IsPlaced ts (track_tab t s) (track_tab-IsPlaced t s h)

pub track_workspace-IsPlaced :
    (w : WorkspaceInfo Worktree) (s : HostState) → IsPlaced s → IsPlaced (track_workspace w s)
unfolding track_workspace set_workspace
track_workspace-IsPlaced w s h = record { placed = h.placed }

if_some-IsPlaced :
    {A : Type 0} (f : A → HostState → HostState) (o : Option A) (s : HostState)
    → ((a : A) (t : HostState) → IsPlaced t → IsPlaced (f a t))
    → IsPlaced s
    → IsPlaced (if_some f o s)
unfolding if_some
if_some-IsPlaced f none s keeps h = h
if_some-IsPlaced f (some a) s keeps h = keeps a s h

pub apply_pane_move_cache-IsPlaced :
    (m : MoveResult) (now : ℕ) (s : HostState)
    → IsPlaced s
    → IsPlaced (apply_pane_move_cache m now s)
unfolding apply_pane_move_cache
apply_pane_move_cache-IsPlaced m now s h = elim (Bool-cases m.changed) [
  | inl e ↦ rw e (
      if_some-IsPlaced close_tab m.closed_tab_id _ close_tab-IsPlaced (
        if_some-IsPlaced close_workspace m.closed_workspace_id _ close_workspace-IsPlaced (
          if_some-IsPlaced track_tab m.created_tab _ track_tab-IsPlaced (
            if_some-IsPlaced track_workspace m.created_workspace _ track_workspace-IsPlaced
              (track_pane-IsPlaced m.pane false now s h)))))
  | inr e ↦ rw e h
]

pub seed_panes-IsPlaced :
    (ps : List PaneInfo) (now : ℕ) (s : HostState) → IsPlaced s → IsPlaced (seed_panes ps now s)
unfolding seed_panes
seed_panes-IsPlaced [] now s h = h
seed_panes-IsPlaced (p ∷ ps) now s h =
    seed_panes-IsPlaced ps now (track_pane p true now s) (track_pane-IsPlaced p true now s h)
