-- ===== src/Herdr/Host/Calls/Laws.antt =====
-- What every call of a host keeps, whatever herdr replies.
use kanhrd.Base.{
  ℕ, String, List, ◌≡◌, ◌⊎◌, inl, inr, refl, Bool, true, false, Option, none, some, arith,
}
use kanhrd.Herdr.Names.{WorkspaceInfo, TabInfo, set_tab, set_workspace}
use kanhrd.Herdr.Project.{PaneInfo, Worktree}
use kanhrd.Herdr.Host.{HostState, HostConfig, MoveResult, track_tab, track_workspace}
use kanhrd.Herdr.Host.Placed.{
  IsPlaced, track_pane-IsPlaced, untrack_pane-IsPlaced, close_workspace-IsPlaced,
  close_tab-IsPlaced, track_tab-IsPlaced, track_tabs-IsPlaced, track_workspace-IsPlaced,
  apply_pane_move_cache-IsPlaced,
}
use kanhrd.Herdr.Host.Calls.{
  LifecycleCall, pane_send_keys, pane_send_text, pane_split, pane_close, pane_rename, pane_move,
  tab_create, tab_rename, tab_close, tab_move, workspace_create, workspace_rename, workspace_close,
  Reply, Outcome, done, pane_result, moved_result, tab_result, tab_pane_result, tabs_result,
  workspace_result, workspace_tab_pane_result, rejected,
}
use kanhrd.Herdr.Host.Calls.Replies.{
  Settled, with_pane, with_move, with_tab, with_tab_pane, with_tabs, with_workspace,
  with_workspace_tab_pane, settle_call,
}

-- The tracked panes, with their statuses and their placements, are as they were.
pub record SamePanes (s t : HostState) : Type 0 where
  pub statuses : t.pane_agent_status ≡ s.pane_agent_status
  pub placements : t.names.pane_placements ≡ s.names.pane_placements

unchanged : (s : HostState) → SamePanes s s
unchanged s = record { statuses = refl; placements = refl }

-- A call keeps placements, and one that is rejected leaves the tracked panes.
abbrev pub Keeps : HostState → Settled → Type 0
Keeps s r = (IsPlaced s → IsPlaced r.0) × (r.1 ≡ rejected → SamePanes s r.0)

refused : (s : HostState) → Keeps s (s, rejected)
refused s = ((λ h. h), (λ e. unchanged s))

with_pane-Keeps :
    (config : HostConfig) (now : ℕ) (o : Option PaneInfo) (s : HostState)
    → Keeps s (with_pane config now o s)
with_pane-Keeps config now (some p) s =
    ((λ h. track_pane-IsPlaced p _ now s h), (λ e. absurd (ground arith)))
with_pane-Keeps config now none s = refused s

with_move-Keeps :
    (config : HostConfig) (now : ℕ) (o : Option (MoveResult × Option String)) (s : HostState)
    → Keeps s (with_move config now o s)
with_move-Keeps config now (some (m, reason)) s =
    ((λ h. apply_pane_move_cache-IsPlaced m now s h), (λ e. absurd (ground arith)))
with_move-Keeps config now none s = refused s

with_tab-Keeps :
    (config : HostConfig) (o : Option TabInfo) (s : HostState) → Keeps s (with_tab config o s)
with_tab-Keeps config (some t) s = ((λ h. track_tab-IsPlaced t s h), (λ e. absurd (ground arith)))
with_tab-Keeps config none s = refused s

with_tab_pane-Keeps :
    (config : HostConfig) (now : ℕ) (o : Option TabInfo) (q : Option PaneInfo) (s : HostState)
    → Keeps s (with_tab_pane config now o q s)
unfolding track_tab set_tab
with_tab_pane-Keeps config now (some t) (some p) s =
    ((λ h. track_pane-IsPlaced p _ now _ (track_tab-IsPlaced t s h)), (λ e. absurd (ground arith)))
with_tab_pane-Keeps config now (some t) none s =
    ((λ h. track_tab-IsPlaced t s h), (λ e. record { statuses = refl; placements = refl }))
with_tab_pane-Keeps config now none q s = refused s

with_tabs-Keeps :
    (config : HostConfig) (o : Option (List TabInfo)) (s : HostState)
    → Keeps s (with_tabs config o s)
with_tabs-Keeps config (some ts) s =
    ((λ h. track_tabs-IsPlaced ts s h), (λ e. absurd (ground arith)))
with_tabs-Keeps config none s = refused s

with_workspace-Keeps :
    (config : HostConfig) (o : Option (WorkspaceInfo Worktree)) (s : HostState)
    → Keeps s (with_workspace config o s)
with_workspace-Keeps config (some w) s =
    ((λ h. track_workspace-IsPlaced w s h), (λ e. absurd (ground arith)))
with_workspace-Keeps config none s = refused s

with_workspace_tab_pane-Keeps :
    (config : HostConfig) (now : ℕ) (o : Option (WorkspaceInfo Worktree)) (p : Option TabInfo)
    (q : Option PaneInfo) (s : HostState)
    → Keeps s (with_workspace_tab_pane config now o p q s)
unfolding track_tab track_workspace set_workspace set_tab
with_workspace_tab_pane-Keeps config now (some w) (some t) (some p) s = (
  (λ h. track_pane-IsPlaced p _ now _ (track_tab-IsPlaced t _ (track_workspace-IsPlaced w s h))),
  (λ e. absurd (ground arith)),
)
with_workspace_tab_pane-Keeps config now (some w) (some t) none s = (
  (λ h. track_tab-IsPlaced t _ (track_workspace-IsPlaced w s h)),
  (λ e. record { statuses = refl; placements = refl }),
)
with_workspace_tab_pane-Keeps config now (some w) none q s =
    ((λ h. track_workspace-IsPlaced w s h), (λ e. record { statuses = refl; placements = refl }))
with_workspace_tab_pane-Keeps config now none p q s = refused s

settle_call-Keeps :
    (config : HostConfig) (now : ℕ) (c : LifecycleCall) (reply : Option Reply) (s : HostState)
    → Keeps s (settle_call config now c reply s)
unfolding settle_call
settle_call-Keeps config now c none s = refused s
settle_call-Keeps config now (pane_send_keys id keys) (some r) s = ((λ h. h), (λ e. unchanged s))
settle_call-Keeps config now (pane_send_text id t) (some r) s = ((λ h. h), (λ e. unchanged s))
settle_call-Keeps config now (pane_split p) (some r) s = with_pane-Keeps config now r.pane s
settle_call-Keeps config now (pane_close id) (some r) s =
    ((λ h. untrack_pane-IsPlaced id s h), (λ e. absurd (ground arith)))
settle_call-Keeps config now (pane_rename id label) (some r) s = with_pane-Keeps config now r.pane s
settle_call-Keeps config now (pane_move id destination focus) (some r) s =
    with_move-Keeps config now r.move_result s
settle_call-Keeps config now (tab_create p) (some r) s =
    with_tab_pane-Keeps config now r.tab r.root_pane s
settle_call-Keeps config now (tab_rename id label) (some r) s = with_tab-Keeps config r.tab s
settle_call-Keeps config now (tab_close id) (some r) s =
    ((λ h. close_tab-IsPlaced id s h), (λ e. absurd (ground arith)))
settle_call-Keeps config now (tab_move id index) (some r) s = with_tabs-Keeps config r.tabs s
settle_call-Keeps config now (workspace_create p) (some r) s =
    with_workspace_tab_pane-Keeps config now r.workspace r.tab r.root_pane s
settle_call-Keeps config now (workspace_rename id label) (some r) s =
    with_workspace-Keeps config r.workspace s
settle_call-Keeps config now (workspace_close id close_group) (some r) s =
    ((λ h. close_workspace-IsPlaced id s h), (λ e. absurd (ground arith)))

-- Whether the promise of a call is rejected.
abbrev pub is_rejected : Outcome → Bool
is_rejected done = false
is_rejected (pane_result p) = false
is_rejected (moved_result m) = false
is_rejected (tab_result t) = false
is_rejected (tab_pane_result t p) = false
is_rejected (tabs_result ts) = false
is_rejected (workspace_result w) = false
is_rejected (workspace_tab_pane_result w t p) = false
is_rejected rejected = true

is_rejected-eq : (o : Outcome) → (is_rejected o ≡ false) ⊎ (o ≡ rejected)
is_rejected-eq done = inl refl
is_rejected-eq (pane_result p) = inl refl
is_rejected-eq (moved_result m) = inl refl
is_rejected-eq (tab_result t) = inl refl
is_rejected-eq (tab_pane_result t p) = inl refl
is_rejected-eq (tabs_result ts) = inl refl
is_rejected-eq (workspace_result w) = inl refl
is_rejected-eq (workspace_tab_pane_result w t p) = inl refl
is_rejected-eq rejected = inr refl

pub settle_call_sound :
    (config : HostConfig) (now : ℕ) (c : LifecycleCall) (reply : Option Reply) (s : HostState)
    → IsPlaced s
    → IsPlaced (settle_call config now c reply s).0
      × ((is_rejected (settle_call config now c reply s).1 ≡ false)
          ⊎ SamePanes s (settle_call config now c reply s).0)
settle_call_sound config now c reply s placed =
    let (keeps, same) = settle_call-Keeps config now c reply s in
    (
      keeps placed,
      elim (is_rejected-eq (settle_call config now c reply s).1) [
        | inl e ↦ inl e
        | inr e ↦ inr (same e)
      ],
    )
