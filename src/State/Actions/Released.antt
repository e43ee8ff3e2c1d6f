-- ===== src/State/Actions/Released.antt =====
-- What an action of apps/web/src/app/state/panes.store.ts releases: membership entries of the panes it
-- takes off the board.
use kanhrd.Base.{
  ◌≤◌, ◌≡◌, refl, String, Bool, none, some, [], ◌∷◌, if◌then◌else◌, leb, length, insert, map_values,
  arith, Bool-cases, inl, inr, sym, subst, lookup, ap, ◌∙◌,
}
use kanhrd.Wire.{Pane, PaneMoved, pane_moved}
use kanhrd.State.Panes.Reducers.{
  PaneMap, apply_pane_created, apply_pane_closed, update_panes, pane_in_tab, pane_in_workspace,
  rename_tab, rename_workspace,
}
use kanhrd.State.Parked.{ParkedState}
use kanhrd.State.Frame.{BoardState, release_dropped_panes, apply_exit_rule, apply_frame}
use kanhrd.State.Frame.Release.{
  is_dropped, Shrinks, release_dropped-lookup, same-Shrinks, insert-keeps, erase-Shrinks,
  erase_if-Shrinks, update-Shrinks, apply_frame-releases,
}
use kanhrd.State.Actions.{
  Action, split_pane, move_pane, close_pane, rename_pane, create_tab, rename_tab_as, close_tab,
  create_workspace, rename_workspace_as, close_workspace, purge_panes, act,
}

length-insert : (k : String) (p : Pane) (m : PaneMap) → length m ≤ length (insert k p m)
unfolding insert
length-insert k p [] = omega arith
length-insert k p ((j, q) ∷ m) = ground (arith, length-insert k p m)

length-map_values : (f : Pane → Pane) (m : PaneMap) → length (map_values f m) ≡ length m
unfolding map_values
length-map_values f [] = refl
length-map_values f ((j, q) ∷ m) = omega (arith, length-map_values f m)

-- Nothing is released while no pane goes away.
release_dropped-grown :
    (current next : PaneMap) (parked : ParkedState)
    → length current ≤ length next
    → release_dropped_panes current next parked ≡ parked
unfolding release_dropped_panes
release_dropped-grown current next parked h =
    elim (Bool-cases (leb (length current) (length next))) [
      | inl e ↦ rw e refl
      | inr e ↦ absurd (ground arith)
    ]

pub release_dropped-same :
    (m : PaneMap) (parked : ParkedState) → release_dropped_panes m m parked ≡ parked
release_dropped-same m parked = release_dropped-grown m m parked (omega arith)

pub release_dropped-created :
    (p : Pane) (m : PaneMap) (parked : ParkedState)
    → release_dropped_panes m (apply_pane_created m p) parked ≡ parked
unfolding apply_pane_created
release_dropped-created p m parked = release_dropped-grown m _ parked (length-insert _ p m)

pub release_dropped-updated :
    (q : Pane → Bool) (f : Pane → Pane) (m : PaneMap) (parked : ParkedState)
    → release_dropped_panes m (update_panes q f m) parked ≡ parked
unfolding update_panes
release_dropped-updated q f m parked =
    release_dropped-grown m _ parked
      (omega (arith, length-map_values (λ p. if q p then f p else p) m))

-- The membership of a pane that went off the board is gone, and all other membership is as before.
unfoldable pub Released : BoardState → BoardState → Type 0
Released s t =
    (k : String)
    → lookup k t.parked.membership
      ≡ (if is_dropped k s.maps.panes t.maps.panes then none else lookup k s.parked.membership)

released :
    (s t : BoardState)
    → t.parked ≡ release_dropped_panes s.maps.panes t.maps.panes s.parked
    → Shrinks s.maps.panes t.maps.panes
    → Released s t
unfolding Released
released s t e h k =
    ap (λ p. lookup k p.membership) e
    ∙ release_dropped-lookup k s.maps.panes t.maps.panes s.parked h

unchanged : (s : BoardState) → Released s s
unchanged s =
    released s s (sym (release_dropped-same s.maps.panes s.parked)) (same-Shrinks s.maps.panes)

-- Panes change in place, and the parked columns do not.
updated :
    (q : Pane → Bool) (f : Pane → Pane) (s t : BoardState)
    → t.maps.panes ≡ update_panes q f s.maps.panes
    → t.parked ≡ s.parked
    → Released s t
updated q f s t e h =
    released s t
      (h
        ∙ sym (
            ap (λ m. release_dropped_panes s.maps.panes m s.parked) e
            ∙ release_dropped-updated q f s.maps.panes s.parked))
      (subst (Shrinks s.maps.panes) (sym e) (update-Shrinks q f s.maps.panes))

-- A pane comes, or is put in place of itself, and the parked columns do not change.
created :
    (p : Pane) (s t : BoardState)
    → t.maps.panes ≡ apply_pane_created s.maps.panes p
    → t.parked ≡ s.parked
    → Released s t
unfolding apply_pane_created
created p s t e h =
    released s t
      (h
        ∙ sym (
            ap (λ m. release_dropped_panes s.maps.panes m s.parked) e
            ∙ release_dropped-created p s.maps.panes s.parked))
      (subst (Shrinks s.maps.panes) (sym e) (insert-keeps _ p s.maps.panes))

-- A move is a frame, which has no exit rule.
moves : (moved : PaneMoved) (s : BoardState) → Released s (apply_frame (pane_moved moved) s)
unfolding Released apply_exit_rule
moves moved s k = apply_frame-releases (pane_moved moved) s k

pub act-Released : (a : Action) (s : BoardState) → Released s (act a s)
unfolding act purge_panes apply_pane_closed
act-Released (split_pane none) s = unchanged s
act-Released (split_pane (some pane)) s = created pane s _ refl refl
act-Released (move_pane none) s = unchanged s
act-Released (move_pane (some (changed, moved))) s = elim (Bool-cases changed) [
  | inl e ↦ rw e (moves moved s)
  | inr e ↦ rw e (unchanged s)
]
act-Released (close_pane host id) s = released s _ refl (erase-Shrinks _ s.maps.panes)
act-Released (rename_pane none) s = unchanged s
act-Released (rename_pane (some pane)) s = created pane s _ refl refl
act-Released (create_tab none) s = unchanged s
act-Released (create_tab (some (tab, pane))) s = created pane s _ refl refl
act-Released (rename_tab_as host id label answered) s = elim (Bool-cases answered) [
  | inl e ↦ rw e (updated (pane_in_tab host id) (rename_tab label) s _ refl refl)
  | inr e ↦ rw e (unchanged s)
]
act-Released (close_tab host id) s = released s _ refl (erase_if-Shrinks _ s.maps.panes)
act-Released (create_workspace none) s = unchanged s
act-Released (create_workspace (some (workspace, tab, pane))) s = created pane s _ refl refl
act-Released (rename_workspace_as host id label answered) s = elim (Bool-cases answered) [
  | inl e ↦ rw e (updated (pane_in_workspace host id) (rename_workspace label) s _ refl refl)
  | inr e ↦ rw e (unchanged s)
]
act-Released (close_workspace host id) s = released s _ refl (erase_if-Shrinks _ s.maps.panes)
