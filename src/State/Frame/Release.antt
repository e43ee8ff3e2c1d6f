-- ===== src/State/Frame/Release.antt =====
-- `applyFrame` of apps/web/src/app/state/panes.store.ts: which membership entries a frame releases.
use kanhrd.Base.{
  ℕ, ◌≤◌, ◌<◌, String, ◌≡◌, refl, sym, ap, ◌∙◌, Bool, true, false, not, ◌&&◌, Option, none, some,
  List, [], ◌∷◌, inl, inr, if◌then◌else◌, leb, ◌==◌, ==_iff, str_eq, Dict, lookup, insert, erase,
  erase_if, keys, is_some, keep_if, includes, length, arith, eq_iff, Bool-cases, Option-cases,
  lookup-insert, lookup-map_values, includes-keys,
}
use kanhrd.Wire.{
  AgentStatus, Pane, BridgeEvent, pane_created, pane_closed, pane_agent_status_changed,
  pane_updated, workspace_created, workspace_closed, workspace_renamed, tab_created, tab_closed,
  tab_renamed, tab_moved, pane_moved,
}
use kanhrd.State.Panes.Reducers.{
  pane_key, PaneMap, LifecycleState, apply_lifecycle_event, apply_event, apply_pane_created,
  apply_pane_closed, apply_pane_agent_status_changed, update_panes, pane_in_workspace, pane_in_tab,
  rename_workspace, rename_tab,
}
use kanhrd.State.Panes.Pointwise.{edit, lookup-edit}
use kanhrd.State.Parked.{ParkedState, drop_keys, release_panes}
use kanhrd.State.Frame.{
  BoardState, dropped_keys, release_dropped_panes, apply_exit_rule, apply_frame,
}

length-drop_keys : (ks : List String) (m : Dict String) → length (drop_keys ks m) ≤ length m
unfolding drop_keys
length-drop_keys ks [] = omega arith
length-drop_keys ks ((k, c) ∷ m) = ground (arith, length-drop_keys ks m)

lookup-drop_keys :
    (k : String) (ks : List String) (m : Dict String)
    → lookup k (drop_keys ks m) ≡ (if includes k ks then none else lookup k m)
unfolding drop_keys lookup
lookup-drop_keys k ks [] = ground arith
lookup-drop_keys k ks ((j, c) ∷ m) = elim (Bool-cases (str_eq j k)) [
  | inl e ↦ ground (arith, lookup-drop_keys k ks m, same_key j k ks e)
  | inr e ↦ ground (arith, lookup-drop_keys k ks m)
]
  where
    same_key : (j k : String) (ks : List String) → str_eq j k ≡ true → includes j ks ≡ includes k ks
    same_key j k ks e = ap (λ i. includes i ks) ((eq_iff j k).0 e)

drop_keys-all :
    (ks : List String) (m : Dict String) → length (drop_keys ks m) ≡ length m → drop_keys ks m ≡ m
unfolding drop_keys
drop_keys-all ks [] h = refl
drop_keys-all ks ((k, c) ∷ m) h = elim (Bool-cases (includes k ks)) [
  | inl e ↦ absurd (ground (arith, length-drop_keys ks m))
  | inr e ↦ rw e (ap (λ l. (k, c) ∷ l) (drop_keys-all ks m (ground arith)))
]

-- Releasing takes away exactly the entries of the keys.
release_panes-lookup :
    (k : String) (ks : List String) (s : ParkedState)
    → lookup k (release_panes ks s).membership
      ≡ (if includes k ks then none else lookup k s.membership)
unfolding release_panes
release_panes-lookup k [] s = refl
release_panes-lookup k (j ∷ ks) s =
    elim (Bool-cases (length (drop_keys (j ∷ ks) s.membership) == length s.membership)) [
      | inl e ↦ rw e (
          sym (ap (lookup k) (drop_keys-all (j ∷ ks) s.membership ((==_iff _ _).0 e)))
          ∙ lookup-drop_keys k (j ∷ ks) s.membership)
      | inr e ↦ rw e (lookup-drop_keys k (j ∷ ks) s.membership)
    ]

includes-keep_if :
    (p : String → Bool) (k : String) (ks : List String)
    → includes k (keep_if p ks) ≡ (includes k ks && p k)
includes-keep_if p k [] = refl
includes-keep_if p k (j ∷ ks) = elim (Bool-cases (str_eq j k)) [
  | inl e ↦ ground (arith, includes-keep_if p k ks, ap p ((eq_iff j k).0 e))
  | inr e ↦ ground (arith, includes-keep_if p k ks)
]

-- The pane was on the board and is not any more.
abbrev pub is_dropped : String → PaneMap → PaneMap → Bool
is_dropped k current next = is_some (lookup k current) && not (is_some (lookup k next))

includes-dropped_keys :
    (k : String) (current next : PaneMap)
    → includes k (dropped_keys current next) ≡ is_dropped k current next
includes-dropped_keys k current next =
    includes-keep_if (λ j. not (is_some (lookup j next))) k (keys current)
    ∙ ground (arith, includes-keys k current)

-- A map that loses a key gets shorter.
pub Shrinks : PaneMap → PaneMap → Type 0
Shrinks current next =
    (k : String) → is_dropped k current next ≡ true → length next < length current

pub release_dropped-lookup :
    (k : String) (current next : PaneMap) (s : ParkedState)
    → Shrinks current next
    → lookup k (release_dropped_panes current next s).membership
      ≡ (if is_dropped k current next then none else lookup k s.membership)
unfolding release_dropped_panes Shrinks
release_dropped-lookup k current next s h = elim (Bool-cases (leb (length current) (length next))) [
  | inl e ↦ rw (e, kept e) refl
  | inr e ↦
      rw (e, sym (includes-dropped_keys k current next))
        (release_panes-lookup k (dropped_keys current next) s)
]
  where
    kept : leb (length current) (length next) ≡ true → is_dropped k current next ≡ false
    kept e = elim (Bool-cases (is_dropped k current next)) [
      | inl d ↦ absurd (ground (arith, h k d))
      | inr d ↦ d
    ]

-- A map that keeps all keys drops none.
keeps-Shrinks :
    (current next : PaneMap)
    → ((k : String) → is_some (lookup k current) ≡ true → is_some (lookup k next) ≡ true)
    → Shrinks current next
unfolding Shrinks
keeps-Shrinks current next h k d = absurd (ground (arith, h k))

length-erase : (k : String) (m : PaneMap) → length (erase k m) ≤ length m
unfolding erase
length-erase k [] = omega arith
length-erase k ((j, p) ∷ m) = ground (arith, length-erase k m)

length-erase_if : (p : Pane → Bool) (m : PaneMap) → length (erase_if p m) ≤ length m
unfolding erase_if
length-erase_if p [] = omega arith
length-erase_if p ((j, q) ∷ m) = ground (arith, length-erase_if p m)

pub erase-Shrinks : (id : String) (m : PaneMap) → Shrinks m (erase id m)
unfolding Shrinks erase lookup
erase-Shrinks id [] k d = absurd (ground arith)
erase-Shrinks id ((j, p) ∷ m) k d = elim (Bool-cases (str_eq j id)) [
  | inl e ↦ rw e (omega (arith, length-erase id m))
  | inr e ↦ rw e (ground (arith, erase-Shrinks id m k))
]

pub erase_if-Shrinks : (p : Pane → Bool) (m : PaneMap) → Shrinks m (erase_if p m)
unfolding Shrinks erase_if lookup
erase_if-Shrinks p [] k d = absurd (ground arith)
erase_if-Shrinks p ((j, q) ∷ m) k d = elim (Bool-cases (p q)) [
  | inl e ↦ rw e (omega (arith, length-erase_if p m))
  | inr e ↦ rw e (ground (arith, erase_if-Shrinks p m k))
]

pub insert-keeps : (j : String) (p : Pane) (m : PaneMap) → Shrinks m (insert j p m)
insert-keeps j p m = keeps-Shrinks m (insert j p m) (λ k h. ground (arith, lookup-insert j k p m))

pub same-Shrinks : (m : PaneMap) → Shrinks m m
same-Shrinks m = keeps-Shrinks m m (λ k h. h)

is_some-map :
    (f : Pane → Pane) (o : Option Pane)
    → is_some (elim o [ none ↦ none | some v ↦ some (f v) ]) ≡ is_some o
is_some-map f none = refl
is_some-map f (some p) = refl

pub update-Shrinks :
    (matches : Pane → Bool) (update : Pane → Pane) (m : PaneMap)
    → Shrinks m (update_panes matches update m)
unfolding update_panes
update-Shrinks matches update m = keeps-Shrinks m _ (λ k h.
    ap is_some (lookup-map_values (λ p. if matches p then update p else p) k m)
    ∙ is_some-map (λ p. if matches p then update p else p) (lookup k m)
    ∙ h)

is_some-edit_at :
    (key k : String) (f : Pane → Pane) (m : PaneMap)
    → is_some (lookup k (edit key f m)) ≡ is_some (lookup k m)
is_some-edit_at key k f m = elim (Option-cases (lookup k m)) [
  | inl e ↦ ap is_some (lookup-edit key k f m) ∙ rw e (ground arith)
  | inr (p, e) ↦ ap is_some (lookup-edit key k f m) ∙ rw e (ground arith)
]

status_changed-Shrinks :
    (m : PaneMap) (id host : String) (status : AgentStatus) (since : Option ℕ)
    → Shrinks m (apply_pane_agent_status_changed m id host status since)
unfolding apply_pane_agent_status_changed
status_changed-Shrinks m id host status since = keeps-Shrinks m _ (λ k h.
    is_some-edit_at (pane_key host id) k
      (λ p. record p { agent_status = status; status_since = since }) m
    ∙ h)

event-Shrinks :
    (s : LifecycleState) (event : BridgeEvent)
    → Shrinks s.panes (apply_lifecycle_event s event).panes
unfolding apply_lifecycle_event apply_event apply_pane_created apply_pane_closed
event-Shrinks s (pane_created p) = insert-keeps _ p s.panes
event-Shrinks s (pane_closed id host w) = erase-Shrinks _ s.panes
event-Shrinks s (pane_agent_status_changed id host status since) =
    status_changed-Shrinks s.panes id host status since
event-Shrinks s (pane_updated p) = insert-keeps _ p s.panes
event-Shrinks s (workspace_created w) = same-Shrinks s.panes
event-Shrinks s (workspace_closed id host w) = erase_if-Shrinks _ s.panes
event-Shrinks s (workspace_renamed id host name) =
    update-Shrinks (pane_in_workspace host id) (rename_workspace name) s.panes
event-Shrinks s (tab_created t) = same-Shrinks s.panes
event-Shrinks s (tab_closed id host w) = erase_if-Shrinks _ s.panes
event-Shrinks s (tab_renamed id host w name) =
    update-Shrinks (pane_in_tab host id) (rename_tab name) s.panes
event-Shrinks s (tab_moved host w tabs) = same-Shrinks s.panes
event-Shrinks s (pane_moved m) = insert-keeps _ m.pane s.panes

-- After a frame, the membership entry of a pane that the frame took off the board is gone, and every
-- other entry is what the exit rule, which runs before, left of it.
pub apply_frame-releases :
    (event : BridgeEvent) (s : BoardState) (k : String)
    → lookup k (apply_frame event s).parked.membership ≡ (
        if is_dropped k s.maps.panes (apply_frame event s).maps.panes
        then none
        else lookup k (apply_exit_rule s.maps.panes event s.parked).membership)
unfolding apply_frame
apply_frame-releases event s k =
    release_dropped-lookup k s.maps.panes (apply_lifecycle_event s.maps event).panes
      (apply_exit_rule s.maps.panes event s.parked) (event-Shrinks s.maps event)
