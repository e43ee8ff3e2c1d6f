-- ===== src/State/Panes/Partition.antt =====
-- Which cards `groupIntoColumns` of apps/web/src/app/state/panes.store.ts puts in which column.
use kanhrd.Base.{
  String, ◌≡◌, refl, sym, ap, ◌∙◌, false, Option, none, some, List, [], ◌∷◌, ◌++◌, if◌then◌else◌,
  Dict, lookup, includes, keep_if, arith, is_some, inl, inr, Bool-cases, append-nil, append_assoc,
}
use kanhrd.Wire.{AgentStatus, Pane}
use kanhrd.State.Panes.Columns.{
  Filters, BoardColumns, column, place, place_all, no_columns, group_into_columns,
}
use kanhrd.State.Panes.Placing.{
  shows_in_status, shows_in_parked, Covers, keep_if-cons, lookup-empty_buckets,
  empty_buckets-Covers, place-Covers, place-status, place-parked,
}

place_all-status :
    (f : Filters) (m : Dict String) (ids : List String) (s : AgentStatus) (panes : List Pane)
    (c : BoardColumns)
    → Covers ids c.parked
    → column s (place_all f m ids panes c).status
      ≡ column s c.status ++ keep_if (shows_in_status f m ids s) panes
unfolding place_all
place_all-status f m ids s [] c h = sym (append-nil _)
place_all-status f m ids s (pane ∷ panes) c h =
    place_all-status f m ids s panes (place f m ids pane c) (place-Covers f m ids pane c h)
    ∙ ap (λ l. l ++ keep_if (shows_in_status f m ids s) panes) (place-status f m ids s pane c h)
    ∙ append_assoc (column s c.status) (keep_if (shows_in_status f m ids s) (pane ∷ [])) _
    ∙ ap (λ l. column s c.status ++ l) (sym (keep_if-cons (shows_in_status f m ids s) pane panes))

place_all-parked :
    (f : Filters) (m : Dict String) (ids : List String) (id : String) (panes : List Pane)
    (c : BoardColumns) (cards : List Pane)
    → Covers ids c.parked
    → lookup id c.parked ≡ some cards
    → lookup id (place_all f m ids panes c).parked
      ≡ some (cards ++ keep_if (shows_in_parked f m ids id) panes)
unfolding place_all
place_all-parked f m ids id [] c cards h has = has ∙ ap some (sym (append-nil cards))
place_all-parked f m ids id (pane ∷ panes) c cards h has =
    place_all-parked f m ids id panes (place f m ids pane c) _ (place-Covers f m ids pane c h)
      (place-parked f m ids id pane c cards h has)
    ∙ ap some (
        append_assoc cards (keep_if (shows_in_parked f m ids id) (pane ∷ [])) _
        ∙ ap (λ l. cards ++ l) (sym (keep_if-cons (shows_in_parked f m ids id) pane panes)))

place_all-Covers :
    (f : Filters) (m : Dict String) (ids : List String) (panes : List Pane) (c : BoardColumns)
    → Covers ids c.parked
    → Covers ids (place_all f m ids panes c).parked
unfolding place_all
place_all-Covers f m ids [] c h = h
place_all-Covers f m ids (pane ∷ panes) c h =
    place_all-Covers f m ids panes (place f m ids pane c) (place-Covers f m ids pane c h)

not_some {ℓ} : {A : Type ℓ} {o : Option A} → is_some o ≡ false → o ≡ none
not_some {o = none} h = refl
not_some {o = some a} h = absurd (ground arith)

-- The status column `s` of the board holds, in the order in which the panes come, exactly the panes
-- that are not filtered out, are in no parked column that the board has, and have status `s`.
pub group_into_columns-status :
    (panes : List Pane) (filters : Filters) (membership : Dict String) (ids : List String)
    (s : AgentStatus)
    → column s (group_into_columns panes filters membership ids).status
      ≡ keep_if (shows_in_status filters membership ids s) panes
unfolding group_into_columns
group_into_columns-status panes filters membership ids AgentStatus.idle =
    place_all-status filters membership ids AgentStatus.idle panes (no_columns ids)
      (empty_buckets-Covers ids)
group_into_columns-status panes filters membership ids AgentStatus.working =
    place_all-status filters membership ids AgentStatus.working panes (no_columns ids)
      (empty_buckets-Covers ids)
group_into_columns-status panes filters membership ids AgentStatus.blocked =
    place_all-status filters membership ids AgentStatus.blocked panes (no_columns ids)
      (empty_buckets-Covers ids)
group_into_columns-status panes filters membership ids AgentStatus.done =
    place_all-status filters membership ids AgentStatus.done panes (no_columns ids)
      (empty_buckets-Covers ids)
group_into_columns-status panes filters membership ids AgentStatus.unknown =
    place_all-status filters membership ids AgentStatus.unknown panes (no_columns ids)
      (empty_buckets-Covers ids)

-- Every parked column that the board has holds, in the order in which the panes come, exactly the
-- panes that are not filtered out and whose membership entry names it; no other column has a bucket.
pub group_into_columns-parked :
    (panes : List Pane) (filters : Filters) (membership : Dict String) (ids : List String)
    (id : String)
    → lookup id (group_into_columns panes filters membership ids).parked ≡ (
        if includes id ids
        then some (keep_if (shows_in_parked filters membership ids id) panes)
        else none)
unfolding group_into_columns Covers
group_into_columns-parked panes filters membership ids id = elim (Bool-cases (includes id ids)) [
  | inl e ↦ rw e (
      place_all-parked filters membership ids id panes (no_columns ids) []
        (empty_buckets-Covers ids) (lookup-empty_buckets ids [] id ∙ rw e refl))
  | inr e ↦ rw e (
      not_some (
        place_all-Covers filters membership ids panes (no_columns ids) (empty_buckets-Covers ids) id
        ∙ e))
]
