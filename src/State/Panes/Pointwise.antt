-- ===== src/State/Panes/Pointwise.antt =====
-- What each reducer of apps/web/src/app/state/panes.store.ts does to the value under one key.
use kanhrd.Base.{
  ℕ, String, ◌≡◌, refl, ap, ◌∙◌, Bool, Option, none, some, List, [], ◌∷◌, Dict, lookup, insert,
  erase, erase_if, map_values, inl, inr, arith, Bool-cases, Option-cases, str_eq, eq_iff,
  if◌then◌else◌, lookup-insert, lookup-erase, lookup-erase_if, lookup-map_values, unless,
  HasUniqueKeys, insert-HasUniqueKeys, erase-HasUniqueKeys, erase_if-HasUniqueKeys,
  map_values-HasUniqueKeys,
}
use kanhrd.Wire.{AgentStatus, Pane, WorkspaceSummary, TabSummary}
use kanhrd.State.Panes.Reducers.{
  pane_key, apply_pane_agent_status_changed, apply_workspace_renamed, apply_tab_renamed, set_tabs,
  update_panes, create_workspace, create_tab, close_one, close_tabs_of, tab_in_workspace,
}

-- An operation that acts on each value alone, and keeps the keys unique.
pub record IsPointwise {V : Type 0} (op : Dict V → Dict V) : Type 0 where
  pub effect : String → Option V → Option V
  pub at : (m : Dict V) (k : String) → HasUniqueKeys m → lookup k (op m) ≡ effect k (lookup k m)
  pub unique : (m : Dict V) → HasUniqueKeys m → HasUniqueKeys (op m)

abbrev pub put_at {ℓ} : {V : Type ℓ} → String → V → String → Option V → Option V
put_at k v j o = if str_eq k j then some v else o

abbrev pub drop_at {ℓ} : {V : Type ℓ} → String → String → Option V → Option V
drop_at k j o = if str_eq k j then none else o

abbrev pub on_some {ℓ} : {V : Type ℓ} → (V → V) → Option V → Option V
on_some f none = none
on_some f (some v) = some (f v)

abbrev pub edit_at {ℓ} : {V : Type ℓ} → String → (V → V) → String → Option V → Option V
edit_at k f j o = if str_eq k j then on_some f o else o

module _ {V : Type 0} where
  unfoldable pub insert-IsPointwise : (k : String) (v : V) → IsPointwise (insert k v)
  insert-IsPointwise k v = record {
    effect = put_at k v;
    at = λ m j h. lookup-insert k j v m;
    unique = insert-HasUniqueKeys k v;
  }

  unfoldable pub erase-IsPointwise : (k : String) → IsPointwise (erase {V = V} k)
  erase-IsPointwise k = record {
    effect = drop_at k;
    at = λ m j h. lookup-erase k j m;
    unique = erase-HasUniqueKeys k;
  }

  unfoldable pub erase_if-IsPointwise : (p : V → Bool) → IsPointwise (erase_if p)
  erase_if-IsPointwise p = record {
    effect = λ j o. unless p o;
    at = λ m j h. lookup-erase_if p j m h;
    unique = erase_if-HasUniqueKeys p;
  }

  pub map-on_some :
      (f : V → V) (o : Option V) → elim o [ none ↦ none | some v ↦ some (f v) ] ≡ on_some f o
  map-on_some f none = refl
  map-on_some f (some v) = refl

  unfoldable pub map_values-IsPointwise : (f : V → V) → IsPointwise (map_values f)
  map_values-IsPointwise f = record {
    effect = λ j o. on_some f o;
    at = λ m j h. lookup-map_values f j m ∙ map-on_some f (lookup j m);
    unique = map_values-HasUniqueKeys f;
  }

  unfoldable pub id-IsPointwise : IsPointwise {V = V} (λ m. m)
  id-IsPointwise = record { effect = λ j o. o; at = λ m j h. refl; unique = λ m h. h }

  unfoldable pub IsPointwise-comp :
      {f g : Dict V → Dict V} → IsPointwise f → IsPointwise g → IsPointwise (λ m. g (f m))
  IsPointwise-comp {f} {g} pf pg = record {
    effect = λ j o. pg.effect j (pf.effect j o);
    at = λ m j h. pg.at (f m) j (pf.unique m h) ∙ ap (pg.effect j) (pf.at m j h);
    unique = λ m h. pg.unique (f m) (pf.unique m h);
  }

  abbrev pub edited : String → (V → V) → Dict V → Option V → Dict V
  edited k f m o = elim o [ none ↦ m | some v ↦ insert k (f v) m ]

  -- A value that is edited if it is there.
  abbrev pub edit : String → (V → V) → Dict V → Dict V
  edit k f m = edited k f m (lookup k m)

  pub lookup-edit :
      (k j : String) (f : V → V) (m : Dict V) → lookup j (edit k f m) ≡ edit_at k f j (lookup j m)
  lookup-edit k j f m = elim (Bool-cases (str_eq k j)) [
    | inl e ↦ elim (Option-cases (lookup k m)) [
      | inl absent ↦ ground (arith, eq_iff k j)
      | inr (v, found) ↦ ground (arith, eq_iff k j, lookup-insert k j (f v) m)
    ]
    | inr e ↦ elim (Option-cases (lookup k m)) [
      | inl absent ↦ ground arith
      | inr (v, found) ↦ ground (arith, lookup-insert k j (f v) m)
    ]
  ]

  pub edit-HasUniqueKeys :
      (k : String) (f : V → V) (m : Dict V) → HasUniqueKeys m → HasUniqueKeys (edit k f m)
  edit-HasUniqueKeys k f m h = go (lookup k m)
    where
      go : (o : Option V) → HasUniqueKeys (edited k f m o)
      go none = h
      go (some v) = insert-HasUniqueKeys k (f v) m h

  unfoldable pub edit-IsPointwise : (k : String) (f : V → V) → IsPointwise (edit k f)
  edit-IsPointwise k f = record {
    effect = edit_at k f;
    at = λ m j h. lookup-edit k j f m;
    unique = edit-HasUniqueKeys k f;
  }

  unfoldable pub close_one-IsPointwise :
      (host : String) (o : Option String) → IsPointwise {V = V} (close_one host o)
  unfolding close_one
  close_one-IsPointwise host none = id-IsPointwise
  close_one-IsPointwise host (some id) = erase-IsPointwise (pane_key host id)

unfoldable pub status_changed-IsPointwise :
    (id host : String) (status : AgentStatus) (since : Option ℕ)
    → IsPointwise (λ m. apply_pane_agent_status_changed m id host status since)
unfolding apply_pane_agent_status_changed
status_changed-IsPointwise id host status since =
    edit-IsPointwise (pane_key host id)
      (λ p. record p { agent_status = status; status_since = since })

unfoldable pub workspace_renamed-IsPointwise :
    (id host name : String) → IsPointwise (λ m. apply_workspace_renamed m id host name)
unfolding apply_workspace_renamed
workspace_renamed-IsPointwise id host name =
    edit-IsPointwise (pane_key host id) (λ w. record w { name = name })

unfoldable pub tab_renamed-IsPointwise :
    (id host name : String) → IsPointwise (λ m. apply_tab_renamed m id host name)
unfolding apply_tab_renamed
tab_renamed-IsPointwise id host name =
    edit-IsPointwise (pane_key host id) (λ t. record t { name = name })

unfoldable pub update_panes-IsPointwise :
    (matches : Pane → Bool) (update : Pane → Pane) → IsPointwise (update_panes matches update)
unfolding update_panes
update_panes-IsPointwise matches update =
    map_values-IsPointwise (λ p. if matches p then update p else p)

unfoldable pub set_tabs-IsPointwise : (tabs : List TabSummary) → IsPointwise (set_tabs tabs)
unfolding set_tabs
set_tabs-IsPointwise [] = id-IsPointwise
set_tabs-IsPointwise (t ∷ rest) =
    IsPointwise-comp (insert-IsPointwise (pane_key t.host t.id) t) (set_tabs-IsPointwise rest)

unfoldable pub create_workspace-IsPointwise :
    (o : Option WorkspaceSummary) → IsPointwise (create_workspace o)
unfolding create_workspace
create_workspace-IsPointwise none = id-IsPointwise
create_workspace-IsPointwise (some w) = insert-IsPointwise (pane_key w.host w.id) w

unfoldable pub create_tab-IsPointwise : (o : Option TabSummary) → IsPointwise (create_tab o)
unfolding create_tab
create_tab-IsPointwise none = id-IsPointwise
create_tab-IsPointwise (some t) = insert-IsPointwise (pane_key t.host t.id) t

unfoldable pub close_tabs_of-IsPointwise :
    (host : String) (o : Option String) → IsPointwise (close_tabs_of host o)
unfolding close_tabs_of
close_tabs_of-IsPointwise host none = id-IsPointwise
close_tabs_of-IsPointwise host (some id) = erase_if-IsPointwise (tab_in_workspace host id)
