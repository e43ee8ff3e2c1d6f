-- ===== src/State/Panes/Idempotent.antt =====
-- Which reducers of apps/web/src/app/state/panes.store.ts do the same when they are applied twice.
use kanhrd.Base.{
  String, ◌≡◌, refl, sym, ap, ◌∙◌, Bool, true, false, Option, none, some, List, [], ◌∷◌, Dict,
  lookup, ◌⊎◌, inl, inr, arith, Bool-cases, str_eq, if◌then◌else◌, unless, HasUniqueKeys,
}
use kanhrd.Wire.{Pane, WorkspaceSummary, TabSummary}
use kanhrd.State.Panes.Reducers.{pane_key, tab_in_workspace}
use kanhrd.State.Panes.Pointwise.{
  IsPointwise, put_at, drop_at, on_some, edit_at, insert-IsPointwise, erase-IsPointwise,
  erase_if-IsPointwise, id-IsPointwise, IsPointwise-comp, close_one-IsPointwise,
  set_tabs-IsPointwise, create_workspace-IsPointwise, create_tab-IsPointwise,
  close_tabs_of-IsPointwise,
}

-- Doing it twice is doing it once, for one value.
abbrev IsIdempotent : {V : Type 0} → (Option V → Option V) → Type 0
IsIdempotent {V} f = (o : Option V) → f (f o) ≡ f o

-- The two maps give the same under every key.
abbrev pub SameMap : {V : Type 0} → Dict V → Dict V → Type 0
SameMap m n = (k : String) → lookup k m ≡ lookup k n

pub twice :
    {V : Type 0} {op : Dict V → Dict V} (p : IsPointwise op)
    → ((k : String) → IsIdempotent (p.effect k))
    → (m : Dict V) → HasUniqueKeys m
    → SameMap (op (op m)) (op m)
twice {op} p idem m h k =
    p.at (op m) k (p.unique m h)
    ∙ ap (p.effect k) (p.at m k h)
    ∙ idem k (lookup k m)
    ∙ sym (p.at m k h)

module _ {V : Type 0} where
  pub put_at_idem : (k : String) (v : V) (j : String) → IsIdempotent (put_at k v j)
  put_at_idem k v j o = ground arith

  pub drop_at_idem : (k j : String) → IsIdempotent {V = V} (drop_at k j)
  drop_at_idem k j o = ground arith

  pub unless_idem : (p : V → Bool) → IsIdempotent (unless p)
  unless_idem p none = refl
  unless_idem p (some v) = ground arith

  pub on_some_idem : (f : V → V) → ((v : V) → f (f v) ≡ f v) → IsIdempotent (on_some f)
  on_some_idem f same none = refl
  on_some_idem f same (some v) = ap some (same v)

  pub edit_at_idem :
      (k : String) (f : V → V)
      → ((v : V) → f (f v) ≡ f v)
      → (j : String) → IsIdempotent (edit_at k f j)
  edit_at_idem k f same j o = elim (Bool-cases (str_eq k j)) [
    | inl e ↦ rw e (on_some_idem f same o)
    | inr e ↦ rw e
  ]

  -- An effect that forgets what was there, or leaves it.
  abbrev SetsOrSkips : (Option V → Option V) → Type 0
  SetsOrSkips f = ((o o' : Option V) → f o ≡ f o') ⊎ ((o : Option V) → f o ≡ o)

  pub SetsOrSkips-unless_idem :
      (p : V → Bool) (f : Option V → Option V) → SetsOrSkips f → IsIdempotent (λ o. f (unless p o))
  SetsOrSkips-unless_idem p f (inl sets) o = sets _ _
  SetsOrSkips-unless_idem p f (inr skips) o =
      skips _ ∙ ap (unless p) (skips (unless p o)) ∙ unless_idem p o ∙ sym (skips _)

put_at_hit :
    {V : Type 0} (k j : String) (v : V) (o : Option V) → str_eq k j ≡ true → put_at k v j o ≡ some v
put_at_hit k j v o h = rw h

put_at_miss :
    {V : Type 0} (k j : String) (v : V) (o : Option V) → str_eq k j ≡ false → put_at k v j o ≡ o
put_at_miss k j v o h = rw h

pub set_tabs-SetsOrSkips :
    (tabs : List TabSummary) (k : String) → SetsOrSkips ((set_tabs-IsPointwise tabs).effect k)
unfolding set_tabs-IsPointwise id-IsPointwise IsPointwise-comp insert-IsPointwise
set_tabs-SetsOrSkips [] k = inr (λ o. refl)
set_tabs-SetsOrSkips (t ∷ rest) k = elim (set_tabs-SetsOrSkips rest k) [
  | inl sets ↦ inl (λ o o'. sets _ _)
  | inr skips ↦ elim (Bool-cases (str_eq (pane_key t.host t.id) k)) [
    | inl e ↦ inl (λ o o'. ap ((set_tabs-IsPointwise rest).effect k) (
        put_at_hit (pane_key t.host t.id) k t o e
        ∙ sym (put_at_hit (pane_key t.host t.id) k t o' e)))
    | inr e ↦ inr (λ o. skips _ ∙ put_at_miss (pane_key t.host t.id) k t o e)
  ]
]

-- The effects of the parts of `pane.moved`.
pub move_workspaces_idem :
    (host : String) (w : Option WorkspaceSummary) (closed : Option String) (k : String)
    → IsIdempotent (
        (IsPointwise-comp
            (create_workspace-IsPointwise w)
            (close_one-IsPointwise host closed)).effect
          k)
unfolding IsPointwise-comp create_workspace-IsPointwise close_one-IsPointwise id-IsPointwise
    insert-IsPointwise erase-IsPointwise
move_workspaces_idem host none none k o = refl
move_workspaces_idem host none (some id) k o = drop_at_idem (pane_key host id) k o
move_workspaces_idem host (some w) none k o = put_at_idem (pane_key w.host w.id) w k o
move_workspaces_idem host (some w) (some id) k o = ground arith

pub move_tabs_idem :
    (host : String) (t : Option TabSummary) (w d : Option String) (k : String)
    → IsIdempotent (
        (IsPointwise-comp
            (IsPointwise-comp (create_tab-IsPointwise t) (close_tabs_of-IsPointwise host w))
            (close_one-IsPointwise host d)).effect
          k)
unfolding IsPointwise-comp create_tab-IsPointwise close_one-IsPointwise close_tabs_of-IsPointwise
    id-IsPointwise insert-IsPointwise erase-IsPointwise erase_if-IsPointwise
move_tabs_idem host none none none k o = refl
move_tabs_idem host none none (some id) k o = ground arith
move_tabs_idem host none (some w) none k o = unless_idem (tab_in_workspace host w) o
move_tabs_idem host none (some w) (some id) k none = ground arith
move_tabs_idem host none (some w) (some id) k (some v) = ground arith
move_tabs_idem host (some t) none none k o = ground arith
move_tabs_idem host (some t) none (some id) k o = ground arith
move_tabs_idem host (some t) (some w) none k none = ground arith
move_tabs_idem host (some t) (some w) none k (some v) = ground arith
move_tabs_idem host (some t) (some w) (some id) k none = ground arith
move_tabs_idem host (some t) (some w) (some id) k (some v) = ground arith

-- Renaming does not change which panes are renamed.
pub renamed_idem :
    (matches : Pane → Bool) (update : Pane → Pane)
    → ((p : Pane) → matches (update p) ≡ matches p)
    → ((p : Pane) → update (update p) ≡ update p)
    → (p : Pane)
    → (if matches (if matches p then update p else p)
        then update (if matches p then update p else p)
        else (if matches p then update p else p))
      ≡ (if matches p then update p else p)
renamed_idem matches update same idem p = elim (Bool-cases (matches p)) [
  | inl e ↦ rw e (rw (same p, e) (idem p))
  | inr e ↦ rw (e, e)
]
