-- ===== src/State/Panes/Placing.antt =====
-- One turn of the loop of `groupIntoColumns` of apps/web/src/app/state/panes.store.ts.
use kanhrd.Base.{
  String, some_inj, ◌≡◌, refl, sym, ap, ◌∙◌, Bool, false, ◌&&◌, not, Option, none, some, List, [],
  ◌∷◌, ◌++◌, if◌then◌else◌, str_eq, Dict, lookup, insert, includes, keep_if, arith, eq_iff, is_some,
  ◌⊎◌, inl, inr, Bool-cases, Option-cases, lookup-insert, append-nil,
}
use kanhrd.Wire.{AgentStatus, Pane, status_eq}
use kanhrd.State.Panes.Reducers.{pane_key}
use kanhrd.State.Panes.Columns.{
  Filters, live_column, is_filtered_out, BoardColumns, StatusColumns, column, push_status,
  empty_buckets, bucket_at, push_bucket, place,
}

-- The parked column in which a card is shown, if any.
abbrev pub home : Dict String → List String → Pane → Option String
home membership live pane = live_column (lookup (pane_key pane.host pane.id) membership) live

abbrev pub is_here : Option String → String → Bool
is_here none id = false
is_here (some j) id = str_eq j id

abbrev pub shows_in_status : Filters → Dict String → List String → AgentStatus → Pane → Bool
shows_in_status filters membership live s pane =
    not (is_filtered_out pane filters membership live)
    && (not (is_some (home membership live pane)) && status_eq pane.agent_status s)

abbrev pub shows_in_parked : Filters → Dict String → List String → String → Pane → Bool
shows_in_parked filters membership live id pane =
    not (is_filtered_out pane filters membership live) && is_here (home membership live pane) id

-- The buckets are those of the live columns.
unfoldable pub Covers : List String → Dict (List Pane) → Type 0
Covers ids parked = (id : String) → is_some (lookup id parked) ≡ includes id ids

pub keep_if-cons {ℓ} :
    {A : Type ℓ} (p : A → Bool) (x : A) (xs : List A)
    → keep_if p (x ∷ xs) ≡ keep_if p (x ∷ []) ++ keep_if p xs
keep_if-cons p x xs = elim (Bool-cases (p x)) [ inl e ↦ rw e refl | inr e ↦ rw e refl ]

bucket_of :
    (ids : List String) (parked : Dict (List Pane)) (o : Option String)
    → Covers ids parked
    → ((live_column o ids ≡ none) × (bucket_at o parked ≡ none))
      ⊎ ((id : String) × (b : List Pane) × (live_column o ids ≡ some id)
          × (bucket_at o parked ≡ some (id, b))
          × (lookup id parked ≡ some b))
unfolding Covers
bucket_of ids parked none h = inl (refl, refl)
bucket_of ids parked (some id) h = elim (Option-cases (lookup id parked)) [
  | inl e ↦ inl (ground (arith, h id), rw (e, bucket_at) refl)
  | inr (b, e) ↦ inr (id, b, ground (arith, h id), rw (e, bucket_at) refl, e)
]

is_some-insert :
    (j : String) (b b' : List Pane) (m : Dict (List Pane)) (id : String)
    → lookup j m ≡ some b
    → is_some (lookup id (insert j b' m)) ≡ is_some (lookup id m)
is_some-insert j b b' m id h = ground (arith, lookup-insert j id b' m, eq_iff j id)

pub lookup-empty_buckets :
    (ids : List String) (m : Dict (List Pane)) (id : String)
    → lookup id (empty_buckets ids m) ≡ (if includes id ids then some [] else lookup id m)
lookup-empty_buckets [] m id = refl
lookup-empty_buckets (j ∷ ids) m id = ground (
  arith,
  lookup-empty_buckets ids (insert j [] m) id,
  lookup-insert j id [] m,
  eq_iff j id,
  eq_iff id j,
)

pub empty_buckets-Covers : (ids : List String) → Covers ids (empty_buckets ids [])
unfolding Covers lookup
empty_buckets-Covers ids id = ground (arith, lookup-empty_buckets ids [] id)

push_bucket-Covers :
    (ids : List String) (o : Option String) (pane : Pane) (c : BoardColumns)
    → Covers ids c.parked
    → Covers ids (push_bucket (bucket_at o c.parked) pane c).parked
unfolding Covers
push_bucket-Covers ids o pane c h id = elim (bucket_of ids c.parked o h) [
  | inl (e, b) ↦ rw b (h id)
  | inr (j, b, e, at, found) ↦ rw at (is_some-insert j b _ c.parked id found ∙ h id)
]

pub place-Covers :
    (f : Filters) (m : Dict String) (ids : List String) (pane : Pane) (c : BoardColumns)
    → Covers ids c.parked
    → Covers ids (place f m ids pane c).parked
unfolding place
place-Covers f m ids pane c h = elim (Bool-cases (is_filtered_out pane f m ids)) [
  | inl e ↦ rw e h
  | inr e ↦ rw e (push_bucket-Covers ids (lookup (pane_key pane.host pane.id) m) pane c h)
]

column-push_status :
    (s t : AgentStatus) (pane : Pane) (c : StatusColumns)
    → column s (push_status t pane c) ≡ column s c ++ (if status_eq t s then pane ∷ [] else [])
column-push_status AgentStatus.idle AgentStatus.idle pane c = refl
column-push_status AgentStatus.idle AgentStatus.working pane c = sym (append-nil _)
column-push_status AgentStatus.idle AgentStatus.blocked pane c = sym (append-nil _)
column-push_status AgentStatus.idle AgentStatus.done pane c = sym (append-nil _)
column-push_status AgentStatus.idle AgentStatus.unknown pane c = sym (append-nil _)
column-push_status AgentStatus.working AgentStatus.idle pane c = sym (append-nil _)
column-push_status AgentStatus.working AgentStatus.working pane c = refl
column-push_status AgentStatus.working AgentStatus.blocked pane c = sym (append-nil _)
column-push_status AgentStatus.working AgentStatus.done pane c = sym (append-nil _)
column-push_status AgentStatus.working AgentStatus.unknown pane c = sym (append-nil _)
column-push_status AgentStatus.blocked AgentStatus.idle pane c = sym (append-nil _)
column-push_status AgentStatus.blocked AgentStatus.working pane c = sym (append-nil _)
column-push_status AgentStatus.blocked AgentStatus.blocked pane c = refl
column-push_status AgentStatus.blocked AgentStatus.done pane c = sym (append-nil _)
column-push_status AgentStatus.blocked AgentStatus.unknown pane c = sym (append-nil _)
column-push_status AgentStatus.done AgentStatus.idle pane c = sym (append-nil _)
column-push_status AgentStatus.done AgentStatus.working pane c = sym (append-nil _)
column-push_status AgentStatus.done AgentStatus.blocked pane c = sym (append-nil _)
column-push_status AgentStatus.done AgentStatus.done pane c = refl
column-push_status AgentStatus.done AgentStatus.unknown pane c = sym (append-nil _)
column-push_status AgentStatus.unknown AgentStatus.idle pane c = sym (append-nil _)
column-push_status AgentStatus.unknown AgentStatus.working pane c = sym (append-nil _)
column-push_status AgentStatus.unknown AgentStatus.blocked pane c = sym (append-nil _)
column-push_status AgentStatus.unknown AgentStatus.done pane c = sym (append-nil _)
column-push_status AgentStatus.unknown AgentStatus.unknown pane c = refl

pub place-status :
    (f : Filters) (m : Dict String) (ids : List String) (s : AgentStatus) (pane : Pane)
    (c : BoardColumns)
    → Covers ids c.parked
    → column s (place f m ids pane c).status
      ≡ column s c.status ++ keep_if (shows_in_status f m ids s) (pane ∷ [])
unfolding place
place-status f m ids s pane c h = elim (Bool-cases (is_filtered_out pane f m ids)) [
  | inl e ↦ rw e (sym (append-nil _))
  | inr e ↦ elim (bucket_of ids c.parked (lookup (pane_key pane.host pane.id) m) h) [
    | inl (none_live, b) ↦
        rw (e, none_live, b) (column-push_status s pane.agent_status pane c.status)
    | inr (j, b, live, at, found) ↦ rw (e, live, at) (sym (append-nil _))
  ]
]

pushed-lookup :
    (j id : String) (b cards : List Pane) (pane : Pane) (m : Dict (List Pane))
    → lookup j m ≡ some b
    → lookup id m ≡ some cards
    → lookup id (insert j (b ++ pane ∷ []) m)
      ≡ some (cards ++ (if str_eq j id then pane ∷ [] else []))
pushed-lookup j id b cards pane m found has = elim (Bool-cases (str_eq j id)) [
  | inl e ↦ rw e (
      lookup-insert j id (b ++ pane ∷ []) m
      ∙ rw e (
          ap (λ l. some (l ++ pane ∷ []))
            (some_inj (sym found ∙ ap (λ k. lookup k m) ((eq_iff j id).0 e) ∙ has))))
  | inr e ↦ rw e (lookup-insert j id (b ++ pane ∷ []) m ∙ rw e (has ∙ ap some (sym (append-nil _))))
]

pub place-parked :
    (f : Filters) (m : Dict String) (ids : List String) (id : String) (pane : Pane)
    (c : BoardColumns) (cards : List Pane)
    → Covers ids c.parked
    → lookup id c.parked ≡ some cards
    → lookup id (place f m ids pane c).parked
      ≡ some (cards ++ keep_if (shows_in_parked f m ids id) (pane ∷ []))
unfolding place
place-parked f m ids id pane c cards h has = elim (Bool-cases (is_filtered_out pane f m ids)) [
  | inl e ↦ rw e (has ∙ ap some (sym (append-nil _)))
  | inr e ↦ elim (bucket_of ids c.parked (lookup (pane_key pane.host pane.id) m) h) [
    | inl (none_live, b) ↦ rw (e, none_live, b) (has ∙ ap some (sym (append-nil _)))
    | inr (j, b, live, at, found) ↦
        rw (e, live, at) (pushed-lookup j id b cards pane c.parked found has)
  ]
]
