-- ===== src/State/Parked/Order.antt =====
-- `moveColumn` of apps/web/src/app/state/parked.store.ts: where the moved column lands.
use kanhrd.Base.{
  ℕ, zero, suc, ◌≤◌, ◌<◌, String, ◌≡◌, refl, ap, ◌∙◌, true, some, List, [], ◌∷◌, ◌++◌, str_eq, ◌==◌,
  ==_iff, arith, eq_iff, Bool-cases, Option-cases, get_elem?, take, drop, length, some_inj, inl,
  inr, length-append, length-take, length-drop,
}
use kanhrd.State.Parked.{
  ParkedColumn, ParkedState, Delta, left, right, insert_by_order, sort_columns, index_of,
  clamp_move, renumber, insert_at, shift, move_from, move_column, is_zero, ids_of,
}

-- The column at each place has an order of at least `i`, and they grow.
IsSortedFrom : ℕ → List ParkedColumn → Type 0
IsSortedFrom i [] = Unit
IsSortedFrom i (c ∷ cs) = (i ≤ c.order) × IsSortedFrom c.order cs

insert_first :
    (c : ParkedColumn) (cs : List ParkedColumn)
    → IsSortedFrom c.order cs
    → insert_by_order c cs ≡ c ∷ cs
unfolding IsSortedFrom insert_by_order
insert_first c [] h = refl
insert_first c (d ∷ ds) (h, _) = ground (arith)

sort-sorted : (i : ℕ) (cs : List ParkedColumn) → IsSortedFrom i cs → sort_columns cs ≡ cs
unfolding IsSortedFrom sort_columns
sort-sorted i [] h = refl
sort-sorted i (c ∷ cs) (p, h) =
    ap (insert_by_order c) (sort-sorted c.order cs h) ∙ insert_first c cs h

IsSortedFrom-weaken :
    (i j : ℕ) (cs : List ParkedColumn) → i ≤ j → IsSortedFrom j cs → IsSortedFrom i cs
unfolding IsSortedFrom
IsSortedFrom-weaken i j [] le h = tt
IsSortedFrom-weaken i j (c ∷ cs) le (p, h) = (omega arith, h)

renumber-IsSortedFrom : (i : ℕ) (cs : List ParkedColumn) → IsSortedFrom i (renumber i cs)
unfolding IsSortedFrom
renumber-IsSortedFrom i [] = tt
renumber-IsSortedFrom i (c ∷ cs) =
    (omega arith, IsSortedFrom-weaken i (suc i) _ (omega arith) (renumber-IsSortedFrom (suc i) cs))

ids-renumber : (i : ℕ) (cs : List ParkedColumn) → ids_of (renumber i cs) ≡ ids_of cs
ids-renumber i [] = refl
ids-renumber i (c ∷ cs) = ap (λ l. c.id ∷ l) (ids-renumber (suc i) cs)

get-insert_at :
    (i : ℕ) (c : ParkedColumn) (cs : List ParkedColumn)
    → i ≤ length cs
    → get_elem? (ids_of (insert_at i c cs)) i ≡ some c.id
get-insert_at zero c cs h = refl
get-insert_at (suc i) c [] h = absurd (omega arith)
get-insert_at (suc i) c (d ∷ cs) h = get-insert_at i c cs (omega arith)

-- The column at a place, which is within the list, with the id.
abbrev FoundAt : String → List ParkedColumn → ℕ → Type 0
FoundAt id cs n = (c : ParkedColumn) × (get_elem? cs n ≡ some c) × (c.id ≡ id) × (n < length cs)

FoundAt-first :
    (id : String) (c : ParkedColumn) (cs : List ParkedColumn) (n : ℕ)
    → 0 ≡ n
    → c.id ≡ id
    → FoundAt id (c ∷ cs) n
FoundAt-first id c cs zero z e = (c, refl, e, omega arith)
FoundAt-first id c cs (suc n) z e = absurd (omega arith)

FoundAt-next :
    (id : String) (c : ParkedColumn) (cs : List ParkedColumn) (i n : ℕ)
    → suc i ≡ n
    → FoundAt id cs i
    → FoundAt id (c ∷ cs) n
FoundAt-next id c cs i zero z f = absurd (omega arith)
FoundAt-next id c cs i (suc n) z (d, at, same, less) =
    (d, ap (get_elem? cs) (omega (arith, z)) ∙ at, same, omega arith)

index_of-found :
    (id : String) (cs : List ParkedColumn) (n : ℕ) → index_of id cs ≡ some n → FoundAt id cs n
index_of-found id [] n h = absurd (ground arith)
index_of-found id (c ∷ cs) n h = elim (Bool-cases (str_eq c.id id)) [
  | inl e ↦ FoundAt-first id c cs n (some_inj (rw e at h)) ((eq_iff c.id id).0 e)
  | inr e ↦ elim (Option-cases (index_of id cs)) [
    | inl absent ↦ absurd (ground arith)
    | inr (i, found) ↦
        FoundAt-next id c cs i n (some_inj (rw (e, found) at h)) (index_of-found id cs i found)
  ]
]

shift-lands :
    (from to : ℕ) (cs : List ParkedColumn) (c : ParkedColumn)
    → get_elem? cs from ≡ some c
    → from < length cs
    → to < length cs
    → get_elem? (ids_of (shift from to cs)) to ≡ some c.id
shift-lands from to cs c at less room =
    rw (at, shift)
      (get-insert_at to c (take from cs ++ drop (suc from) cs) (
        omega (
          arith,
          length-append (take from cs) (drop (suc from) cs),
          length-take from cs,
          length-drop (suc from) cs,
        )))

clamp-bound : (from n : ℕ) (delta : Delta) → from < n → clamp_move from delta n < n
clamp-bound from n (left d) h = omega arith
clamp-bound from n (right d) h = omega arith

clamp-zero :
    (from n : ℕ) (delta : Delta) → is_zero delta ≡ true → from < n → clamp_move from delta n ≡ from
clamp-zero from n (left d) z h = ground arith
clamp-zero from n (right d) z h = ground arith

get-ids :
    (cs : List ParkedColumn) (n : ℕ) (c : ParkedColumn)
    → get_elem? cs n ≡ some c
    → get_elem? (ids_of cs) n ≡ some c.id
get-ids [] n c h = absurd (ground arith)
get-ids (d ∷ cs) zero c h = ap (λ e. some e.id) (some_inj h)
get-ids (d ∷ cs) (suc n) c h = get-ids cs n c h

moved-lands :
    (id : String) (delta : Delta) (s : ParkedState) (from : ℕ)
    → FoundAt id (sort_columns s.columns) from
    → get_elem?
        (ids_of (sort_columns (move_from (some from) delta s).columns))
        (clamp_move from delta (length (sort_columns s.columns)))
      ≡ some id
moved-lands id delta s from (c, at, same, less) =
    elim (Bool-cases (clamp_move from delta (length (sort_columns s.columns)) == from)) [
      | inl e ↦ rw e (
          ap (get_elem? (ids_of (sort_columns s.columns))) ((==_iff _ _).0 e)
          ∙ get-ids (sort_columns s.columns) from c at
          ∙ ap some same)
      | inr e ↦ rw e (
          ap (λ l. get_elem? (ids_of l) (clamp_move from delta (length (sort_columns s.columns))))
            (sort-sorted 0
              (renumber 0 (
                shift from (clamp_move from delta (length (sort_columns s.columns)))
                  (sort_columns s.columns)))
              (renumber-IsSortedFrom 0 (
                shift from (clamp_move from delta (length (sort_columns s.columns)))
                  (sort_columns s.columns))))
          ∙ ap (λ l. get_elem? l (clamp_move from delta (length (sort_columns s.columns))))
              (ids-renumber 0 (
                shift from (clamp_move from delta (length (sort_columns s.columns)))
                  (sort_columns s.columns)))
          ∙ shift-lands from (clamp_move from delta (length (sort_columns s.columns)))
              (sort_columns s.columns) c at less
              (clamp-bound from (length (sort_columns s.columns)) delta less)
          ∙ ap some same)
    ]

-- A column that is at place `from` of the displayed order, when it is moved by an offset, is then
-- displayed at `from` plus the offset, clamped to the two ends.
pub move_column-lands :
    (id : String) (delta : Delta) (s : ParkedState) (from : ℕ)
    → index_of id (sort_columns s.columns) ≡ some from
    → get_elem?
        (ids_of (sort_columns (move_column id delta s).columns))
        (clamp_move from delta (length (sort_columns s.columns)))
      ≡ some id
unfolding move_column
move_column-lands id delta s from h =
    found-lands (index_of-found id (sort_columns s.columns) from h)
  where
    found-lands :
        FoundAt id (sort_columns s.columns) from
        → get_elem?
            (ids_of (sort_columns (move_column id delta s).columns))
            (clamp_move from delta (length (sort_columns s.columns)))
          ≡ some id
    found-lands (c, at, same, less) = elim (Bool-cases (is_zero delta)) [
      | inl z ↦
          rw (z, clamp-zero from (length (sort_columns s.columns)) delta z less)
            (get-ids (sort_columns s.columns) from c at ∙ ap some same)
      | inr z ↦ rw (z, h) (moved-lands id delta s from (c, at, same, less))
    ]
