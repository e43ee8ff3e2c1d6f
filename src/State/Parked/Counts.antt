-- ===== src/State/Parked/Counts.antt =====
-- The calls of apps/web/src/app/state/parked.store.ts, and the columns of each id counted.
use kanhrd.Base.{
  ℕ, zero, suc, ◌+◌, ◌≤◌, String, ◌≡◌, refl, some, List, [], ◌∷◌, ◌++◌, if◌then◌else◌, str_eq, ltb,
  Dict, arith, inl, inr, Bool-cases, Option-cases, AllValues, get_elem?, take, drop,
}
use kanhrd.Wire.{AgentStatus}
use kanhrd.State.Parked.{
  ExitRule, ParkedColumn, ParkedState, create_column, update_in, rename_column, set_exit_rule,
  remove_column, park, release_panes, apply_agent_status_changed, clear, insert_by_order,
  sort_columns, Delta, renumber, insert_at, shift, move_column,
}

-- How many columns have the id.
abbrev pub count : String → List ParkedColumn → ℕ
count x [] = 0
count x (c ∷ cs) = (if str_eq c.id x then 1 else 0) + count x cs

-- No two columns share an id, and every membership entry names a column that exists.
pub record IsConsistent (s : ParkedState) : Type 0 where
  pub distinct : (x : String) → count x s.columns ≤ 1
  pub known : AllValues (λ id. 1 ≤ count id s.columns) s.membership

-- The calls that change the store.
pub data Action : Type 0 where
  create : String → ExitRule → Action
  rename : String → String → Action
  set_rule : String → ExitRule → Action
  move : String → Delta → Action
  remove : String → Action
  park_at : String → String → Action
  release : List String → Action
  status_changed : String → AgentStatus → AgentStatus → Action
  clear_all : Action

unfoldable pub act : Action → ParkedState → ParkedState
unfolding create_column rename_column set_exit_rule move_column remove_column park release_panes
    apply_agent_status_changed clear
act (create name rule) s = create_column name rule s
act (rename id name) s = rename_column id name s
act (set_rule id rule) s = set_exit_rule id rule s
act (move id delta) s = move_column id delta s
act (remove id) s = remove_column id s
act (park_at key id) s = park key id s
act (release ks) s = release_panes ks s
act (status_changed key previous next) s = apply_agent_status_changed key previous next s
act clear_all s = clear s

unfoldable pub run : List Action → ParkedState → ParkedState
unfolding act
run [] s = s
run (a ∷ rest) s = run rest (act a s)

pub AllValues-weaken :
    {V : Type 0} {P Q : V → Type 0} (m : Dict V)
    → ((v : V) → P v → Q v)
    → AllValues P m
    → AllValues Q m
AllValues-weaken [] f h = tt
AllValues-weaken ((k, v) ∷ m) f (p, h) = (f v p, AllValues-weaken m f h)

pub count-append :
    (x : String) (xs ys : List ParkedColumn) → count x (xs ++ ys) ≡ count x xs + count x ys
count-append x [] ys = omega arith
count-append x (c ∷ xs) ys = omega (arith, count-append x xs ys)

count-take_drop :
    (x : String) (n : ℕ) (xs : List ParkedColumn)
    → count x (take n xs) + count x (drop n xs) ≡ count x xs
count-take_drop x zero xs = omega arith
count-take_drop x (suc n) [] = omega arith
count-take_drop x (suc n) (c ∷ xs) = omega (arith, count-take_drop x n xs)

pub count-update_in :
    (x id : String) (f : ParkedColumn → ParkedColumn) (cs : List ParkedColumn)
    → ((c : ParkedColumn) → (f c).id ≡ c.id)
    → count x (update_in id f cs) ≡ count x cs
count-update_in x id f [] h = refl
count-update_in x id f (c ∷ cs) h = ground (arith, count-update_in x id f cs h, h c)

count-insert_by_order :
    (x : String) (c : ParkedColumn) (cs : List ParkedColumn)
    → count x (insert_by_order c cs) ≡ count x (c ∷ cs)
unfolding insert_by_order
count-insert_by_order x c [] = refl
count-insert_by_order x c (d ∷ ds) = elim (Bool-cases (ltb d.order c.order)) [
  | inl e ↦ rw e (omega (arith, count-insert_by_order x c ds))
  | inr e ↦ rw e refl
]

pub count-sort_columns :
    (x : String) (cs : List ParkedColumn) → count x (sort_columns cs) ≡ count x cs
unfolding sort_columns
count-sort_columns x [] = refl
count-sort_columns x (c ∷ cs) =
    omega (arith, count-insert_by_order x c (sort_columns cs), count-sort_columns x cs)

pub count-renumber :
    (x : String) (i : ℕ) (cs : List ParkedColumn) → count x (renumber i cs) ≡ count x cs
count-renumber x i [] = refl
count-renumber x i (c ∷ cs) = omega (arith, count-renumber x (suc i) cs)

count-without :
    (x : String) (n : ℕ) (cs : List ParkedColumn) (c : ParkedColumn)
    → get_elem? cs n ≡ some c
    → count x (take n cs ++ drop (suc n) cs) + count x (c ∷ []) ≡ count x cs
count-without x n [] c h = absurd (ground arith)
count-without x zero (d ∷ cs) c h = ground (arith)
count-without x (suc n) (d ∷ cs) c h = omega (arith, count-without x n cs c h)

count-insert_at :
    (x : String) (i : ℕ) (c : ParkedColumn) (cs : List ParkedColumn)
    → count x (insert_at i c cs) ≡ count x (c ∷ cs)
count-insert_at x i c cs =
    omega (arith, count-append x (take i cs) (c ∷ drop i cs), count-take_drop x i cs)

pub count-shift :
    (x : String) (from to : ℕ) (cs : List ParkedColumn) → count x (shift from to cs) ≡ count x cs
count-shift x from to cs = elim (Option-cases (get_elem? cs from)) [
  | inl e ↦ rw (e, shift) refl
  | inr (c, e) ↦
      rw (e, shift)
        (omega (
          arith,
          count-insert_at x to c (take from cs ++ drop (suc from) cs),
          count-without x from cs c e,
        ))
]
