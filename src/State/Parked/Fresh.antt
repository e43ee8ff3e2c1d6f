-- ===== src/State/Parked/Fresh.antt =====
-- `nextColumnId` and `createColumn` of apps/web/src/app/state/parked.store.ts always find an id.
use kanhrd.Base.{
  ℕ, zero, suc, ◌+◌, ◌≤◌, ◌<◌, max, String, ◌≡◌, refl, sym, ap, ◌∙◌, true, false, not, ◌&&◌, none,
  List, [], ◌∷◌, ◌++◌, str_eq, includes, keep_if, length, decimal, arith, eq_iff, Bool-cases,
  Option-cases, inl, inr, All,
}
use text.Mathlib.TextLemmas.{append_cancel_left, append-nil}
use kanhrd.Base.Text.Decimal.{decimal_injective}
use kanhrd.State.Parked.{
  ExitRule, ParkedColumn, ParkedState, ids_of, column_name, free_id, next_column_id, next_order,
  create_column,
}
use kanhrd.State.Parked.Membership.{free_id-fresh}

column_name_injective : (a b : ℕ) → column_name a ≡ column_name b → a ≡ b
column_name_injective a b h =
    decimal_injective a b
      (sym (append-nil (decimal a)) ∙ append_cancel_left "p" _ _ h ∙ append-nil (decimal b))

abbrev without : String → List String → List String
without x xs = keep_if (λ y. not (str_eq y x)) xs

includes-without :
    (y x : String) (xs : List String)
    → includes y (without x xs) ≡ (includes y xs && not (str_eq y x))
includes-without y x [] = refl
includes-without y x (z ∷ xs) = elim (Bool-cases (str_eq z y)) [
  | inl e ↦ ground (arith, includes-without y x xs, ap (λ w. str_eq w x) ((eq_iff z y).0 e))
  | inr e ↦ ground (arith, includes-without y x xs)
]

length-without-le : (x : String) (xs : List String) → length (without x xs) ≤ length xs
length-without-le x [] = omega arith
length-without-le x (z ∷ xs) = ground (arith, length-without-le x xs)

length-without :
    (x : String) (xs : List String) → includes x xs ≡ true → length (without x xs) < length xs
length-without x [] h = absurd (ground arith)
length-without x (z ∷ xs) h = ground (arith, length-without-le x xs, length-without x xs)

-- A name that comes before those that are tried does not matter.
free_id-without :
    (fuel m n : ℕ) (taken : List String)
    → n < m
    → free_id fuel m (without (column_name n) taken) ≡ free_id fuel m taken
unfolding free_id
free_id-without zero m n taken h = refl
free_id-without (suc fuel) m n taken h = ground (
  arith,
  free_id-without fuel (suc m) n taken (omega arith),
  includes-without (column_name m) (column_name n) taken,
  other,
)
  where
    other : str_eq (column_name m) (column_name n) ≡ false
    other = elim (Bool-cases (str_eq (column_name m) (column_name n))) [
      | inl e ↦ absurd (omega (arith, column_name_injective m n ((eq_iff _ _).0 e)))
      | inr e ↦ e
    ]

-- A search that finds nothing has tried no more names than are taken.
free_id-none :
    (fuel n : ℕ) (taken : List String) → free_id fuel n taken ≡ none → fuel ≤ length taken
unfolding free_id
free_id-none zero n taken h = omega arith
free_id-none (suc fuel) n taken h = elim (Bool-cases (includes (column_name n) taken)) [
  | inl e ↦ omega (
    arith,
    length-without (column_name n) taken e,
    free_id-none fuel (suc n) (without (column_name n) taken)
        (free_id-without fuel (suc n) n taken (omega arith) ∙ rw (e, free_id) at h),
  )
  | inr e ↦ absurd (ground arith)
]

length-ids_of : (cs : List ParkedColumn) → length (ids_of cs) ≡ length cs
length-ids_of [] = refl
length-ids_of (c ∷ cs) = ap suc (length-ids_of cs)

next_order-le : (m : ℕ) (cs : List ParkedColumn) → m ≤ next_order m cs
next_order-le m [] = omega arith
next_order-le m (c ∷ cs) = omega (arith, next_order-le (max m (c.order + 1)) cs)

next_order-above :
    (m : ℕ) (cs : List ParkedColumn) (n : ℕ) → next_order m cs ≤ n → All (λ c. c.order < n) cs
next_order-above m [] n h = tt
next_order-above m (c ∷ cs) n h = (
  omega (arith, next_order-le (max m (c.order + 1)) cs),
  next_order-above (max m (c.order + 1)) cs n h,
)

-- What `createColumn` appends.
pub record Creates (name : String) (rule : ExitRule) (s after : ParkedState) : Type 0 where
  pub column : ParkedColumn
  pub appended : after.columns ≡ s.columns ++ column ∷ []
  pub fresh : includes column.id (ids_of s.columns) ≡ false
  pub named : column.name ≡ name
  pub ruled : column.exit_rule ≡ rule
  pub rightmost : All (λ c. c.order < column.order) s.columns
  pub membership : after.membership ≡ s.membership

-- Creating a column always appends one, whatever columns there are: with the name and the rule, an id
-- that no other column has, and an order above all others; the membership stays.
pub create_column-Creates :
    (name : String) (rule : ExitRule) (s : ParkedState)
    → Creates name rule s (create_column name rule s)
unfolding create_column next_column_id
create_column-Creates name rule s = elim (Option-cases (next_column_id s.columns)) [
  | inl e ↦ absurd (
      omega (
        arith,
        free_id-none (suc (length s.columns)) 1 (ids_of s.columns) e,
        length-ids_of s.columns,
      ))
  | inr (id, e) ↦ rw e (record {
    column = record { id = id; name = name; exit_rule = rule; order = next_order 0 s.columns };
    appended = refl;
    fresh = free_id-fresh (suc (length s.columns)) 1 (ids_of s.columns) id e;
    named = refl;
    ruled = refl;
    rightmost = next_order-above 0 s.columns (next_order 0 s.columns) (omega arith);
    membership = refl;
  })
]
