-- ===== src/PaneDetail/KeyBar/Ranks.antt =====
-- The order that `foldModifiers` of apps/web/src/app/pane-detail/key-bar-cells.ts gives to modifiers.
use kanhrd.Base.{ℕ, ◌≤◌, ◌≡◌, refl, not, List, [], ◌∷◌, keep_if, All, arith, Bool-cases, inl, inr}
use kanhrd.PaneDetail.KeyBar.{Modifier, ctrl, alt, shift, meta, has, modifier_order, ordered}
use kanhrd.PaneDetail.KeyBar.Sets.{no_ctrl, no_alt}

others : List Modifier → List Modifier
others xs = keep_if (λ m. not (has m modifier_order)) xs

has-others-shift : (xs : List Modifier) → has shift (others xs) ≡ has shift xs
unfolding others
has-others-shift [] = refl
has-others-shift (ctrl ∷ xs) = has-others-shift xs
has-others-shift (alt ∷ xs) = has-others-shift xs
has-others-shift (shift ∷ xs) = refl
has-others-shift (meta ∷ xs) = has-others-shift xs

has-others-meta : (xs : List Modifier) → has meta (others xs) ≡ has meta xs
unfolding others
has-others-meta [] = refl
has-others-meta (ctrl ∷ xs) = has-others-meta xs
has-others-meta (alt ∷ xs) = has-others-meta xs
has-others-meta (shift ∷ xs) = has-others-meta xs
has-others-meta (meta ∷ xs) = refl

-- Sorting neither drops nor adds a modifier.
pub has-ordered : (m : Modifier) (xs : List Modifier) → has m (ordered xs) ≡ has m xs
unfolding others
has-ordered ctrl xs = elim (Bool-cases (has ctrl xs)) [
  | inl c ↦ rw c refl
  | inr c ↦ elim (Bool-cases (has alt xs)) [
    | inl a ↦ rw (c, a) (no_ctrl xs)
    | inr a ↦ rw (c, a) (no_ctrl xs)
  ]
]
has-ordered alt xs = elim (Bool-cases (has ctrl xs)) [
  | inl c ↦ elim (Bool-cases (has alt xs)) [
    | inl a ↦ rw (c, a) refl
    | inr a ↦ rw (c, a) (no_alt xs)
  ]
  | inr c ↦ elim (Bool-cases (has alt xs)) [
    | inl a ↦ rw (c, a) refl
    | inr a ↦ rw (c, a) (no_alt xs)
  ]
]
has-ordered shift xs = elim (Bool-cases (has ctrl xs)) [
  | inl c ↦ elim (Bool-cases (has alt xs)) [
    | inl a ↦ rw (c, a) (has-others-shift xs)
    | inr a ↦ rw (c, a) (has-others-shift xs)
  ]
  | inr c ↦ elim (Bool-cases (has alt xs)) [
    | inl a ↦ rw (c, a) (has-others-shift xs)
    | inr a ↦ rw (c, a) (has-others-shift xs)
  ]
]
has-ordered meta xs = elim (Bool-cases (has ctrl xs)) [
  | inl c ↦ elim (Bool-cases (has alt xs)) [
    | inl a ↦ rw (c, a) (has-others-meta xs)
    | inr a ↦ rw (c, a) (has-others-meta xs)
  ]
  | inr c ↦ elim (Bool-cases (has alt xs)) [
    | inl a ↦ rw (c, a) (has-others-meta xs)
    | inr a ↦ rw (c, a) (has-others-meta xs)
  ]
]

-- `ctrl` before `alt` before the others.
abbrev pub rank : Modifier → ℕ
rank ctrl = 0
rank alt = 1
rank shift = 2
rank meta = 2

abbrev pub IsRanked : List Modifier → Type 0
IsRanked [] = Unit
IsRanked (m ∷ ms) = All (λ n. rank m ≤ rank n) ms × IsRanked ms

last_ranks : (k : ℕ) (xs : List Modifier) → k ≤ 2 → All (λ n. k ≤ rank n) (others xs)
unfolding others
last_ranks k [] h = tt
last_ranks k (ctrl ∷ xs) h = last_ranks k xs h
last_ranks k (alt ∷ xs) h = last_ranks k xs h
last_ranks k (shift ∷ xs) h = (h, last_ranks k xs h)
last_ranks k (meta ∷ xs) h = (h, last_ranks k xs h)

others-IsRanked : (xs : List Modifier) → IsRanked (others xs)
unfolding others
others-IsRanked [] = tt
others-IsRanked (ctrl ∷ xs) = others-IsRanked xs
others-IsRanked (alt ∷ xs) = others-IsRanked xs
others-IsRanked (shift ∷ xs) = (last_ranks 2 xs (omega arith), others-IsRanked xs)
others-IsRanked (meta ∷ xs) = (last_ranks 2 xs (omega arith), others-IsRanked xs)

pub IsRanked-ordered : (xs : List Modifier) → IsRanked (ordered xs)
unfolding others
IsRanked-ordered xs = elim (Bool-cases (has ctrl xs)) [
  | inl c ↦ elim (Bool-cases (has alt xs)) [
    | inl a ↦
        rw (c, a)
          (
            (omega arith, last_ranks 0 xs (omega arith)),
            (last_ranks 1 xs (omega arith), others-IsRanked xs),
          )
    | inr a ↦ rw (c, a) (last_ranks 0 xs (omega arith), others-IsRanked xs)
  ]
  | inr c ↦ elim (Bool-cases (has alt xs)) [
    | inl a ↦ rw (c, a) (last_ranks 1 xs (omega arith), others-IsRanked xs)
    | inr a ↦ rw (c, a) (others-IsRanked xs)
  ]
]
