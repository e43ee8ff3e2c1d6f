-- ===== src/PaneDetail/KeyBar/Sets.antt =====
-- The sets of modifiers of apps/web/src/app/pane-detail/key-bar-cells.ts hold nothing twice.
use kanhrd.Base.{
  ◌≡◌, refl, sym, ◌∙◌, subst, Bool, true, false, not, ◌||◌, List, [], ◌∷◌, ◌++◌, keep_if, arith,
  Bool-cases, inl, inr, or-eq-false, append_assoc, append-nil,
}
use kanhrd.PaneDetail.KeyBar.{
  Modifier, ctrl, alt, shift, meta, same_modifier, has, add, add_all, modifier_order, ordered,
}

-- No modifier stands twice.
abbrev pub IsDistinct : List Modifier → Type 0
IsDistinct [] = Unit
IsDistinct (m ∷ ms) = (has m ms ≡ false) × IsDistinct ms

same-sym : (m n : Modifier) → same_modifier m n ≡ same_modifier n m
same-sym m n = ground arith

has-append : (m : Modifier) (xs ys : List Modifier) → has m (xs ++ ys) ≡ (has m xs || has m ys)
has-append m [] ys = refl
has-append m (x ∷ xs) ys = ground (arith, has-append m xs ys)

has-keep_if :
    (p : Modifier → Bool) (m : Modifier) (xs : List Modifier)
    → has m xs ≡ false
    → has m (keep_if p xs) ≡ false
has-keep_if p m [] h = refl
has-keep_if p m (x ∷ xs) h =
    ground (arith, has-keep_if p m xs (or-eq-false (same_modifier x m) (has m xs) h).1)

IsDistinct-keep_if :
    (p : Modifier → Bool) (xs : List Modifier) → IsDistinct xs → IsDistinct (keep_if p xs)
IsDistinct-keep_if p [] h = h
IsDistinct-keep_if p (x ∷ xs) h = elim (Bool-cases (p x)) [
  | inl e ↦ rw e (has-keep_if p x xs h.0, IsDistinct-keep_if p xs h.1)
  | inr e ↦ rw e (IsDistinct-keep_if p xs h.1)
]

IsDistinct-snoc :
    (m : Modifier) (xs : List Modifier)
    → has m xs ≡ false
    → IsDistinct xs
    → IsDistinct (xs ++ m ∷ [])
IsDistinct-snoc m [] e h = (refl, tt)
IsDistinct-snoc m (x ∷ xs) e h = (
  ground (arith, has-append x xs (m ∷ []), h.0, same-sym x m),
  IsDistinct-snoc m xs (or-eq-false (same_modifier x m) (has m xs) e).1 h.1,
)

pub IsDistinct-add : (m : Modifier) (xs : List Modifier) → IsDistinct xs → IsDistinct (add m xs)
IsDistinct-add m xs h = elim (Bool-cases (has m xs)) [
  | inl e ↦ rw e h
  | inr e ↦ rw e (IsDistinct-snoc m xs e h)
]

pub IsDistinct-add_all : (ms xs : List Modifier) → IsDistinct xs → IsDistinct (add_all ms xs)
IsDistinct-add_all [] xs h = h
IsDistinct-add_all (m ∷ ms) xs h = IsDistinct-add_all ms (add m xs) (IsDistinct-add m xs h)

absent-front : (m : Modifier) (c ms : List Modifier) → IsDistinct (c ++ m ∷ ms) → has m c ≡ false
absent-front m [] ms h = refl
absent-front m (x ∷ c) ms h =
    ground (arith, has-append x c (m ∷ ms), h.0, same-sym x m, absent-front m c ms h.1)

-- Adding what is new appends it.
add_all-append : (ms c : List Modifier) → IsDistinct (c ++ ms) → add_all ms c ≡ c ++ ms
add_all-append [] c h = sym (append-nil c)
add_all-append (m ∷ ms) c h = rw (absent-front m c ms h) (
    add_all-append ms (c ++ m ∷ []) (subst (λ l. IsDistinct l) (sym (append_assoc c (m ∷ []) ms)) h)
    ∙ append_assoc c (m ∷ []) ms)

pub add_all-distinct : (ms : List Modifier) → IsDistinct ms → add_all ms [] ≡ ms
add_all-distinct ms h = add_all-append ms [] h

pub no_ctrl : (xs : List Modifier) → has ctrl (keep_if (λ m. not (has m modifier_order)) xs) ≡ false
no_ctrl [] = refl
no_ctrl (ctrl ∷ xs) = no_ctrl xs
no_ctrl (alt ∷ xs) = no_ctrl xs
no_ctrl (shift ∷ xs) = no_ctrl xs
no_ctrl (meta ∷ xs) = no_ctrl xs

pub no_alt : (xs : List Modifier) → has alt (keep_if (λ m. not (has m modifier_order)) xs) ≡ false
no_alt [] = refl
no_alt (ctrl ∷ xs) = no_alt xs
no_alt (alt ∷ xs) = no_alt xs
no_alt (shift ∷ xs) = no_alt xs
no_alt (meta ∷ xs) = no_alt xs

pub IsDistinct-ordered : (xs : List Modifier) → IsDistinct xs → IsDistinct (ordered xs)
IsDistinct-ordered xs h = elim (Bool-cases (has ctrl xs)) [
  | inl c ↦ elim (Bool-cases (has alt xs)) [
    | inl a ↦ rw (c, a) (no_ctrl xs, (no_alt xs, rest))
    | inr a ↦ rw (c, a) (no_ctrl xs, rest)
  ]
  | inr c ↦ elim (Bool-cases (has alt xs)) [
    | inl a ↦ rw (c, a) (no_alt xs, rest)
    | inr a ↦ rw (c, a) rest
  ]
]
  where
    rest : IsDistinct (keep_if (λ m. not (has m modifier_order)) xs)
    rest = IsDistinct-keep_if (λ m. not (has m modifier_order)) xs h

pub has-add :
    (m n : Modifier) (xs : List Modifier) → has m (add n xs) ≡ (same_modifier n m || has m xs)
has-add m n xs = elim (Bool-cases (has n xs)) [
  | inl e ↦ rw e (present n m xs e)
  | inr e ↦ rw e (ground (arith, has-append m xs (n ∷ [])))
]
  where
    present :
        (n m : Modifier) (xs : List Modifier)
        → has n xs ≡ true
        → has m xs ≡ (same_modifier n m || has m xs)
    present ctrl ctrl xs e = e
    present alt alt xs e = e
    present shift shift xs e = e
    present meta meta xs e = e
    present ctrl alt xs e = refl
    present ctrl shift xs e = refl
    present ctrl meta xs e = refl
    present alt ctrl xs e = refl
    present alt shift xs e = refl
    present alt meta xs e = refl
    present shift ctrl xs e = refl
    present shift alt xs e = refl
    present shift meta xs e = refl
    present meta ctrl xs e = refl
    present meta alt xs e = refl
    present meta shift xs e = refl

pub has-add_all :
    (m : Modifier) (ms xs : List Modifier) → has m (add_all ms xs) ≡ (has m ms || has m xs)
has-add_all m [] xs = refl
has-add_all m (n ∷ ms) xs = ground (arith, has-add_all m ms (add n xs), has-add m n xs)
