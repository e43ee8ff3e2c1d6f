-- ===== src/Output/Delta/Rebuild.antt =====
-- What a delta of apps/bridge/src/output/delta.ts promises its client.
use kanhrd.Base.{
  ℕ, zero, suc, ◌+◌, ◌-◌, ◌≤◌, ◌<◌, ◌≡◌, ◌≢◌, refl, ap, sym, ◌∙◌, true, inl, inr, some, [], ◌∷◌,
  length, get_elem?, take, drop, arith, Bool-cases, ◌==◌, ==_iff, length-take, length-drop,
  take-append-drop, and-eq-true,
}
use kanhrd.Output.Delta.{
  Text, delta_descriptor_bytes, slice, LineDelta, Best, text_eq, starts_with, checked_delta,
  best_of, line_delta, apply_line_delta,
}
use kanhrd.Output.Delta.Search.{EndsLine, IsLineStart, KeepsLines, best_of-KeepsLines}

pub text_eq-eq : (s t : Text) → text_eq s t ≡ true → s ≡ t
unfolding text_eq
text_eq-eq [] [] h = refl
text_eq-eq [] (d ∷ t) h = cc
text_eq-eq (c ∷ s) [] h = cc
text_eq-eq (c ∷ s) (d ∷ t) h =
    let both = and-eq-true (c == d) (text_eq s t) h in
    cc ((==_iff c d).0 both.0, text_eq-eq s t both.1)

-- What is known of a delta that passes the checks at the end of `lineDelta`.
record Passed (previous next : Text) (best : Best) (d : LineDelta) : Type 0 where
  dropped : d.drop ≡ best.drop
  kept : d.keep ≡ best.keep
  rest : d.tail ≡ drop best.keep next
  total : d.length ≡ length next
  some_kept : best.keep ≢ 0
  agrees :
      slice previous best.drop (best.drop + best.keep)
      ≡ take (length (slice previous best.drop (best.drop + best.keep))) next
  shrinks : length (drop best.keep next) + delta_descriptor_bytes < length next

checked_delta-Passed :
    (previous next : Text) (best : Best) (d : LineDelta)
    → checked_delta previous next best ≡ some d
    → Passed previous next best d
unfolding checked_delta starts_with
checked_delta-Passed previous next best d h =
    let prefix = slice previous best.drop (best.drop + best.keep) in
    elim (Bool-cases (text_eq (take (length prefix) next) prefix)) [
      | inl e ↦ record {
        dropped = ground arith;
        kept = ground arith;
        rest = ground arith;
        total = ground arith;
        some_kept = ground arith;
        agrees = sym (text_eq-eq _ _ e);
        shrinks = ground arith;
      }
      | inr e ↦ absurd (ground arith)
    ]

line_delta-Passed :
    (previous next : Text) (d : LineDelta)
    → line_delta previous next ≡ some d
    → Passed previous next (best_of previous next) d
unfolding line_delta
line_delta-Passed previous next d h = elim (Bool-cases (length previous == 0)) [
  | inl e ↦ absurd (ground arith)
  | inr e ↦ elim (Bool-cases (length next == 0)) [
    | inl f ↦ absurd (ground arith)
    | inr f ↦ checked_delta-Passed previous next (best_of previous next) d (ground arith)
  ]
]

-- Something is kept, so the end of what is kept stands behind a newline.
kept-EndsLine :
    (previous : Text) (best : Best)
    → best.keep ≢ 0
    → KeepsLines previous best
    → EndsLine previous (best.drop + best.keep)
kept-EndsLine previous best some_kept keeps = elim keeps.whole [
  | inl none_kept ↦ absurd (some_kept none_kept)
  | inr ends ↦ ends
]

length-slice :
    (text : Text) (from n : ℕ) → from + n ≤ length text → length (slice text from (from + n)) ≡ n
length-slice text from n h =
    omega (arith, length-take (from + n - from) (drop from text), length-drop from text)

-- The kept part of the previous snapshot is the beginning of the next one.
kept-eq-take :
    (previous next : Text) (d : LineDelta)
    → line_delta previous next ≡ some d
    → slice previous d.drop (d.drop + d.keep) ≡ take d.keep next
kept-eq-take previous next d h =
    let p = line_delta-Passed previous next d h in
    let best = best_of previous next in
    let ends = kept-EndsLine previous best p.some_kept (best_of-KeepsLines previous next) in
    let long = length-slice previous best.drop best.keep ends.within in
    rw (p.dropped, p.kept) (p.agrees ∙ ap (λ n. take n next) long)

-- Applying a delta that `lineDelta` returns to the snapshot that it was computed against gives the
-- next snapshot, exactly.
pub apply_line_delta-line_delta :
    (previous next : Text) (d : LineDelta)
    → line_delta previous next ≡ some d
    → apply_line_delta previous d.drop d.keep d.tail ≡ next
unfolding apply_line_delta
apply_line_delta-line_delta previous next d h =
    let p = line_delta-Passed previous next d h in
    let kept = kept-eq-take previous next d h in
    rw (kept, p.rest, ← p.kept) (take-append-drop d.keep next)

kept-le :
    (previous next : Text) (d : LineDelta)
    → line_delta previous next ≡ some d
    → d.keep ≤ length next
kept-le previous next d h =
    let p = line_delta-Passed previous next d h in
    let best = best_of previous next in
    let ends = kept-EndsLine previous best p.some_kept (best_of-KeepsLines previous next) in
    let long = length-slice previous best.drop best.keep ends.within in
    let same = ap (λ t. length {A = ℕ} t) (kept-eq-take previous next d h) in
    let at_best : length (slice previous d.drop (d.drop + d.keep)) ≡ best.keep =
      rw (p.dropped, p.kept) long in
    omega (arith, same, at_best, length-take d.keep next, p.kept)

-- A delta is smaller than the full frame: its tail and the 64 bytes of its descriptor stay below
-- the length of the next snapshot, which it states, and its tail is what follows the kept part.
pub line_delta_shrinks :
    (previous next : Text) (d : LineDelta)
    → line_delta previous next ≡ some d
    → (length d.tail + delta_descriptor_bytes < length next)
      × (d.length ≡ length next)
      × (length d.tail + d.keep ≡ length next)
line_delta_shrinks previous next d h =
    let p = line_delta-Passed previous next d h in
    let tail_length = ap (λ t. length {A = ℕ} t) p.rest in
    let n = length-drop (best_of previous next).keep next in
    (
      omega (arith, p.shrinks, tail_length),
      p.total,
      omega (arith, p.shrinks, tail_length, n, p.kept, kept-le previous next d h),
    )

get_elem?-take : (n i : ℕ) (text : Text) → i < n → get_elem? (take n text) i ≡ get_elem? text i
get_elem?-take zero i text h = absurd (omega arith)
get_elem?-take (suc n) i [] h = refl
get_elem?-take (suc n) zero (c ∷ text) h = refl
get_elem?-take (suc n) (suc i) (c ∷ text) h = get_elem?-take n i text (omega arith)

get_elem?-drop : (n i : ℕ) (text : Text) → get_elem? (drop n text) i ≡ get_elem? text (n + i)
get_elem?-drop zero i text = ap (get_elem? text) (omega arith)
get_elem?-drop (suc n) i [] = refl
get_elem?-drop (suc n) i (c ∷ text) =
    let e : suc n + i ≡ suc (n + i) = omega arith in
    get_elem?-drop n i text ∙ ap (get_elem? (c ∷ text)) (sym e)

get_elem?-slice :
    (text : Text) (from n i : ℕ)
    → i < n
    → get_elem? (slice text from (from + n)) i ≡ get_elem? text (from + i)
get_elem?-slice text from n i h =
    get_elem?-take (from + n - from) i (drop from text) (omega arith) ∙ get_elem?-drop from i text

-- What a delta keeps is not empty and falls on line boundaries: it begins at the start of a line of
-- the previous snapshot, and its last code unit is a newline in both snapshots.
pub line_delta-lines :
    (previous next : Text) (d : LineDelta)
    → line_delta previous next ≡ some d
    → (0 < d.keep)
      × IsLineStart previous d.drop
      × EndsLine previous (d.drop + d.keep)
      × EndsLine next d.keep
line_delta-lines previous next d h =
    let p = line_delta-Passed previous next d h in
    let best = best_of previous next in
    let keeps = best_of-KeepsLines previous next in
    let ends : EndsLine previous (d.drop + d.keep) =
      rw (p.dropped, p.kept) (kept-EndsLine previous best p.some_kept keeps) in
    let pos : 0 < d.keep = omega (arith, p.kept, p.some_kept) in
    let last : d.drop + (d.keep - 1) ≡ d.drop + d.keep - 1 = omega arith in
    (
      pos,
      rw p.dropped keeps.starts,
      ends,
      record {
        pos = pos;
        within = omega (arith, line_delta_shrinks previous next d h);
        ends =
            sym (get_elem?-take d.keep (d.keep - 1) next (omega arith))
            ∙ ap (λ t. get_elem? t (d.keep - 1)) (sym (kept-eq-take previous next d h))
            ∙ get_elem?-slice previous d.drop d.keep (d.keep - 1) (omega arith)
            ∙ ap (get_elem? previous) last
            ∙ ends.ends;
      },
    )
