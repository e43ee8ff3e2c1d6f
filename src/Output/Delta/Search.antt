-- ===== src/Output/Delta/Search.antt =====
-- The loops of `lineDelta` in apps/bridge/src/output/delta.ts: the fuel is enough, and where the
-- offsets that they find stand.
use kanhrd.Base.{
  ℕ, zero, suc, ◌+◌, ◌-◌, ◌≤◌, ◌<◌, ◌≡◌, refl, ap, subst, ◌∙◌, Bool, true, false, ◌⊎◌, inl, inr,
  some, List, [], ◌∷◌, length, get_elem?, get_or, arith, Bool-cases, ◌==◌, ==_iff, ltb, dec_lt,
  if◌then◌else◌,
}
use kanhrd.Output.Delta.{
  Text, newline, Best, starts_after, line_starts, start_of, extends, extend_run, improve,
  search_lines, best_of, text_eq, line_of,
}

-- `p` is the offset behind a newline of `text`.
pub record EndsLine (text : Text) (p : ℕ) : Type 0 where
  pub pos : 0 < p
  pub within : p ≤ length text
  pub ends : get_elem? text (p - 1) ≡ some newline

-- `p` is the start of a line of `text`.
abbrev pub IsLineStart : Text → ℕ → Type 0
IsLineStart text p = (p ≡ 0) ⊎ EndsLine text p

-- The same, for a text that stands at offset `i`.
record EndsAt (i : ℕ) (text : Text) (p : ℕ) : Type 0 where
  pos : i < p
  within : p ≤ i + length text
  ends : get_elem? text (p - 1 - i) ≡ some newline

EndsAt-cons : (i c p : ℕ) (text : Text) → EndsAt (i + 1) text p → EndsAt i (c ∷ text) p
EndsAt-cons i c p text h =
    let e : p - 1 - i ≡ suc (p - 1 - (i + 1)) = omega (arith, h.pos) in
    record {
      pos = omega (arith, h.pos);
      within = omega (arith, h.within);
      ends = ap (get_elem? (c ∷ text)) e ∙ h.ends;
    }

-- One more code unit before the text: the offsets gain one in front, if it is a newline.
choose-EndsAt :
    (b : Bool) (i c : ℕ) (text : Text) (rest : List ℕ) (n d : ℕ)
    → (b ≡ true → c ≡ newline)
    → ((m : ℕ) → m < length rest → EndsAt (i + 1) text (get_or rest m d))
    → n < length (if b then (i + 1) ∷ rest else rest)
    → EndsAt i (c ∷ text) (get_or (if b then (i + 1) ∷ rest else rest) n d)
choose-EndsAt true i c text rest zero d is_newline later h =
    let e : i + 1 - 1 - i ≡ zero = omega arith in
    record {
      pos = omega arith;
      within = omega arith;
      ends = ap (get_elem? (c ∷ text)) e ∙ ap some (is_newline refl);
    }
choose-EndsAt true i c text rest (suc n) d is_newline later h =
    EndsAt-cons i c (get_or rest n d) text (later n (omega arith))
choose-EndsAt false i c text rest n d is_newline later h =
    EndsAt-cons i c (get_or rest n d) text (later n h)

starts_after-EndsAt :
    (i : ℕ) (text : Text) (n d : ℕ)
    → n < length (starts_after i text)
    → EndsAt i text (get_or (starts_after i text) n d)
unfolding starts_after
starts_after-EndsAt i [] n d h = absurd (omega arith)
starts_after-EndsAt i (c ∷ text) n d h =
    choose-EndsAt (c == newline) i c text (starts_after (i + 1) text) n d (==_iff c newline).0
      (λ m. starts_after-EndsAt (i + 1) text m d) h

-- Every start but the first stands behind a newline.
start_of-EndsLine :
    (text : Text) (n : ℕ)
    → suc n < length (line_starts text)
    → EndsLine text (start_of text (line_starts text) (suc n))
unfolding line_starts start_of
start_of-EndsLine text n h =
    let at : EndsAt 0 text (get_or (starts_after 0 text) n (length text)) =
      starts_after-EndsAt 0 text n (length text) (omega arith) in
    let p = get_or (starts_after 0 text) n (length text) in
    let e : p - 1 ≡ p - 1 - 0 = omega arith in
    record {
      pos = at.pos;
      within = omega (arith, at.within);
      ends = ap (get_elem? text) e ∙ at.ends;
    }

start_of-IsLineStart :
    (text : Text) (n : ℕ)
    → n < length (line_starts text)
    → IsLineStart text (start_of text (line_starts text) n)
unfolding line_starts start_of
start_of-IsLineStart text zero h = inl refl
start_of-IsLineStart text (suc n) h = inr (start_of-EndsLine text n h)

module _ (previous next : Text) (prev_starts next_starts : List ℕ) where
  extends_in_range :
      (k run : ℕ)
      → extends previous next prev_starts next_starts k run ≡ true
      → k + run < length prev_starts - 1
  unfolding extends
  extends_in_range k run h = ground arith

  -- The run of equal lines ends before the last line of the previous snapshot.
  pub extend_run_bound :
      (fuel k run : ℕ)
      → k + run ≤ length prev_starts - 1
      → k + extend_run previous next prev_starts next_starts fuel k run ≤ length prev_starts - 1
  unfolding extend_run
  extend_run_bound zero k run h = h
  extend_run_bound (suc fuel) k run h =
      elim (Bool-cases (extends previous next prev_starts next_starts k run)) [
        | inl e ↦ rw e (extend_run_bound fuel k (run + 1) (omega (arith, extends_in_range k run e)))
        | inr e ↦ rw e h
      ]

  -- With as much fuel as there are lines the loop ends by its own test.
  pub extend_run_stops :
      (fuel k run : ℕ)
      → length prev_starts ≤ fuel + (k + run)
      → extends previous next prev_starts next_starts k
          (extend_run previous next prev_starts next_starts fuel k run)
        ≡ false
  unfolding extend_run
  extend_run_stops zero k run h =
      elim (Bool-cases (extends previous next prev_starts next_starts k run)) [
        | inl e ↦ absurd (omega (arith, extends_in_range k run e))
        | inr e ↦ e
      ]
  extend_run_stops (suc fuel) k run h =
      elim (Bool-cases (extends previous next prev_starts next_starts k run)) [
        | inl e ↦ rw e (extend_run_stops fuel k (run + 1) (omega arith))
        | inr e ↦ rw e e
      ]

-- What the search has found so far keeps whole lines of the previous snapshot.
pub record KeepsLines (previous : Text) (best : Best) : Type 0 where
  pub starts : IsLineStart previous best.drop
  pub whole : (best.keep ≡ 0) ⊎ EndsLine previous (best.drop + best.keep)

-- The offset that ends a run, if anything is kept.
kept_end :
    (previous : Text) (drop end : ℕ)
    → IsLineStart previous end
    → (end - drop ≡ 0) ⊎ EndsLine previous (drop + (end - drop))
kept_end previous drop end (inl e) = inl (omega arith)
kept_end previous drop end (inr h) = elim (dec_lt drop end) [
  | yes lt ↦ inr (subst (EndsLine previous) (omega arith) h)
  | no ge ↦ inl (omega arith)
]

module _ (previous next : Text) (next_starts : List ℕ) where
  improve-KeepsLines :
      (k run : ℕ) (best : Best)
      → k + run < length (line_starts previous)
      → KeepsLines previous best
      → KeepsLines previous (improve previous next (line_starts previous) next_starts k run best)
  unfolding improve
  improve-KeepsLines k run best h keeps =
      let starts = line_starts previous in
      let found : Best = record {
        drop = start_of previous starts k;
        keep = start_of previous starts (k + run) - start_of previous starts k;
      } in
      let good : KeepsLines previous found = record {
        starts = start_of-IsLineStart previous k (omega arith);
        whole = kept_end previous _ _ (start_of-IsLineStart previous (k + run) h);
      } in
      elim (Bool-cases (ltb best.keep found.keep)) [ inl e ↦ rw e good | inr e ↦ rw e keeps ]

  search_lines-KeepsLines :
      (rounds k : ℕ) (best : Best)
      → rounds + k ≡ length (line_starts previous) - 1
      → KeepsLines previous best
      → KeepsLines previous
          (search_lines previous next (line_starts previous) next_starts rounds k best)
  unfolding search_lines
  search_lines-KeepsLines zero k best h keeps = keeps
  search_lines-KeepsLines (suc rounds) k best h keeps =
      let starts = line_starts previous in
      let run = extend_run previous next starts next_starts (length starts) k 0 in
      let bound : k + run ≤ length starts - 1 =
        extend_run_bound previous next starts next_starts (length starts) k 0 (omega arith) in
      let better = improve-KeepsLines k run best (omega arith) keeps in
      elim (Bool-cases (text_eq (line_of previous starts k) (line_of next next_starts 0))) [
        | inl same ↦ elim (Bool-cases (k + run == length starts - 1)) [
          | inl last ↦ rw (same, last) better
          | inr more ↦
              rw (same, more) (search_lines-KeepsLines rounds (k + 1) _ (omega arith) better)
        ]
        | inr other ↦ rw other (search_lines-KeepsLines rounds (k + 1) best (omega arith) keeps)
      ]

-- The search keeps whole lines of the previous snapshot.
pub best_of-KeepsLines : (previous next : Text) → KeepsLines previous (best_of previous next)
unfolding best_of
best_of-KeepsLines previous next =
    search_lines-KeepsLines previous next (line_starts next) (length (line_starts previous) - 1) 0
      (record { drop = 0; keep = 0 }) (omega arith) (record { starts = inl refl; whole = inl refl })
