-- ===== src/Output/Delta.antt =====
-- apps/bridge/src/output/delta.ts: the delta that rebuilds one pane snapshot from the one before it.
-- A text is the list of its UTF-16 code units. The `while` loop recurs on fuel, which
-- `Delta/Search` shows to be enough; the `for` loop recurs on its rounds.
pub mod Search
pub mod Rebuild
use kanhrd.Base.{
  ℕ, zero, suc, ◌+◌, ◌-◌, Bool, true, false, ◌&&◌, not, Option, none, some, List, [], ◌∷◌, ◌++◌,
  length, get_or, take, drop, ltb, leb, ◌==◌, if◌then◌else◌,
}

abbrev pub Text : Type 0
Text = List ℕ

-- `'\n'`
abbrev pub newline : ℕ
newline = 10

abbrev pub delta_descriptor_bytes : ℕ
delta_descriptor_bytes = 64

pub record LineDelta : Type 0 where
  pub drop : ℕ
  pub keep : ℕ
  pub tail : Text
  pub length : ℕ

-- `===` on two texts
unfoldable pub text_eq : Text → Text → Bool
text_eq [] [] = true
text_eq (c ∷ s) (d ∷ t) = c == d && text_eq s t
text_eq _ _ = false

-- `text.slice(from, to)` at offsets that are not negative
abbrev pub slice : Text → ℕ → ℕ → Text
slice text from to = take (to - from) (drop from text)

-- `text.startsWith(prefix)`
unfoldable pub starts_with : Text → Text → Bool
unfolding text_eq
starts_with text prefix = text_eq (take (length prefix) text) prefix

-- The offset behind each newline of a text that stands at offset `i`.
unfoldable pub starts_after : ℕ → Text → List ℕ
starts_after i [] = []
starts_after i (c ∷ text) =
    let rest = starts_after (i + 1) text in if c == newline then (i + 1) ∷ rest else rest

unfoldable pub line_starts : Text → List ℕ
unfolding starts_after
line_starts text = 0 ∷ starts_after 0 text

unfoldable pub start_of : Text → List ℕ → ℕ → ℕ
start_of text starts i = get_or starts i (length text)

unfoldable pub line_of : Text → List ℕ → ℕ → Text
unfolding start_of
line_of text starts i =
    slice text (start_of text starts i)
      (if ltb (i + 1) (length starts) then start_of text starts (i + 1) - 1 else length text)

-- The `(bestDrop, bestKeep)` of the search.
pub record Best : Type 0 where
  pub drop : ℕ
  pub keep : ℕ

module _ (previous next : Text) (prev_starts next_starts : List ℕ) where
  -- The test of the inner `while`: one more whole line is the same in both.
  unfoldable pub extends : ℕ → ℕ → Bool
  unfolding line_of text_eq
  extends k run =
      ltb (k + run) (length prev_starts - 1)
      && ltb run (length next_starts - 1)
      && text_eq (line_of previous prev_starts (k + run)) (line_of next next_starts run)

  unfoldable pub extend_run : ℕ → ℕ → ℕ → ℕ
  extend_run zero k run = run
  extend_run (suc fuel) k run =
      let longer = extend_run fuel k (run + 1) in if extends k run then longer else run

  -- One round of the `for`, for a line `k` that is the first line of `next`.
  unfoldable pub improve : ℕ → ℕ → Best → Best
  unfolding start_of
  improve k run best =
      let drop = start_of previous prev_starts k in
      let keep = start_of previous prev_starts (k + run) - drop in
      if ltb best.keep keep then record { drop = drop; keep = keep } else best

  unfoldable pub search_lines : ℕ → ℕ → Best → Best
  search_lines zero k best = best
  search_lines (suc rounds) k best =
      let skipped = search_lines rounds (k + 1) best in
      let run = extend_run (length prev_starts) k 0 in
      let better = improve k run best in
      let next_round = search_lines rounds (k + 1) better in
      if not (text_eq (line_of previous prev_starts k) (line_of next next_starts 0))
      then skipped
      else if k + run == length prev_starts - 1
      then better
      else next_round

-- What is returned once the search has ended.
unfoldable pub checked_delta : Text → Text → Best → Option LineDelta
unfolding starts_with
checked_delta previous next best =
    if best.keep == 0
    then none
    else if not (starts_with next (slice previous best.drop (best.drop + best.keep)))
    then none
    else if leb (length next) (length (drop best.keep next) + delta_descriptor_bytes)
    then none
    else some (record {
      drop = best.drop;
      keep = best.keep;
      tail = drop best.keep next;
      length = length next;
    })

unfoldable pub best_of : Text → Text → Best
unfolding line_starts extends extend_run improve search_lines line_of text_eq
best_of previous next =
    let prev_starts = line_starts previous in
    search_lines previous next prev_starts (line_starts next) (length prev_starts - 1) 0
      (record { drop = 0; keep = 0 })

unfoldable pub line_delta : Text → Text → Option LineDelta
line_delta previous next =
    if length previous == 0
    then none
    else if length next == 0
    then none
    else checked_delta previous next (best_of previous next)

unfoldable pub apply_line_delta : Text → ℕ → ℕ → Text → Text
apply_line_delta previous drop keep tail = slice previous drop (drop + keep) ++ tail
