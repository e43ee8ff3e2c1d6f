-- ===== src/Files/Status/Laws.antt =====
-- The limited loop against the list of all entries.
use text.Mathlib.Text.{starts_with}
use kanhrd.Base.{
  ℕ, ◌≤◌, ◌≡◌, refl, inl, inr, String, Bool, true, false, ◌||◌, Option, none, some, List, [], ◌∷◌,
  ◌++◌, arith, if◌then◌else◌, ltb, str_eq, length, take, Bool-cases, subst, sym, length-append,
  append_assoc, append-nil, take-exact, take-all,
}
use kanhrd.Files.Status.{
  StatusEntry, Status, Parsed, entry, rename, skipped, parse_record, Turn, push_entry, take_parsed,
  turn, scan, status, pushed, full,
}

abbrev pub entry_of : Parsed → List StatusEntry
entry_of (entry e) = e ∷ []
entry_of (rename e) = []
entry_of skipped = []

abbrev pub waiting_of : Parsed → Option (String → StatusEntry)
waiting_of (entry e) = none
waiting_of (rename e) = some e
waiting_of skipped = none

abbrev pub is_no_entry : String → Bool
is_no_entry r = str_eq r "" || starts_with r "# "

-- All entries that the records hold, without a limit.
unfoldable pub entries_of : Option (String → StatusEntry) → List String → List StatusEntry
entries_of none [] = []
entries_of (some e) [] = e "" ∷ []
entries_of (some e) (r ∷ records) = e r ∷ entries_of none records
entries_of none (r ∷ records) =
    let later = entries_of (if is_no_entry r then none else waiting_of (parse_record r)) records in
    if is_no_entry r then later else entry_of (parse_record r) ++ later

-- An answer holds a limited part of some entries, and says whether any are missing.
abbrev pub Holds : ℕ → List StatusEntry → Status → Type 0
Holds limit es s = (s.entries ≡ take limit es) × (s.truncated ≡ ltb limit (length es))

-- One entry more, at the limit or below it, with the rest of the loop after it.
module _ (limit : ℕ) (s : Status) (e : StatusEntry) (later : List StatusEntry) where
  Holds-push :
      (loop : Turn → Status)
      → ((t : Turn) → t.stops ≡ true → loop t ≡ t.so_far)
      → length s.entries ≤ limit
      → (length (s.entries ++ e ∷ []) ≤ limit
          → Holds limit
              ((s.entries ++ e ∷ []) ++ later)
              (loop (record { so_far = pushed s e; waiting = none; stops = false })))
      → Holds limit (s.entries ++ e ∷ later) (loop (push_entry limit s e))
  Holds-push loop halts within next = elim (Bool-cases (ltb (length s.entries) limit)) [
    | inl below ↦ rw below (
        subst
          (λ l.
            Holds limit l (loop (record { so_far = pushed s e; waiting = none; stops = false })))
          (append_assoc s.entries (e ∷ []) later)
          (next (ground (arith, length-append s.entries (e ∷ [])))))
    | inr full_up ↦
        rw (full_up, halts (record { so_far = full s; waiting = none; stops = true }) refl)
          (
            sym (take-exact limit s.entries (e ∷ later) (ground arith)),
            ground (arith, length-append s.entries (e ∷ later)),
          )
  ]

Holds-last :
    (limit : ℕ) (s : Status) (e : StatusEntry)
    → s.truncated ≡ false
    → length s.entries ≤ limit
    → Holds limit (s.entries ++ e ∷ []) (push_entry limit s e).so_far
Holds-last limit s e open_ within = elim (Bool-cases (ltb (length s.entries) limit)) [
  | inl below ↦ rw below (
    sym (take-all limit (s.entries ++ e ∷ []) (ground (arith, length-append s.entries (e ∷ [])))),
    ground (arith, length-append s.entries (e ∷ [])),
  )
  | inr full_up ↦ rw full_up (
    sym (take-exact limit s.entries (e ∷ []) (ground arith)),
    ground (arith, length-append s.entries (e ∷ [])),
  )
]

module _ (counts : String → Option (ℕ × ℕ)) (limit : ℕ) (records : List String) where
  -- The loop is right on the rest of the records.
  abbrev IsRightAfter : Type 0
  IsRightAfter =
      (waiting : Option (String → StatusEntry)) (s : Status)
      → s.truncated ≡ false
      → length s.entries ≤ limit
      → Holds limit (s.entries ++ entries_of waiting records) (scan counts limit waiting records s)

  abbrev loop_on : Turn → Status
  loop_on t = if t.stops then t.so_far else scan counts limit t.waiting records t.so_far

  take_parsed-Holds :
      IsRightAfter
      → (p : Parsed) (s : Status) → s.truncated ≡ false
      → length s.entries ≤ limit
      → Holds limit
          (s.entries ++ (entry_of p ++ entries_of (waiting_of p) records))
          (loop_on (take_parsed limit s p))
  take_parsed-Holds right (entry e) s open_ within =
      Holds-push limit s e (entries_of none records) loop_on (λ t stop. rw stop) within
        (λ fits. right none (pushed s e) open_ fits)
  take_parsed-Holds right (rename e) s open_ within = right (some e) s open_ within
  take_parsed-Holds right skipped s open_ within = right none s open_ within

scan-Holds :
    (counts : String → Option (ℕ × ℕ)) (limit : ℕ) (waiting : Option (String → StatusEntry))
    (records : List String) (s : Status)
    → s.truncated ≡ false
    → length s.entries ≤ limit
    → Holds limit (s.entries ++ entries_of waiting records) (scan counts limit waiting records s)
unfolding scan entries_of turn
scan-Holds counts limit none [] s open_ within =
    rw (append-nil s.entries) (sym (take-all limit s.entries within), ground arith)
scan-Holds counts limit (some e) [] s open_ within = Holds-last limit s (e "") open_ within
scan-Holds counts limit (some e) (r ∷ records) s open_ within =
    Holds-push limit s (e r) (entries_of none records) (loop_on counts limit records)
      (λ t stop. rw stop) within
      (λ fits. scan-Holds counts limit none records (pushed s (e r)) open_ fits)
scan-Holds counts limit none (r ∷ records) s open_ within =
    let right : IsRightAfter counts limit records = λ w t. scan-Holds counts limit w records t in
    elim (Bool-cases (str_eq r "")) [
      | inl e ↦ rw e (right none s open_ within)
      | inr e ↦ elim (Bool-cases (starts_with r "# ")) [
        | inl f ↦ rw (e, f) (right none _ open_ within)
        | inr f ↦
            rw (e, f) (take_parsed-Holds counts limit records right (parse_record r) s open_ within)
      ]
    ]

-- The entries of a `repo.status` answer are the first of all that git's records hold, up to the
-- limit, and the answer is marked as truncated exactly if there are more.
pub status-entries_of :
    (counts : String → Option (ℕ × ℕ)) (limit : ℕ) (records : List String)
    → Holds limit (entries_of none records) (status counts limit records)
unfolding status
status-entries_of counts limit records = scan-Holds counts limit none records _ refl (omega arith)
