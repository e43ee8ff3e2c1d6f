-- ===== src/Files/Reader/Listing/Laws.antt =====
-- What a directory's answer holds: the first entries up to the cap, once each, in order.
use kanhrd.Base.{
  ℕ, ◌+◌, ◌≤◌, ◌≡◌, refl, inl, inr, String, Bool, true, false, not, List, [], ◌∷◌, ◌++◌, map, arith,
  if◌then◌else◌, ltb, str_eq, length, length-append, append_assoc, append-nil, take-exact, take,
  take-all, keep_if, Bool-cases, subst, sym,
}
use kanhrd.Files.Reader.Listing.{
  Dirent, TreeEntry, fill, query_of, mark_ignored, comes_before, insert_entry, sort_entries,
  tree_of,
}

abbrev pub listable : List Dirent → List Dirent
listable = keep_if (λ d. not (str_eq d.name ".git"))

-- The entries up to the cap, and whether there are more.
abbrev pub Caps : ℕ → List TreeEntry → List TreeEntry × Bool → Type 0
Caps cap es r = (r.0 ≡ take cap es) × (r.1 ≡ ltb cap (length es))

fill-Caps :
    (cap : ℕ) (entry : Dirent → TreeEntry) (dirents : List Dirent) (entries : List TreeEntry)
    → length entries ≤ cap
    → Caps cap (entries ++ map entry (listable dirents)) (fill cap entry dirents entries)
unfolding fill
fill-Caps cap entry [] entries within =
    rw (append-nil entries) (sym (take-all cap entries within), ground arith)
fill-Caps cap entry (d ∷ dirents) entries within = elim (Bool-cases (str_eq d.name ".git")) [
  | inl e ↦ rw e (fill-Caps cap entry dirents entries within)
  | inr e ↦ elim (Bool-cases (ltb (length entries) cap)) [
    | inl below ↦
        rw (e, below)
          (subst (λ l. Caps cap l (fill cap entry dirents (entries ++ entry d ∷ [])))
            (append_assoc entries (entry d ∷ []) (map entry (listable dirents)))
            (fill-Caps cap entry dirents (entries ++ entry d ∷ [])
              (ground (arith, length-append entries (entry d ∷ [])))))
    | inr full ↦
        rw (e, full)
          (
            sym (take-exact cap entries (entry d ∷ map entry (listable dirents)) (ground arith)),
            ground (arith, length-append entries (entry d ∷ map entry (listable dirents))),
          )
  ]
]

-- How many entries have a name.
unfoldable pub times : String → List TreeEntry → ℕ
times n [] = 0
times n (e ∷ es) = (if str_eq e.name n then 1 else 0) + times n es

times-mark_ignored :
    (n : String) (matched : List String) (es : List TreeEntry)
    → times n (mark_ignored matched es) ≡ times n es
unfolding mark_ignored times
times-mark_ignored n matched [] = refl
times-mark_ignored n matched (e ∷ es) = omega (arith, times-mark_ignored n matched es)

module _ (less : String → String → Bool) where
  times-insert_entry :
      (n : String) (e : TreeEntry) (es : List TreeEntry)
      → times n (insert_entry less e es) ≡ (if str_eq e.name n then 1 else 0) + times n es
  unfolding insert_entry times
  times-insert_entry n e [] = refl
  times-insert_entry n e (f ∷ fs) = elim (Bool-cases (comes_before less e f)) [
    | inl b ↦ rw b
    | inr b ↦ rw b (omega (arith, times-insert_entry n e fs))
  ]

  times-sort_entries :
      (n : String) (es : List TreeEntry) → times n (sort_entries less es) ≡ times n es
  unfolding sort_entries times
  times-sort_entries n [] = refl
  times-sort_entries n (e ∷ es) =
      omega (arith, times-insert_entry n e (sort_entries less es), times-sort_entries n es)

  -- Each entry may stand before the next.
  unfoldable pub IsOrdered : List TreeEntry → Type 0
  IsOrdered [] = Unit
  IsOrdered (e ∷ []) = Unit
  IsOrdered (e ∷ f ∷ fs) = (comes_before less e f ≡ true) × IsOrdered (f ∷ fs)

  module _ (asym : (a b : String) → less a b ≡ true → less b a ≡ false) where
    comes_before_total :
        (a b : TreeEntry) → comes_before less a b ≡ false → comes_before less b a ≡ true
    comes_before_total a b h = ground (arith, asym a.name b.name, asym b.name a.name)

    insert_entry-IsOrdered :
        (e : TreeEntry) (es : List TreeEntry) → IsOrdered es → IsOrdered (insert_entry less e es)
    unfolding insert_entry IsOrdered
    insert_entry-IsOrdered e [] h = tt
    insert_entry-IsOrdered e (f ∷ []) h = elim (Bool-cases (comes_before less e f)) [
      | inl b ↦ rw b (b, tt)
      | inr b ↦ rw b (comes_before_total e f b, tt)
    ]
    insert_entry-IsOrdered e (f ∷ g ∷ fs) (fg, h) = elim (Bool-cases (comes_before less e f)) [
      | inl b ↦ rw b (b, (fg, h))
      | inr b ↦
          let deeper : IsOrdered (insert_entry less e (g ∷ fs)) =
            insert_entry-IsOrdered e (g ∷ fs) h in
          elim (Bool-cases (comes_before less e g)) [
            | inl c ↦ rw (b, c) (comes_before_total e f b, rw c at deeper)
            | inr c ↦ rw (b, c) (fg, rw c at deeper)
          ]
    ]

    sort_entries-IsOrdered : (es : List TreeEntry) → IsOrdered (sort_entries less es)
    unfolding sort_entries IsOrdered
    sort_entries-IsOrdered [] = tt
    sort_entries-IsOrdered (e ∷ es) =
        insert_entry-IsOrdered e (sort_entries less es) (sort_entries-IsOrdered es)

    -- For an order of names, a directory's answer is in order, directories first; it holds each name
    -- as often as the first `cap` entries of the directory other than `.git`; and it is marked as
    -- truncated exactly if there are more of them.
    pub tree_of_complete :
        (check_ignore : List String → List String) (entry : Dirent → TreeEntry) (cap : ℕ)
        (dirents : List Dirent)
        → IsOrdered (tree_of less check_ignore entry cap dirents).0
          × ((name : String)
              → times name (tree_of less check_ignore entry cap dirents).0
                ≡ times name (take cap (map entry (listable dirents))))
          × ((tree_of less check_ignore entry cap dirents).1
              ≡ ltb cap (length (map entry (listable dirents))))
    unfolding tree_of
    tree_of_complete check_ignore entry cap dirents =
        let (same, more) = fill-Caps cap entry dirents [] (omega arith) in
        let entries = (fill cap entry dirents []).0 in
        let matched = check_ignore (map query_of entries) in
        (
          sort_entries-IsOrdered (mark_ignored matched entries),
          (λ n. rw (times-sort_entries, times-mark_ignored, same)),
          more,
        )
