-- ===== src/Files/Confine/Laws.antt =====
-- What an accepted path may be, and that the walk ends.
use text.Mathlib.Text.{starts_with}
use kanhrd.Base.{
  ℕ, zero, suc, ◌<◌, ◌≡◌, refl, ◌⊎◌, inl, inr, String, Bool, true, false, not, ◌&&◌, ◌||◌, Option,
  none, some, arith, str_eq, includes, Bool-cases, Option-cases, eq_iff, ◌≢◌, subst, sym,
  or-eq-false,
}
use kanhrd.Files.Confine.{
  Paths, ConfinedPath, Confined, confined, outside, unfinished, is_inside, touches_git_dir,
  segments_of, absolute_of, answer, walk, confine_path, verdict,
}

-- A real path inside the root and off git's own directory.
abbrev pub is_readable : Paths → String → String → Bool
is_readable fs root real =
    is_inside fs root real && not (touches_git_dir fs (fs.relative root real))

abbrev pub resolves_readable : Paths → String → Option String → Bool
resolves_readable fs root none = false
resolves_readable fs root (some real) = is_readable fs root real

-- The path that the walk stands on after some rounds.
unfoldable pub ancestor : Paths → ℕ → String → String
ancestor fs zero p = p
ancestor fs (suc n) p = ancestor fs n (fs.dirname p)

-- Nothing exists at a path and at its next ancestors, so many in all.
abbrev pub IsMissing : Paths → ℕ → String → Type 0
IsMissing fs zero p = Unit
IsMissing fs (suc n) p = (fs.real_path p ≡ none) × IsMissing fs n (fs.dirname p)

-- The nearest ancestor that exists, which may be the path itself, is one that may be read.
abbrev pub HasReadableAncestor : Paths → String → String → Type 0
HasReadableAncestor fs root p =
    (n : ℕ) × IsMissing fs n p × (resolves_readable fs root (fs.real_path (ancestor fs n p)) ≡ true)

abbrev pub ResolvesTo : Paths → String → ConfinedPath → Type 0
ResolvesTo fs root c =
    (c.real ≡ none) ⊎ ((c.real ≡ fs.real_path c.abs) × (resolves_readable fs root c.real ≡ true))

confined_inj : {c d : ConfinedPath} → confined c ≡ confined d → c ≡ d
confined_inj h = cc

verdict-readable :
    (fs : Paths) (root rel abs probe real : String) (c : ConfinedPath)
    → verdict fs root rel abs probe real ≡ confined c
    → is_readable fs root real ≡ true
verdict-readable fs root rel abs probe real c h = ground arith

verdict-ResolvesTo :
    (fs : Paths) (root rel abs probe real : String) (c : ConfinedPath)
    → fs.real_path probe ≡ some real
    → verdict fs root rel abs probe real ≡ confined c
    → ResolvesTo fs root c
verdict-ResolvesTo fs root rel abs probe real c e h = ground (arith, eq_iff probe abs)

walk-ancestor :
    (fs : Paths) (root rel abs : String) (fuel : ℕ) (probe : String) (c : ConfinedPath)
    → walk fs root rel abs fuel probe ≡ confined c
    → HasReadableAncestor fs root probe × ResolvesTo fs root c × (c.abs ≡ abs)
unfolding walk ancestor
walk-ancestor fs root rel abs zero probe c h = absurd (ground arith)
walk-ancestor fs root rel abs (suc fuel) probe c h = elim (Option-cases (fs.real_path probe)) [
  | inl e ↦ elim (Bool-cases (str_eq (fs.dirname probe) probe)) [
    | inl t ↦ absurd (ground arith)
    | inr t ↦
        let ((n, missing, ok), real, at_abs) =
          walk-ancestor fs root rel abs fuel (fs.dirname probe) c (rw (e, answer, t) at h) in
        ((suc n, (e, missing), ok), real, at_abs)
  ]
  | inr (real, e) ↦
      let v : verdict fs root rel abs probe real ≡ confined c = rw e at h in
      (
        (0, tt, rw e (verdict-readable fs root rel abs probe real c v)),
        verdict-ResolvesTo fs root rel abs probe real c e v,
        ground arith,
      )
]

-- A path that `confinePath` accepts is the root joined with its segments, none of which is `..` or
-- `.git`; the nearest ancestor of it that exists, itself included, resolves to a path inside the root and outside git's directory; and the
-- real path it is read by is absent or is that of the path itself, with the same guarantee.
pub confine_path_safe :
    (fs : Paths) (fuel : ℕ) (root input : String) (c : ConfinedPath)
    → confine_path fs fuel root input ≡ confined c
    → (includes ".." (segments_of fs input) ≡ false)
      × (includes ".git" (segments_of fs input) ≡ false)
      × (c.abs ≡ absolute_of fs root (segments_of fs input))
      × HasReadableAncestor fs root c.abs
      × ResolvesTo fs root c
unfolding confine_path
confine_path_safe fs fuel root input c h =
    let segments = segments_of fs input in
    let abs = absolute_of fs root segments in
    elim (Bool-cases (fs.has_nul input || (fs.is_absolute input || starts_with input "/"))) [
      | inl e ↦ absurd (ground arith)
      | inr e ↦ elim (Bool-cases (includes ".." segments || includes ".git" segments)) [
        | inl t ↦ absurd (ground arith)
        | inr t ↦
            let (anc, res, same) =
              walk-ancestor fs root (fs.join_slash segments) abs fuel abs c (rw (e, t) at h) in
            let (dots, git) = or-eq-false _ _ t in
            (dots, git, same, subst (HasReadableAncestor fs root) (sym same) anc, res)
      ]
    ]

module _ (fs : Paths) (size : String → ℕ) where
  walk_finishes :
      ((p : String) → (fs.dirname p ≡ p) ⊎ (size (fs.dirname p) < size p))
      → (root rel abs : String) (fuel : ℕ) (probe : String) → size probe < fuel
      → walk fs root rel abs fuel probe ≢ unfinished
  unfolding walk
  walk_finishes up root rel abs zero probe lt h = omega arith
  walk_finishes up root rel abs (suc fuel) probe lt h = elim (up probe) [
    | inl top ↦ ground (arith, eq_iff (fs.dirname probe) probe)
    | inr below ↦
        ground
          (arith, walk_finishes up root rel abs fuel (fs.dirname probe) (omega (arith, below, lt)))
  ]

  -- If the parent of a path is the path itself or is smaller by some measure, then `confinePath` ends
  -- with an answer within as many rounds as the measure of the joined path, and one more.
  pub confine_path_terminates :
      ((p : String) → (fs.dirname p ≡ p) ⊎ (size (fs.dirname p) < size p))
      → (fuel : ℕ) (root input : String) → size (absolute_of fs root (segments_of fs input)) < fuel
      → confine_path fs fuel root input ≢ unfinished
  unfolding confine_path
  confine_path_terminates up fuel root input lt h =
      let segments = segments_of fs input in
      let abs = absolute_of fs root segments in
      ground (arith, walk_finishes up root (fs.join_slash segments) abs fuel abs lt)

  -- If the parent of a path is the path itself or is smaller by some measure, and there are more rounds
  -- than the joined path measures, then `confinePath` ends: it refuses the path, or it accepts the root
  -- joined with the path's segments, none of which is `..` or `.git`. Then the first of that path and
  -- its ancestors that exists resolves inside the root and outside git's directory, nothing exists
  -- before it, and so does the real path that it is read by, which is absent or that of the path.
  pub confine_path_sound :
      ((p : String) → (fs.dirname p ≡ p) ⊎ (size (fs.dirname p) < size p))
      → (fuel : ℕ) (root input : String) → size (absolute_of fs root (segments_of fs input)) < fuel
      → (confine_path fs fuel root input ≡ outside)
        ⊎ ((c : ConfinedPath) × (confine_path fs fuel root input ≡ confined c)
            × (includes ".." (segments_of fs input) ≡ false)
            × (includes ".git" (segments_of fs input) ≡ false)
            × (c.abs ≡ absolute_of fs root (segments_of fs input))
            × HasReadableAncestor fs root c.abs
            × ResolvesTo fs root c)
  confine_path_sound up fuel root input lt = go (confine_path fs fuel root input) refl
    where
      go :
          (v : Confined)
          → confine_path fs fuel root input ≡ v
          → (v ≡ outside)
            ⊎ ((c : ConfinedPath) × (v ≡ confined c)
                × (includes ".." (segments_of fs input) ≡ false)
                × (includes ".git" (segments_of fs input) ≡ false)
                × (c.abs ≡ absolute_of fs root (segments_of fs input))
                × HasReadableAncestor fs root c.abs
                × ResolvesTo fs root c)
      go outside e = inl refl
      go unfinished e = absurd (confine_path_terminates up fuel root input lt e)
      go (confined c) e =
          let (dots, git, at_abs, anc, res) = confine_path_safe fs fuel root input c e in
          inr (c, refl, dots, git, at_abs, anc, res)
