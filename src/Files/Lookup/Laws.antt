-- ===== src/Files/Lookup/Laws.antt =====
-- The cache is bounded and tells what a fresh walk would tell.
use kanhrd.Base.{
  ℕ, zero, suc, ◌<◌, ◌≤◌, ◌≡◌, refl, ◌⊎◌, inl, inr, String, Bool, true, false, Option, some, none,
  List, [], ◌∷◌, arith, sym, map, All, lookup, insert, erase, length, Option-cases, eq_iff,
}
use kanhrd.Files.Lookup.{
  GitEntry, no_entry, entry, unreadable, RepoTree, Provenance, Cache, cache_limit, Walked,
  repository, no_repository, thrown, unfinished, found_at, walk_for_git, evicted, remember,
  cached_answer, resolve_repo, clear_repo_cache,
}

-- Every entry is what the walk finds.
abbrev pub IsFresh : RepoTree → ℕ → Cache → Type 0
IsFresh fs fuel [] = Unit
IsFresh fs fuel ((k, v) ∷ m) = (walk_for_git fs fuel k ≡ cached_answer v) × IsFresh fs fuel m

length-insert :
    (k : String) (v : Option Provenance) (m : Cache) → length (insert k v m) ≤ suc (length m)
unfolding insert
length-insert k v [] = omega arith
length-insert k v ((j, w) ∷ m) = ground (arith, length-insert k v m)

length-erase : (k : String) (m : Cache) → length (erase k m) ≤ length m
unfolding erase
length-erase k [] = omega arith
length-erase k ((j, w) ∷ m) = ground (arith, length-erase k m)

length-evicted : (m : Cache) → length m ≤ cache_limit → suc (length (evicted m)) ≤ cache_limit
unfolding erase
length-evicted [] h = ground arith
length-evicted ((k, v) ∷ m) h = ground (arith, length-erase k m, eq_iff k k)

IsFresh-insert :
    (fs : RepoTree) (fuel : ℕ) (k : String) (v : Option Provenance) (m : Cache)
    → walk_for_git fs fuel k ≡ cached_answer v
    → IsFresh fs fuel m
    → IsFresh fs fuel (insert k v m)
unfolding insert
IsFresh-insert fs fuel k v [] new h = (new, tt)
IsFresh-insert fs fuel k v ((j, w) ∷ m) new (old, h) =
    ground (arith, IsFresh-insert fs fuel k v m new h, eq_iff j k)

IsFresh-erase :
    (fs : RepoTree) (fuel : ℕ) (k : String) (m : Cache)
    → IsFresh fs fuel m
    → IsFresh fs fuel (erase k m)
unfolding erase
IsFresh-erase fs fuel k [] h = tt
IsFresh-erase fs fuel k ((j, w) ∷ m) (old, h) = ground (arith, IsFresh-erase fs fuel k m h)

IsFresh-evicted :
    (fs : RepoTree) (fuel : ℕ) (m : Cache) → IsFresh fs fuel m → IsFresh fs fuel (evicted m)
IsFresh-evicted fs fuel [] h = ground arith
IsFresh-evicted fs fuel ((k, v) ∷ m) h = ground (arith, IsFresh-erase fs fuel k ((k, v) ∷ m) h)

IsFresh-lookup :
    (fs : RepoTree) (fuel : ℕ) (k : String) (v : Option Provenance) (m : Cache)
    → IsFresh fs fuel m
    → lookup k m ≡ some v
    → walk_for_git fs fuel k ≡ cached_answer v
unfolding lookup
IsFresh-lookup fs fuel k v [] h e = absurd (ground arith)
IsFresh-lookup fs fuel k v ((j, w) ∷ m) (old, h) e =
    ground (arith, IsFresh-lookup fs fuel k v m h, eq_iff j k)

abbrev pub is_unfinished : Walked → Bool
is_unfinished unfinished = true
is_unfinished _ = false

-- Calls of `resolveRepo`, one after the other, with their answers.
unfoldable pub resolve_all : RepoTree → ℕ → List String → Cache → List Walked × Cache
unfolding resolve_repo
resolve_all fs fuel [] m = ([], m)
resolve_all fs fuel (cwd ∷ cwds) m =
    let first = resolve_repo fs fuel cwd m in
    let rest = resolve_all fs fuel cwds first.1 in (first.0 ∷ rest.0, rest.1)

-- A bounded cache of which every entry is what the walk finds.
record IsSound (fs : RepoTree) (fuel : ℕ) (m : Cache) : Type 0 where
  bounded : length m ≤ cache_limit
  fresh : IsFresh fs fuel m

remember-IsSound :
    (fs : RepoTree) (fuel : ℕ) (start : String) (m : Cache) (w : Walked)
    → walk_for_git fs fuel start ≡ w
    → IsSound fs fuel m
    → ((remember start m w).0 ≡ w) × IsSound fs fuel (remember start m w).1
remember-IsSound fs fuel start m (repository p) e h = (
  refl,
  record {
    bounded = omega (arith, length-insert start (some p) (evicted m), length-evicted m h.bounded);
    fresh = IsFresh-insert fs fuel start (some p) (evicted m) e (IsFresh-evicted fs fuel m h.fresh);
  },
)
remember-IsSound fs fuel start m no_repository e h = (
  refl,
  record {
    bounded = omega (arith, length-insert start none (evicted m), length-evicted m h.bounded);
    fresh = IsFresh-insert fs fuel start none (evicted m) e (IsFresh-evicted fs fuel m h.fresh);
  },
)
remember-IsSound fs fuel start m thrown e h = (refl, h)
remember-IsSound fs fuel start m unfinished e h = (refl, h)

resolve_repo-IsSound :
    (fs : RepoTree) (fuel : ℕ) (cwd : String) (m : Cache)
    → IsSound fs fuel m
    → ((resolve_repo fs fuel cwd m).0 ≡ walk_for_git fs fuel (fs.resolve cwd))
      × IsSound fs fuel (resolve_repo fs fuel cwd m).1
unfolding resolve_repo
resolve_repo-IsSound fs fuel cwd m h =
    let start = fs.resolve cwd in
    elim (Option-cases (lookup start m)) [
      | inr (v, e) ↦ rw e (sym (IsFresh-lookup fs fuel start v m h.fresh e), h)
      | inl e ↦ rw e (remember-IsSound fs fuel start m (walk_for_git fs fuel start) refl h)
    ]

resolve_all-IsSound :
    (fs : RepoTree) (fuel : ℕ) (cwds : List String) (m : Cache)
    → IsSound fs fuel m
    → ((resolve_all fs fuel cwds m).0 ≡ map (λ cwd. walk_for_git fs fuel (fs.resolve cwd)) cwds)
      × IsSound fs fuel (resolve_all fs fuel cwds m).1
unfolding resolve_all
resolve_all-IsSound fs fuel [] m h = (refl, h)
resolve_all-IsSound fs fuel (cwd ∷ cwds) m h =
    let (same, sound) = resolve_repo-IsSound fs fuel cwd m h in
    let (rest, kept) = resolve_all-IsSound fs fuel cwds (resolve_repo fs fuel cwd m).1 sound in
    (rw (same, rest) refl, kept)

module _ (fs : RepoTree) (size : String → ℕ) where
  walk_for_git_ends :
      ((p : String) → (fs.dirname p ≡ p) ⊎ (size (fs.dirname p) < size p))
      → (fuel : ℕ) (dir : String) → size dir < fuel
      → is_unfinished (walk_for_git fs fuel dir) ≡ false
  unfolding walk_for_git
  walk_for_git_ends up zero dir lt = absurd (omega arith)
  walk_for_git_ends up (suc fuel) dir lt = at (fs.git_entry dir) (elim (up dir) [
    | inl top ↦ inl top
    | inr below ↦ inr (walk_for_git_ends up fuel (fs.dirname dir) (omega (arith, below, lt)))
  ])
    where
      at :
          (e : GitEntry)
          → (fs.dirname dir ≡ dir) ⊎ (is_unfinished (walk_for_git fs fuel (fs.dirname dir)) ≡ false)
          → is_unfinished (found_at fs dir e (walk_for_git fs fuel (fs.dirname dir))) ≡ false
      at (entry is_file) o = refl
      at unreadable o = refl
      at no_entry (inl top) = ground (arith, eq_iff (fs.dirname dir) dir)
      at no_entry (inr ends) = ground arith

  -- On a file system that does not change, if the parent of a path is the path itself or is smaller by
  -- some measure, and there is more fuel than each directory measures: after `clearRepoCache`, any
  -- number of calls of `resolveRepo` answer, one by one, what a walk from the directory finds,
  -- whether they walk or read the cache; each walk ends; and the cache keeps at most 512 entries.
  pub resolve_all_sound :
      ((p : String) → (fs.dirname p ≡ p) ⊎ (size (fs.dirname p) < size p))
      → (fuel : ℕ) (cwds : List String) (before : Cache)
      → All (λ cwd. size (fs.resolve cwd) < fuel) cwds
      → ((resolve_all fs fuel cwds (clear_repo_cache before)).0
          ≡ map (λ cwd. walk_for_git fs fuel (fs.resolve cwd)) cwds)
        × All (λ cwd. is_unfinished (walk_for_git fs fuel (fs.resolve cwd)) ≡ false) cwds
        × (length (resolve_all fs fuel cwds (clear_repo_cache before)).1 ≤ cache_limit)
  unfolding clear_repo_cache
  resolve_all_sound up fuel cwds before lt =
      let (same, sound) =
        resolve_all-IsSound fs fuel cwds [] (record { bounded = omega arith; fresh = tt }) in
      (same, ends cwds lt, sound.bounded)
    where
      ends :
          (ds : List String)
          → All (λ cwd. size (fs.resolve cwd) < fuel) ds
          → All (λ cwd. is_unfinished (walk_for_git fs fuel (fs.resolve cwd)) ≡ false) ds
      ends [] h = tt
      ends (d ∷ ds) h = (walk_for_git_ends up fuel (fs.resolve d) h.0, ends ds h.1)
