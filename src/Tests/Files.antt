-- ===== src/Tests/Files.antt =====
-- A checkout at /repo with the file /repo/a, on a machine that knows no other path.
use kanhrd.Base.{
  ℕ, ◌≡◌, ◌<◌, ◌≤◌, ◌⊎◌, inl, inr, refl, String, true, false, ◌&&◌, ◌||◌, Option, none, some, List,
  [], ◌∷◌, if◌then◌else◌, str_eq, includes, length, arith, Bool-cases, eq_iff, map, All,
}
use kanhrd.Files.Confine.{
  Paths, ConfinedPath, confined, outside, segments_of, absolute_of, confine_path,
}
use kanhrd.Files.Confine.Laws.{HasReadableAncestor, ResolvesTo, confine_path_sound}
use kanhrd.Files.Gate.{
  Machine, Claim, is_checkout, resolve_local_checkout, files_local_hint, git_agrees,
  resolve_local_checkout-files_local_hint,
}
use kanhrd.Files.Lookup.{
  RepoTree, entry, no_entry, unreadable, cache_limit, walk_for_git, clear_repo_cache,
}
use kanhrd.Files.Lookup.Laws.{is_unfinished, resolve_all, resolve_all_sound}
use kanhrd.Files.Status.{status}
use kanhrd.Files.Status.Laws.{entries_of, Holds, status-entries_of}
use kanhrd.Files.Reader.{Disk, file, content, text, read}
use kanhrd.Files.Reader.Laws.{IsTextAt, read-IsTextAt}

abbrev parent : String → String
parent p = if str_eq p "/repo/a" then "/repo" else "/"

abbrev size : String → ℕ
size p = if str_eq p "/repo/a" then 2 else if str_eq p "/" then 0 else 1

abbrev real : String → Option String
real p = if str_eq p "/repo/a" || str_eq p "/repo" then some p else none

abbrev paths : Paths
paths = record {
  real_path = real;
  dirname = parent;
  join = λ root segments. "/repo/a";
  relative = λ root p. "a";
  is_absolute = λ p. false;
  sep = "/";
  ends_with = λ s t. false;
  has_nul = λ s. false;
  split = λ s t. s ∷ [];
  join_slash = λ segments. "a";
}

up : (p : String) → (parent p ≡ p) ⊎ (size (parent p) < size p)
up p = elim (Bool-cases (str_eq p "/repo/a")) [
  | inl e ↦ rw ((eq_iff p "/repo/a").0 e) (inr (omega arith))
  | inr e ↦ elim (Bool-cases (str_eq p "/")) [
    | inl t ↦ rw ((eq_iff p "/").0 t) (inl refl)
    | inr t ↦ rw (e, t) (inr (omega arith))
  ]
]

confine_path_sound_example :
    (confine_path paths 5 "/repo" "a" ≡ outside)
    ⊎ ((c : ConfinedPath) × (confine_path paths 5 "/repo" "a" ≡ confined c)
        × (includes ".." (segments_of paths "a") ≡ false)
        × (includes ".git" (segments_of paths "a") ≡ false)
        × (c.abs ≡ absolute_of paths "/repo" (segments_of paths "a"))
        × HasReadableAncestor paths "/repo" c.abs
        × ResolvesTo paths "/repo" c)
confine_path_sound_example = confine_path_sound paths size up 5 "/repo" "a" (omega arith)

accepted :
    confine_path paths 5 "/repo" "a"
    ≡ confined (record { rel = "a"; abs = "/repo/a"; real = some "/repo/a" })
unfolding confine_path
accepted = refl

abbrev machine : Machine
machine = record {
  paths = paths;
  is_directory = λ p. str_eq p "/repo";
  top_level = λ cwd. some "/repo";
}

abbrev claim : Claim
claim = record { files_enabled = true; cwd = some "/repo"; checkout_path = some "/repo" }

resolve_local_checkout-files_local_hint_example :
    is_checkout (resolve_local_checkout machine claim)
    ≡ (files_local_hint machine claim && git_agrees machine (some "/repo") (some "/repo"))
resolve_local_checkout-files_local_hint_example =
    resolve_local_checkout-files_local_hint machine claim

-- A checkout at /repo, and a directory that may not be read.
abbrev tree : RepoTree
tree = record {
  git_entry = λ dir.
      if str_eq dir "/repo"
      then entry false
      else if str_eq dir "/locked"
      then unreadable
      else no_entry;
  dirname = parent;
  basename = λ dir. "repo";
  resolve = λ dir. dir;
}

abbrev directories : List String
directories = "/repo/a" ∷ "/locked" ∷ "/repo/a" ∷ []

resolve_all_sound_example :
    ((resolve_all tree 5 directories (clear_repo_cache [])).0
      ≡ map (λ cwd. walk_for_git tree 5 (tree.resolve cwd)) directories)
    × All (λ cwd. is_unfinished (walk_for_git tree 5 (tree.resolve cwd)) ≡ false) directories
    × (length (resolve_all tree 5 directories (clear_repo_cache [])).1 ≤ cache_limit)
resolve_all_sound_example =
    resolve_all_sound tree size up 5 directories [] (omega arith, (omega arith, (omega arith, tt)))

abbrev records : List String
records =
    "# branch.head main" ∷ "1 .M N... 100644 100644 100644 aa bb a file"
    ∷ "2 R. N... 100644 100644 100644 aa bb R100 new" ∷ "old" ∷ "? b" ∷ "" ∷ []

status-entries_of_example : Holds 2 (entries_of none records) (status (λ t. none) 2 records)
status-entries_of_example = status-entries_of (λ t. none) 2 records

abbrev disk : Disk
disk = record {
  paths = paths;
  stat = λ p. some (file 1 7);
  read_bytes = λ p n. some (104 ∷ 105 ∷ []);
  decode = λ bytes. some "hi";
}

read_file : read disk 5 10 "/repo" "a" ≡ content (text "a" 2 7 "hi")
unfolding read confine_path
read_file = refl

read-IsTextAt_example : IsTextAt disk 5 10 "/repo" "a" "a" 2 7 "hi"
read-IsTextAt_example = read-IsTextAt disk 5 10 "/repo" "a" "a" 2 7 "hi" read_file
