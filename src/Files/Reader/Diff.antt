-- ===== src/Files/Reader/Diff.antt =====
-- `diff`, `baseTree` and `listsAs` of apps/bridge/src/files/reader.ts. Git's runs are a parameter.
use kanhrd.Base.{
  ℕ, String, Bool, true, false, not, ◌&&◌, Option, none, some, List, [], ◌∷◌, if◌then◌else◌, ltb,
  str_eq, ◌++◌, ◌==◌,
}
use kanhrd.Files.Confine.{Confined, confined, outside, unfinished}
use kanhrd.Files.Reader.{
  Node, file, directory, other, FileError, path_outside_checkout, not_found, not_a_file,
  file_too_large, io_error, walk_unfinished,
}

-- `RepoDiffChange`
pub data Change : Type 0 where
  modified : Change
  added : Change
  deleted : Change
  type_changed : Change
  untracked : Change
  ignored : Change
  unchanged : Change

-- A run of git that did not fail: its output and whether it was cut.
pub record Output : Type 0 where
  pub stdout : String
  pub is_cut : Bool
  pub code : ℕ

-- `this.git(root, args, okCodes, maxBytes)`, none if it throws; the text up to the last line end; and
-- whether a patch is git's message on binary files.
pub record Runner : Type 0 where
  pub git : List String → List ℕ → ℕ → Option Output
  pub first_letter : String → Option String
  pub to_last_line : String → String
  pub is_binary_notice : String → Bool
  pub trim : String → String

-- `BridgeMethodResult['repo.diff']`
pub record Diff : Type 0 where
  pub path : String
  pub change : Change
  pub binary : Bool
  pub diff : String
  pub truncated : Bool

pub data DiffResult : Type 0 where
  answer : Diff → DiffResult
  failed : FileError → DiffResult
  git_failed : DiffResult

abbrev pub status_max_bytes : ℕ
status_max_bytes = 16777216

abbrev plain : String → Change → Diff
plain rel change = record {
  path = rel;
  change = change;
  binary = false;
  diff = "";
  truncated = false;
}

-- The letter of `--name-status`; a letter that the table lacks is a modification.
unfoldable pub tracked_change : String → Change
tracked_change letter =
    if str_eq letter "A"
    then added
    else if str_eq letter "D"
    then deleted
    else if str_eq letter "T"
    then type_changed
    else modified

abbrev pub is_unchanged : Change → Bool
is_unchanged unchanged = true
is_unchanged ignored = true
is_unchanged modified = false
is_unchanged added = false
is_unchanged deleted = false
is_unchanged type_changed = false
is_unchanged untracked = false

abbrev pub is_modified : Change → Bool
is_modified modified = true
is_modified added = false
is_modified deleted = false
is_modified type_changed = false
is_modified untracked = false
is_modified ignored = false
is_modified unchanged = false

abbrev diff_flags : List String
diff_flags = "--no-color" ∷ "--no-ext-diff" ∷ "--no-textconv" ∷ "--no-renames" ∷ []

module _ (run : Runner) (diff_limit read_limit : ℕ) (rel : String) where
  -- The answer for a patch: cut at the last whole line, binary, empty, or the patch.
  abbrev of_text : Change → String → Bool → DiffResult
  of_text change t is_cut =
      if run.is_binary_notice t
      then answer
          (record { path = rel; change = change; binary = true; diff = ""; truncated = is_cut })
      else if is_modified change && (str_eq t "" && not is_cut)
      then answer (plain rel unchanged)
      else answer
          (record { path = rel; change = change; binary = false; diff = t; truncated = is_cut })

  unfoldable pub of_output : Change → Option Output → DiffResult
  of_output change none = git_failed
  of_output change (some out) =
      of_text change (if out.is_cut then run.to_last_line out.stdout else out.stdout) out.is_cut

  unfoldable pub tracked_patch : Change → String → DiffResult
  tracked_patch change base = of_output change (
      run.git ("diff-index" ∷ "--patch" ∷ (diff_flags ++ base ∷ "--" ∷ rel ∷ [])) (0 ∷ [])
        diff_limit)

  abbrev untracked_sized : ℕ → DiffResult
  untracked_sized size =
      if ltb read_limit size
      then failed file_too_large
      else of_output untracked (
          run.git ("diff" ∷ "--no-index" ∷ (diff_flags ++ "--" ∷ "/dev/null" ∷ rel ∷ []))
            (0 ∷ 1 ∷ []) diff_limit)

  -- A directory was refused before.
  abbrev untracked_patch : Option Node → DiffResult
  untracked_patch (some (file size mtime)) = untracked_sized size
  untracked_patch (some (other size)) = untracked_sized size
  untracked_patch (some directory) = failed not_a_file
  untracked_patch none = failed io_error

  abbrev is_listed : Option Output → Option Bool
  is_listed none = none
  is_listed (some out) = some (not (str_eq out.stdout ""))

  abbrev ls_files : List String → Option Bool
  ls_files flags =
      is_listed (run.git ("ls-files" ∷ "-z" ∷ (flags ++ "--" ∷ rel ∷ [])) (0 ∷ []) status_max_bytes)

  abbrev if_ignored : Option Bool → DiffResult
  if_ignored none = git_failed
  if_ignored (some true) = answer (plain rel ignored)
  if_ignored (some false) = answer (plain rel unchanged)

  abbrev if_other : Option Node → Option Bool → DiffResult
  if_other found none = git_failed
  if_other found (some true) = untracked_patch found
  if_other found (some false) =
      if_ignored (ls_files ("--others" ∷ "--ignored" ∷ "--exclude-standard" ∷ []))

  -- A path that git's index does not name as changed; the outer none is a path that does not exist.
  unfoldable pub untracked_diff : Option (Option Node) → DiffResult
  unfolding of_output
  untracked_diff none = failed not_found
  untracked_diff (some found) = if_other found (ls_files ("--others" ∷ "--exclude-standard" ∷ []))

  abbrev by_letter : Option (Option Node) → String → Option String → DiffResult
  by_letter found base none = untracked_diff found
  by_letter found base (some letter) = tracked_patch (tracked_change letter) base

  abbrev with_status : Option (Option Node) → String → Option Output → DiffResult
  with_status found base none = git_failed
  with_status found base (some out) = by_letter found base (run.first_letter out.stdout)

  abbrev with_base : Option (Option Node) → Option String → DiffResult
  with_base found none = git_failed
  with_base found (some base) = with_status found base (
      run.git
        ("diff-index" ∷ "--name-status" ∷ "-z" ∷ "--no-renames" ∷ "--no-ext-diff" ∷ "--no-textconv"
          ∷ base ∷ "--" ∷ rel ∷ [])
        (0 ∷ []) status_max_bytes)

  abbrev trimmed : Option Output → Option String
  trimmed none = none
  trimmed (some out) = some (run.trim out.stdout)

  -- `HEAD`, or the hash of the empty tree.
  abbrev base_of : Option Output → Option String
  base_of none = none
  base_of (some out) =
      if out.code == 0
      then some "HEAD"
      else trimmed
          (run.git ("hash-object" ∷ "-t" ∷ "tree" ∷ "--stdin" ∷ []) (0 ∷ []) status_max_bytes)

  unfoldable pub base_tree : Option String
  base_tree =
      base_of
        (run.git ("rev-parse" ∷ "--verify" ∷ "--quiet" ∷ "HEAD" ∷ []) (0 ∷ 1 ∷ []) status_max_bytes)

  unfoldable pub diff_of : Option (Option Node) → DiffResult
  unfolding base_tree tracked_patch untracked_diff tracked_change
  diff_of (some (some directory)) = failed not_a_file
  diff_of (some none) = failed io_error
  diff_of none = with_base none base_tree
  diff_of (some (some (file size mtime))) = with_base (some (some (file size mtime))) base_tree
  diff_of (some (some (other size))) = with_base (some (some (other size))) base_tree

abbrev stat_of : (String → Option Node) → Option String → Option (Option Node)
stat_of stat none = none
stat_of stat (some real) = some (stat real)

unfoldable pub diff : Runner → (String → Option Node) → ℕ → ℕ → Confined → DiffResult
unfolding diff_of
diff run stat diff_limit read_limit outside = failed path_outside_checkout
diff run stat diff_limit read_limit unfinished = failed walk_unfinished
diff run stat diff_limit read_limit (confined c) =
    if str_eq c.rel ""
    then failed not_a_file
    else diff_of run diff_limit read_limit c.rel (stat_of stat c.real)
