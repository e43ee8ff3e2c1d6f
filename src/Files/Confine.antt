-- ===== src/Files/Confine.antt =====
-- `isInside` and `confinePath` of apps/bridge/src/files/confine.ts. The file system and the
-- functions of the platform on texts and paths are a parameter.
pub mod Laws
use text.Mathlib.Text.{starts_with}
use kanhrd.Base.{
  ℕ, zero, suc, String, Bool, true, false, not, ◌&&◌, ◌||◌, Option, none, some, List, [], ◌∷◌,
  if◌then◌else◌, str_eq, includes, concat, keep_if,
}

-- `realpathSync`, none if it throws; the functions of `node:path`; and those of a text.
pub record Paths : Type 0 where
  pub real_path : String → Option String
  pub dirname : String → String
  pub join : String → List String → String
  pub relative : String → String → String
  pub is_absolute : String → Bool
  pub sep : String
  pub ends_with : String → String → Bool
  pub has_nul : String → Bool
  pub split : String → String → List String
  pub join_slash : List String → String

-- `ConfinedPath`
pub record ConfinedPath : Type 0 where
  pub rel : String
  pub abs : String
  pub real : Option String

-- `outside` is the `RepoFileError`; `unfinished` is a walk longer than the fuel.
pub data Confined : Type 0 where
  confined : ConfinedPath → Confined
  outside : Confined
  unfinished : Confined

unfoldable pub is_inside : Paths → String → String → Bool
is_inside fs root real =
    str_eq real root
    || starts_with real (if fs.ends_with root fs.sep then root else concat (root ∷ fs.sep ∷ []))

unfoldable pub touches_git_dir : Paths → String → Bool
touches_git_dir fs rel = includes ".git" (fs.split rel fs.sep)

abbrev pub is_named : String → Bool
is_named segment = not (str_eq segment "") && not (str_eq segment ".")

abbrev pub segments_of : Paths → String → List String
segments_of fs input = keep_if is_named (fs.split input "/")

abbrev pub absolute_of : Paths → String → List String → String
absolute_of fs root [] = root
absolute_of fs root (s ∷ segments) = fs.join root (s ∷ segments)

-- What the walk answers once a probe exists; `real` counts only for the path itself.
abbrev pub verdict : Paths → String → String → String → String → String → Confined
verdict fs root rel abs probe real =
    if not (is_inside fs root real) || touches_git_dir fs (fs.relative root real)
    then outside
    else confined
        (record { rel = rel; abs = abs; real = if str_eq probe abs then some real else none })

abbrev pub answer : Paths → String → String → String → String → Option String → Confined → Confined
answer fs root rel abs probe (some real) further = verdict fs root rel abs probe real
answer fs root rel abs probe none further =
    if str_eq (fs.dirname probe) probe then outside else further

-- The loop, from a path to the nearest ancestor that exists.
unfoldable pub walk : Paths → String → String → String → ℕ → String → Confined
unfolding is_inside touches_git_dir
walk fs root rel abs zero probe = unfinished
walk fs root rel abs (suc fuel) probe =
    answer fs root rel abs probe (fs.real_path probe) (walk fs root rel abs fuel (fs.dirname probe))

unfoldable pub confine_path : Paths → ℕ → String → String → Confined
unfolding walk
confine_path fs fuel root input =
    if fs.has_nul input || (fs.is_absolute input || starts_with input "/")
    then outside
    else let segments = segments_of fs input in
      if includes ".." segments || includes ".git" segments
      then outside
      else walk fs root (fs.join_slash segments) (absolute_of fs root segments) fuel
          (absolute_of fs root segments)
