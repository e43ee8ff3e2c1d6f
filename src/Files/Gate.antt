-- ===== src/Files/Gate.antt =====
-- apps/bridge/src/files/gate.ts: whether a pane's checkout may be read on this machine. The file
-- system and git are parameters.
use kanhrd.Base.{
  String, Bool, true, false, ◌&&◌, Option, none, some, ◌≡◌, refl, arith, if◌then◌else◌, str_eq,
  Option-cases, Bool-cases, inl, inr,
}
use kanhrd.Files.Confine.{Paths, is_inside}

-- `PaneCheckoutClaim`, without the host's name, which only the messages hold.
pub record Claim : Type 0 where
  pub files_enabled : Bool
  pub cwd : Option String
  pub checkout_path : Option String

-- `statSync(real).isDirectory()`, and what `git rev-parse --show-toplevel` answers in a directory,
-- resolved against it; none if git fails.
pub record Machine : Type 0 where
  pub paths : Paths
  pub is_directory : String → Bool
  pub top_level : String → Option String

-- The `RepoFileError`s of the gate, the failure of git, and the checkout's real path.
pub data Gated : Type 0 where
  checkout : String → Gated
  files_not_local : Gated
  no_checkout : Gated
  git_failed : Gated

abbrev pub directory_at : Machine → Option String → Option String
directory_at m none = none
directory_at m (some real) = if m.is_directory real then some real else none

unfoldable pub real_directory : Machine → String → Option String
real_directory m path = directory_at m (m.paths.real_path path)

abbrev pub holds_both : Machine → Option String → Option String → Bool
holds_both m (some cwd) (some root) = is_inside m.paths root cwd
holds_both m (some cwd) none = false
holds_both m none root = false

abbrev pub hint_of : Machine → Option String → Option String → Bool
hint_of m (some cwd) (some path) = holds_both m (real_directory m cwd) (real_directory m path)
hint_of m (some cwd) none = false
hint_of m none path = false

unfoldable pub files_local_hint : Machine → Claim → Bool
unfolding real_directory
files_local_hint m claim =
    if claim.files_enabled then hint_of m claim.cwd claim.checkout_path else false

abbrev pub top_matches : Option String → String → Bool
top_matches none root = false
top_matches (some real) root = str_eq real root

-- What git places the directory in, against the checkout.
abbrev pub compared : Machine → Option String → String → Gated
compared m none root = git_failed
compared m (some top) root =
    if top_matches (real_directory m top) root then checkout root else files_not_local

abbrev pub gate_directories : Machine → Option String → Option String → Gated
gate_directories m none root = files_not_local
gate_directories m (some cwd) none = files_not_local
gate_directories m (some cwd) (some root) =
    if is_inside m.paths root cwd then compared m (m.top_level cwd) root else files_not_local

abbrev pub gate_paths : Machine → Option String → Option String → Gated
gate_paths m cwd none = no_checkout
gate_paths m none (some path) = files_not_local
gate_paths m (some cwd) (some path) =
    gate_directories m (real_directory m cwd) (real_directory m path)

unfoldable pub resolve_local_checkout : Machine → Claim → Gated
unfolding real_directory
resolve_local_checkout m claim =
    if claim.files_enabled then gate_paths m claim.cwd claim.checkout_path else files_not_local

-- Whether the gate let the pane through.
abbrev pub is_checkout : Gated → Bool
is_checkout (checkout root) = true
is_checkout files_not_local = false
is_checkout no_checkout = false
is_checkout git_failed = false

abbrev agrees : Machine → Option String → Option String → Bool
agrees m (some top) (some root) = top_matches (real_directory m top) root
agrees m (some top) none = false
agrees m none root = false

abbrev places : Machine → Option String → Option String → Bool
places m (some cwd) root = agrees m (m.top_level cwd) root
places m none root = false

-- Git, run in the pane's directory, names the checkout as its top level.
abbrev pub git_agrees : Machine → Option String → Option String → Bool
git_agrees m (some cwd) (some path) = places m (real_directory m cwd) (real_directory m path)
git_agrees m (some cwd) none = false
git_agrees m none path = false

gate_directories_lem :
    (m : Machine) (cwd root : Option String)
    → is_checkout (gate_directories m cwd root) ≡ (holds_both m cwd root && places m cwd root)
gate_directories_lem m none root = refl
gate_directories_lem m (some cwd) none = refl
gate_directories_lem m (some cwd) (some root) = elim (Option-cases (m.top_level cwd)) [
  | inl e ↦ rw e (ground arith)
  | inr (top, e) ↦ rw e (ground arith)
]

gate_paths_lem :
    (m : Machine) (cwd path : Option String)
    → is_checkout (gate_paths m cwd path) ≡ (hint_of m cwd path && git_agrees m cwd path)
gate_paths_lem m none none = refl
gate_paths_lem m (some cwd) none = refl
gate_paths_lem m none (some path) = refl
gate_paths_lem m (some cwd) (some path) =
    gate_directories_lem m (real_directory m cwd) (real_directory m path)

-- The full gate lets a pane through exactly if the cheap hint of `pane.list` holds for it and git
-- itself places the pane's directory in the same checkout.
pub resolve_local_checkout-files_local_hint :
    (m : Machine) (claim : Claim)
    → is_checkout (resolve_local_checkout m claim)
      ≡ (files_local_hint m claim && git_agrees m claim.cwd claim.checkout_path)
unfolding resolve_local_checkout files_local_hint
resolve_local_checkout-files_local_hint m claim = elim (Bool-cases claim.files_enabled) [
  | inl e ↦ rw e (gate_paths_lem m claim.cwd claim.checkout_path)
  | inr e ↦ rw e
]
