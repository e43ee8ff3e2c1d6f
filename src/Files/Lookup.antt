-- ===== src/Files/Lookup.antt =====
-- apps/bridge/src/herdr/repo.ts: the repository of a directory, by a walk up for a `.git` entry, and
-- the bounded cache of the answers. The file system is a parameter.
pub mod Laws
use kanhrd.Base.{
  ℕ, zero, suc, String, Bool, true, false, Option, none, some, List, [], ◌∷◌, if◌then◌else◌, ltb,
  not, str_eq, Dict, lookup, insert, erase, length,
}

-- `statSync(join(dir, '.git'))`: no entry, an entry and whether it is a file, or an exception.
pub data GitEntry : Type 0 where
  no_entry : GitEntry
  entry : Bool → GitEntry
  unreadable : GitEntry

-- The entries of the file system, and the functions of `node:path`.
pub record RepoTree : Type 0 where
  pub git_entry : String → GitEntry
  pub dirname : String → String
  pub basename : String → String
  pub resolve : String → String

-- `RepoProvenance`
pub record Provenance : Type 0 where
  pub repo_name : String
  pub checkout_path : String
  pub is_linked_worktree : Bool

-- A cached none is the `null` of the code: the walk found no repository.
abbrev pub Cache : Type 0
Cache = Dict (Option Provenance)

abbrev pub cache_limit : ℕ
cache_limit = 512

-- What `walkForGit` answers; `thrown` is the exception of `statSync`, and `unfinished` is a walk longer
-- than the fuel.
pub data Walked : Type 0 where
  repository : Provenance → Walked
  no_repository : Walked
  thrown : Walked
  unfinished : Walked

abbrev pub found_at : RepoTree → String → GitEntry → Walked → Walked
found_at fs dir (entry is_file) further =
    repository
      (record { repo_name = fs.basename dir; checkout_path = dir; is_linked_worktree = is_file })
found_at fs dir no_entry further = if str_eq (fs.dirname dir) dir then no_repository else further
found_at fs dir unreadable further = thrown

unfoldable pub walk_for_git : RepoTree → ℕ → String → Walked
walk_for_git fs zero dir = unfinished
walk_for_git fs (suc fuel) dir =
    found_at fs dir (fs.git_entry dir) (walk_for_git fs fuel (fs.dirname dir))

abbrev pub drop_oldest : Cache → Cache
drop_oldest [] = []
drop_oldest ((k, v) ∷ m) = erase k ((k, v) ∷ m)

abbrev pub evicted : Cache → Cache
evicted m = if ltb (length m) cache_limit then m else drop_oldest m

-- An exception leaves the cache as it was.
abbrev pub remember : String → Cache → Walked → Walked × Cache
remember start m (repository p) = (repository p, insert start (some p) (evicted m))
remember start m no_repository = (no_repository, insert start none (evicted m))
remember start m thrown = (thrown, m)
remember start m unfinished = (unfinished, m)

abbrev pub cached_answer : Option Provenance → Walked
cached_answer none = no_repository
cached_answer (some p) = repository p

abbrev pub cached_or_walk : String → Cache → Option (Option Provenance) → Walked → Walked × Cache
cached_or_walk start m (some cached) walked = (cached_answer cached, m)
cached_or_walk start m none walked = remember start m walked

unfoldable pub resolve_repo : RepoTree → ℕ → String → Cache → Walked × Cache
unfolding walk_for_git
resolve_repo fs fuel cwd m =
    let start = fs.resolve cwd in
    cached_or_walk start m (lookup start m) (walk_for_git fs fuel start)

unfoldable pub clear_repo_cache : Cache → Cache
clear_repo_cache m = []
