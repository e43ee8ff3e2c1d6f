-- ===== src/Files/Reader/Listing.antt =====
-- `tree` and `markIgnored` of apps/bridge/src/files/reader.ts. The directory, the sizes, git's answer
-- and the order of texts are parameters.
pub mod Laws
use kanhrd.Base.{
  ℕ, suc, String, Bool, true, false, not, ◌&&◌, ◌||◌, Option, none, some, List, [], ◌∷◌,
  if◌then◌else◌, ltb, str_eq, includes, concat, map, or_else, length, ◌++◌,
}

-- `RepoTreeEntry['type']`
pub data EntryType : Type 0 where
  symlink : EntryType
  directory : EntryType
  file : EntryType
  other : EntryType

-- `Dirent`
pub record Dirent : Type 0 where
  pub name : String
  pub is_symbolic_link : Bool
  pub is_directory : Bool
  pub is_file : Bool

-- `RepoTreeEntry`
pub record TreeEntry : Type 0 where
  pub name : String
  pub path : String
  pub kind : EntryType
  pub ignored : Bool
  pub size : Option ℕ

abbrev pub type_of : Dirent → EntryType
type_of d =
    if d.is_symbolic_link
    then symlink
    else if d.is_directory
    then directory
    else if d.is_file
    then file
    else other

abbrev pub is_dir : EntryType → Bool
is_dir symlink = false
is_dir directory = true
is_dir file = false
is_dir other = false

abbrev pub is_plain : EntryType → Bool
is_plain symlink = false
is_plain directory = false
is_plain file = true
is_plain other = false

-- `lstat` gives none if it throws.
abbrev pub entry_of : (String → Option ℕ) → String → String → Dirent → TreeEntry
entry_of lstat_size real rel d = record {
  name = d.name;
  path = if str_eq rel "" then d.name else concat (rel ∷ "/" ∷ d.name ∷ []);
  kind = type_of d;
  ignored = false;
  size =
      if is_plain (type_of d)
      then some (or_else (lstat_size (concat (real ∷ "/" ∷ d.name ∷ []))) 0)
      else none;
}

-- The loop over the directory, to the cap; the Boolean is `truncated`.
unfoldable pub fill :
    ℕ → (Dirent → TreeEntry) → List Dirent → List TreeEntry → List TreeEntry × Bool
fill cap entry [] entries = (entries, false)
fill cap entry (d ∷ dirents) entries =
    let is_git = str_eq d.name ".git" in
    let next = fill cap entry dirents (if is_git then entries else entries ++ entry d ∷ []) in
    if is_git || ltb (length entries) cap then next else (entries, true)

abbrev pub query_of : TreeEntry → String
query_of e = concat ("./" ∷ e.path ∷ (if is_dir e.kind then "/" else "") ∷ [])

abbrev pub ignore : Bool → TreeEntry → TreeEntry
ignore flag e = record {
  name = e.name;
  path = e.path;
  kind = e.kind;
  ignored = flag;
  size = e.size;
}

-- A query names the last entry that has it.
unfoldable pub mark_ignored : List String → List TreeEntry → List TreeEntry
mark_ignored matched [] = []
mark_ignored matched (e ∷ es) =
    ignore (includes (query_of e) matched && not (includes (query_of e) (map query_of es))) e
    ∷ mark_ignored matched es

-- Whether the sort puts the first entry before the second: directories first, then by name.
abbrev pub comes_before : (String → String → Bool) → TreeEntry → TreeEntry → Bool
comes_before less a b =
    if is_dir a.kind
    then if is_dir b.kind then not (less b.name a.name) else true
    else if is_dir b.kind
    then false
    else not (less b.name a.name)

unfoldable pub insert_entry : (String → String → Bool) → TreeEntry → List TreeEntry → List TreeEntry
insert_entry less e [] = e ∷ []
insert_entry less e (f ∷ fs) =
    let rest = insert_entry less e fs in if comes_before less e f then e ∷ f ∷ fs else f ∷ rest

-- `entries.sort(…)`, which is stable.
unfoldable pub sort_entries : (String → String → Bool) → List TreeEntry → List TreeEntry
unfolding insert_entry
sort_entries less [] = []
sort_entries less (e ∷ es) = insert_entry less e (sort_entries less es)

-- What `tree` answers for a directory; `check_ignore` is git's answer for the queries.
unfoldable pub tree_of :
    (String → String → Bool)
    → (List String → List String)
    → (Dirent → TreeEntry)
    → ℕ
    → List Dirent
    → List TreeEntry × Bool
unfolding fill mark_ignored sort_entries
tree_of less check_ignore entry cap dirents =
    let (entries, truncated) = fill cap entry dirents [] in
    (sort_entries less (mark_ignored (check_ignore (map query_of entries)) entries), truncated)
