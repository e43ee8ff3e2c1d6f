-- ===== src/Files/Status.antt =====
-- `status` of apps/bridge/src/files/reader.ts: git's porcelain records, already split at their NULs,
-- as the entries of a `repo.status` answer. The regular expression of `branch.ab` is a parameter.
pub mod Laws
use Prim.Native.String.{len, find, slice}
use text.Mathlib.Text.{starts_with}
use kanhrd.Base.{
  ℕ, zero, suc, ◌+◌, String, Bool, true, false, Option, none, some, List, [], ◌∷◌, ◌++◌,
  if◌then◌else◌, ltb, str_eq, includes, length, get_elem?, or_else,
}

-- `RepoStatusEntry['kind']`; a renamed entry holds its original path.
pub data EntryKind : Type 0 where
  changed : EntryKind
  renamed : String → EntryKind
  unmerged : EntryKind
  untracked : EntryKind

-- `RepoStatusEntry`; the two codes are letters.
pub record StatusEntry : Type 0 where
  pub path : String
  pub kind : EntryKind
  pub index : String
  pub worktree : String

-- The header lines of the answer.
pub record Branch : Type 0 where
  pub branch : Option String
  pub head : Option String
  pub upstream : Option String
  pub ahead : Option ℕ
  pub behind : Option ℕ

-- `BridgeMethodResult['repo.status']` without the path of the checkout.
pub record Status : Type 0 where
  pub header : Branch
  pub entries : List StatusEntry
  pub truncated : Bool

abbrev status_codes : List String
status_codes = "." ∷ "M" ∷ "T" ∷ "A" ∷ "D" ∷ "R" ∷ "C" ∷ "U" ∷ "?" ∷ []

unfoldable pub code : Option String → String
code none = "."
code (some letter) = if includes letter status_codes then letter else "."

-- `text?.[i]`
abbrev pub letter_at : Option String → ℕ → Option String
letter_at none i = none
letter_at (some text) i = if ltb i (len text) then some (slice text i (suc i)) else none

-- `line.slice(i)`
abbrev pub from : String → ℕ → String
from line i = slice line i (len line)

unfoldable pub fields : String → ℕ → List String × String
fields line zero = ([], line)
fields line (suc count) =
    let i = find line " " in
    let further = fields (from line (suc i)) count in
    if ltb i (len line) then (slice line 0 i ∷ further.0, further.1) else ([], "")

abbrev pub coded : EntryKind → List String × String → StatusEntry
coded kind (head, rest) = record {
  path = rest;
  kind = kind;
  index = code (letter_at (get_elem? head 1) 0);
  worktree = code (letter_at (get_elem? head 1) 1);
}

-- What a record is: an entry, the first half of a renamed one, or none of them.
pub data Parsed : Type 0 where
  entry : StatusEntry → Parsed
  rename : (String → StatusEntry) → Parsed
  skipped : Parsed

unfoldable pub parse_record : String → Parsed
unfolding fields code
parse_record r =
    if starts_with r "1"
    then entry (coded EntryKind.changed (fields r 8))
    else if starts_with r "2"
    then rename (λ original. coded (EntryKind.renamed original) (fields r 9))
    else if starts_with r "u"
    then entry (coded EntryKind.unmerged (fields r 10))
    else if starts_with r "?"
    then entry (record { path = from r 2; kind = EntryKind.untracked; index = "?"; worktree = "?" })
    else skipped

abbrev pub unless_text : String → String → Option String
unless_text text rest = if str_eq rest text then none else some rest

abbrev pub with_counts : Branch → Option (ℕ × ℕ) → Branch
with_counts b none = b
with_counts b (some (ahead, behind)) = record {
  branch = b.branch;
  head = b.head;
  upstream = b.upstream;
  ahead = some ahead;
  behind = some behind;
}

abbrev pub with_header : (String → Option (ℕ × ℕ)) → Branch → Option String → String → Branch
with_header counts b none rest = b
with_header counts b (some key) rest =
    if str_eq key "branch.oid"
    then record {
      branch = b.branch;
      head = unless_text "(initial)" rest;
      upstream = b.upstream;
      ahead = b.ahead;
      behind = b.behind;
    }
    else if str_eq key "branch.head"
    then record {
      branch = unless_text "(detached)" rest;
      head = b.head;
      upstream = b.upstream;
      ahead = b.ahead;
      behind = b.behind;
    }
    else if str_eq key "branch.upstream"
    then record {
      branch = b.branch;
      head = b.head;
      upstream = some rest;
      ahead = b.ahead;
      behind = b.behind;
    }
    else if str_eq key "branch.ab"
    then with_counts b (counts rest)
    else b

unfoldable pub parse_header : (String → Option (ℕ × ℕ)) → String → Branch → Branch
unfolding fields
parse_header counts r b =
    let parts = fields r 2 in with_header counts b (get_elem? parts.0 1) parts.1

abbrev pub full : Status → Status
full s = record { header = s.header; entries = s.entries; truncated = true }

abbrev pub pushed : Status → StatusEntry → Status
pushed s e = record { header = s.header; entries = s.entries ++ e ∷ []; truncated = s.truncated }

abbrev pub at_header : Status → Branch → Status
at_header s b = record { header = b; entries = s.entries; truncated = s.truncated }

-- What one record leaves: the answer so far, a renamed entry that waits for its original path, and
-- whether the loop stops.
pub record Turn : Type 0 where
  pub so_far : Status
  pub waiting : Option (String → StatusEntry)
  pub stops : Bool

-- At the limit `statusMaxEntries` the loop stops.
abbrev pub push_entry : ℕ → Status → StatusEntry → Turn
push_entry limit s e =
    if ltb (length s.entries) limit
    then record { so_far = pushed s e; waiting = none; stops = false }
    else record { so_far = full s; waiting = none; stops = true }

abbrev pub take_parsed : ℕ → Status → Parsed → Turn
take_parsed limit s (entry e) = push_entry limit s e
take_parsed limit s (rename e) = record { so_far = s; waiting = some e; stops = false }
take_parsed limit s skipped = record { so_far = s; waiting = none; stops = false }

unfoldable pub turn :
    (String → Option (ℕ × ℕ)) → ℕ → Option (String → StatusEntry) → String → Status → Turn
unfolding parse_record parse_header
turn counts limit (some e) r s = push_entry limit s (e r)
turn counts limit none r s =
    if str_eq r ""
    then record { so_far = s; waiting = none; stops = false }
    else if starts_with r "# "
    then record {
      so_far = at_header s (parse_header counts r s.header);
      waiting = none;
      stops = false;
    }
    else take_parsed limit s (parse_record r)

-- The loop; a renamed entry at the end has an empty original path.
unfoldable pub scan :
    (String → Option (ℕ × ℕ)) → ℕ → Option (String → StatusEntry) → List String → Status → Status
unfolding turn
scan counts limit none [] s = s
scan counts limit (some e) [] s = (push_entry limit s (e "")).so_far
scan counts limit waiting (r ∷ records) s =
    let t = turn counts limit waiting r s in
    let further = scan counts limit t.waiting records t.so_far in
    if t.stops then t.so_far else further

unfoldable pub status : (String → Option (ℕ × ℕ)) → ℕ → List String → Status
unfolding scan
status counts limit records = scan counts limit none records (record {
  header = record { branch = none; head = none; upstream = none; ahead = none; behind = none };
  entries = [];
  truncated = false;
})
