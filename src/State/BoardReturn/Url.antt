-- ===== src/State/BoardReturn/Url.antt =====
-- `BOARD_URL` and `isBoardUrl` of apps/web/src/app/state/board-return.service.ts, on code units. The
-- expression never has to backtrack: what follows a segment is its end or a slash.
use kanhrd.Base.{
  ℕ, Bool, true, false, not, ◌||◌, Option, none, some, [], ◌∷◌, length, drop, ◌==◌, if◌then◌else◌,
}
use kanhrd.Output.Delta.{Text, starts_with}

-- `'/'`
abbrev pub slash : ℕ
slash = 47

-- `[?#]`
abbrev pub ends_path : ℕ → Bool
ends_path c = (c == 63) || (c == 35)

-- `[^/?#]`
abbrev pub is_plain : ℕ → Bool
is_plain c = not ((c == slash) || ends_path c)

-- `workspace/` and `/tab/`
abbrev pub workspace_prefix : Text
workspace_prefix = 119 ∷ 111 ∷ 114 ∷ 107 ∷ 115 ∷ 112 ∷ 97 ∷ 99 ∷ 101 ∷ slash ∷ []

abbrev pub tab_prefix : Text
tab_prefix = slash ∷ 116 ∷ 97 ∷ 98 ∷ slash ∷ []

-- `'/'` as a URL
abbrev pub root_url : Text
root_url = slash ∷ []

-- `url.split(/[?#]/)[0]`
unfoldable pub path_of : Text → Text
path_of [] = []
path_of (c ∷ url) = let rest = path_of url in if ends_path c then [] else c ∷ rest

abbrev pub after_prefix : Text → Text → Option Text
after_prefix prefix text =
    if starts_with text prefix then some (drop (length prefix) text) else none

-- What follows the plain code units at the front.
unfoldable pub skip_plain : Text → Text
skip_plain [] = []
skip_plain (c ∷ text) = let rest = skip_plain text in if is_plain c then rest else c ∷ text

-- `[^/?#]+`
abbrev pub after_segment : Text → Option Text
after_segment [] = none
after_segment (c ∷ text) = if is_plain c then some (skip_plain text) else none

abbrev pub is_end : Option Text → Bool
is_end none = false
is_end (some []) = true
is_end (some (c ∷ text)) = false

abbrev pub after_tab : Option Text → Bool
after_tab none = false
after_tab (some text) = is_end (after_segment text)

abbrev pub after_workspace_id : Option Text → Bool
after_workspace_id none = false
after_workspace_id (some []) = true
after_workspace_id (some (c ∷ text)) = after_tab (after_prefix tab_prefix (c ∷ text))

abbrev pub after_workspace : Option Text → Bool
after_workspace none = false
after_workspace (some text) = after_workspace_id (after_segment text)

abbrev pub after_slash : Option Text → Bool
after_slash none = false
after_slash (some []) = true
after_slash (some (c ∷ text)) = after_workspace (after_prefix workspace_prefix (c ∷ text))

unfoldable pub is_board_url : Text → Bool
unfolding path_of skip_plain starts_with
is_board_url url = after_slash (after_prefix root_url (path_of url))
