-- ===== src/PaneDetail/Input.antt =====
-- apps/web/src/app/pane-detail/key-mapping.ts: one chunk of the terminal's input, as text or as the
-- keys of herdr. A chunk is the list of its UTF-16 code units.
use kanhrd.Base.{
  ℕ, ◌+◌, String, Bool, ◌&&◌, ◌||◌, Option, none, some, [], ◌∷◌, leb, ◌==◌, any, if◌then◌else◌,
}
use kanhrd.Output.Delta.{Text}

-- `InputAction`, its key in two parts: what is sent in front, and the code unit that follows it.
pub data InputAction : Type 0 where
  named_key : String → InputAction
  ctrl_letter : ℕ → InputAction
  text : Text → Bool → InputAction

-- `ARROW_KEY_BY_FINAL_BYTE`
abbrev pub arrow_key : ℕ → Option String
arrow_key c =
    if c == 65
    then some "Up"
    else if c == 66
    then some "Down"
    else if c == 67
    then some "Right"
    else if c == 68
    then some "Left"
    else none

-- `UNHANDLED_CONTROL_BYTES`
abbrev pub is_unhandled : ℕ → Bool
is_unhandled c = leb c 8 || ((c == 11) || ((c == 12) || (leb 14 c && leb c 31)))

-- What no case takes.
unfoldable pub plain_text : Text → InputAction
plain_text data_ = text data_ (any is_unhandled data_)

-- The keys that one code unit stands for by name.
abbrev pub single_key : ℕ → Option String
single_key c =
    if (c == 13) || (c == 10)
    then some "Enter"
    else if c == 127
    then some "Backspace"
    else if c == 27
    then some "Escape"
    else if c == 3
    then some "ctrl+c"
    else if c == 4
    then some "ctrl+d"
    else if c == 9
    then some "Tab"
    else none

abbrev pub one_unit : Option String → ℕ → InputAction
one_unit (some key) c = named_key key
one_unit none c = if leb 1 c && leb c 26 then ctrl_letter (c + 96) else plain_text (c ∷ [])

abbrev pub arrow_or : Option String → Text → InputAction
arrow_or (some key) data_ = named_key key
arrow_or none data_ = plain_text data_

unfoldable pub classify_input : Text → InputAction
unfolding plain_text
classify_input [] = plain_text []
classify_input (c ∷ []) = one_unit (single_key c) c
classify_input (a ∷ b ∷ c ∷ []) =
    if (a == 27) && (b == 91)
    then arrow_or (arrow_key c) (a ∷ b ∷ c ∷ [])
    else plain_text (a ∷ b ∷ c ∷ [])
classify_input data_ = plain_text data_
