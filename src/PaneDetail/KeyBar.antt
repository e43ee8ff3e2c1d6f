-- ===== src/PaneDetail/KeyBar.antt =====
-- apps/web/src/app/pane-detail/key-bar-cells.ts: sticky modifiers, and how they fold into the name of
-- a key. A name is the list of its code units; a set of modifiers is the list of them in the order
-- of insertion.
pub mod Sets
pub mod Ranks
pub mod Fold
pub mod Sticky
use kanhrd.Base.{
  ℕ, zero, suc, ◌+◌, ◌-◌, Bool, true, false, not, ◌&&◌, ◌||◌, Option, none, some, List, [], ◌∷◌,
  ◌++◌, length, take, drop, keep_if, leb, ◌==◌, if◌then◌else◌,
}
use kanhrd.Output.Delta.{Text, text_eq}

-- What `KNOWN_PREFIX` names.
pub data Modifier : Type 0 where
  ctrl alt shift meta : Modifier

abbrev pub same_modifier : Modifier → Modifier → Bool
same_modifier ctrl ctrl = true
same_modifier alt alt = true
same_modifier shift shift = true
same_modifier meta meta = true
same_modifier _ _ = false

abbrev pub has : Modifier → List Modifier → Bool
has m [] = false
has m (n ∷ ms) = same_modifier n m || has m ms

-- `Set.add`
abbrev pub add : Modifier → List Modifier → List Modifier
add m carried = if has m carried then carried else carried ++ m ∷ []

-- The lower-case name of a modifier.
abbrev pub name_of : Modifier → Text
name_of ctrl = 99 ∷ 116 ∷ 114 ∷ 108 ∷ []
name_of alt = 97 ∷ 108 ∷ 116 ∷ []
name_of shift = 115 ∷ 104 ∷ 105 ∷ 102 ∷ 116 ∷ []
name_of meta = 109 ∷ 101 ∷ 116 ∷ 97 ∷ []

-- `'+'`
abbrev pub plus : ℕ
plus = 43

-- `.` of the expression: no line terminator.
abbrev pub is_dot : ℕ → Bool
is_dot c = not ((c == 10) || ((c == 13) || ((c == 8232) || (c == 8233))))

-- The flag `i`, on the ASCII letters.
abbrev pub lower_unit : ℕ → ℕ
lower_unit c = if leb 65 c && leb c 90 then c + 32 else c

abbrev pub something_follows : Text → Bool
something_follows [] = false
something_follows (c ∷ text) = is_dot c

-- The rest of a text behind `name+`, where something follows.
unfoldable pub behind : Text → Text → Option Text
behind [] [] = none
behind [] (c ∷ text) = if (c == plus) && something_follows text then some text else none
behind (n ∷ name) [] = none
behind (n ∷ name) (c ∷ text) =
    let rest = behind name text in if lower_unit c == n then rest else none

abbrev pub or_prefix : Option Text → Modifier → Option (Modifier × Text) → Option (Modifier × Text)
or_prefix (some text) m other = some (m, text)
or_prefix none m other = other

-- `KNOWN_PREFIX.exec`: the modifier at the front, and what is behind it.
unfoldable pub known_prefix : Text → Option (Modifier × Text)
unfolding behind
known_prefix text = or_prefix (behind (name_of ctrl) text) ctrl (
    or_prefix (behind (name_of alt) text) alt (
      or_prefix (behind (name_of shift) text) shift
        (or_prefix (behind (name_of meta) text) meta none)))

pub record Peeled : Type 0 where
  pub carried : List Modifier
  pub base : Text

abbrev pub peel_next :
    (Text → List Modifier → Peeled) → Option (Modifier × Text) → Text → List Modifier → Peeled
peel_next next none base carried = record { carried = carried; base = base }
peel_next next (some (m, rest)) base carried = next rest (add m carried)

-- The loop of `foldModifiers`; each round takes a prefix off, so the length of the name is enough.
unfoldable pub peel : ℕ → Text → List Modifier → Peeled
unfolding known_prefix
peel zero base carried = record { carried = carried; base = base }
peel (suc fuel) base carried = peel_next (peel fuel) (known_prefix base) base carried

abbrev pub add_all : List Modifier → List Modifier → List Modifier
add_all [] carried = carried
add_all (m ∷ ms) carried = add_all ms (add m carried)

-- `MODIFIER_ORDER`
abbrev pub modifier_order : List Modifier
modifier_order = ctrl ∷ alt ∷ []

abbrev pub ordered : List Modifier → List Modifier
ordered carried =
    keep_if (λ m. has m carried) modifier_order ++ keep_if (λ m. not (has m modifier_order)) carried

-- `[...ordered, base].join('+')`
unfoldable pub joined : List Modifier → Text → Text
joined [] base = base
joined (m ∷ ms) base = name_of m ++ plus ∷ joined ms base

unfoldable pub fold_modifiers : Text → List Modifier → Text
unfolding peel joined
fold_modifiers key active =
    let peeled = peel (length key) key [] in
    joined (ordered (add_all active peeled.carried)) peeled.base

-- `keyNameForCharacter`: `space` for a space.
unfoldable pub key_name_for_character : Text → Text
unfolding text_eq
key_name_for_character char =
    if text_eq char (32 ∷ []) then 115 ∷ 112 ∷ 97 ∷ 99 ∷ 101 ∷ [] else char

pub data ModifierState : Type 0 where
  idle armed locked : ModifierState

-- The states of `ctrl` and `alt`, the modifiers of the bar.
pub record KeyBarModifiers : Type 0 where
  pub ctrl_state : ModifierState
  pub alt_state : ModifierState

-- `KeyBarModifier`
pub data KeyBarModifier : Type 0 where
  bar_ctrl bar_alt : KeyBarModifier

abbrev pub state_of : KeyBarModifier → KeyBarModifiers → ModifierState
state_of bar_ctrl s = s.ctrl_state
state_of bar_alt s = s.alt_state

abbrev pub set : KeyBarModifier → ModifierState → KeyBarModifiers → KeyBarModifiers
set bar_ctrl state s = record s { ctrl_state = state }
set bar_alt state s = record s { alt_state = state }

abbrev pub is_idle : ModifierState → Bool
is_idle idle = true
is_idle _ = false

abbrev pub active : KeyBarModifiers → List Modifier
active s = keep_if (λ m. not (is_idle (state_for m s))) modifier_order
  where
    state_for : Modifier → KeyBarModifiers → ModifierState
    state_for ctrl s = s.ctrl_state
    state_for alt s = s.alt_state
    state_for _ s = idle

unfoldable pub tap : KeyBarModifier → KeyBarModifiers → KeyBarModifiers
tap m s = set m (if is_idle (state_of m s) then armed else idle) s

unfoldable pub lock : KeyBarModifier → KeyBarModifiers → KeyBarModifiers
lock m s = set m locked s

abbrev pub released : ModifierState → ModifierState
released armed = idle
released state = state

-- The folded key, and the states after it.
unfoldable pub consume : Text → KeyBarModifiers → Text × KeyBarModifiers
unfolding fold_modifiers
consume key s = if length (active s) == 0 then (key, s) else (
  fold_modifiers key (active s),
  record { ctrl_state = released s.ctrl_state; alt_state = released s.alt_state },
)
