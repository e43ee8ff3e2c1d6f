-- ===== src/State/Keyboard/Tabs.antt =====
-- The direct chord and the movement between tabs of apps/web/src/app/state/keyboard.service.ts.
use kanhrd.Base.{
  ℕ, suc, ◌+◌, ◌-◌, ◌*◌, ◌%◌, String, Bool, true, false, not, ◌&&◌, ◌||◌, Option, none, some, List,
  [], ◌∷◌, if◌then◌else◌, str_eq, ◌==◌, length, get_elem?, find,
}
use kanhrd.State.Keyboard.{
  same_chord, KeyEvent, matches_prefix, TabRef, OrderedTab, Keyboard, Effect, step_tab,
  focus_switcher, next_card, Around, prefix, tab_filter,
}

-- The keyboard after a key, what it asks of other parts, and whether `preventDefault` was called.
pub record Turn : Type 0 where
  pub keyboard : Keyboard
  pub effects : List Effect
  pub prevented : Bool

abbrev pub quiet : Keyboard → Turn
quiet k = record { keyboard = k; effects = []; prevented = false }

abbrev pub prevented_with : Keyboard → List Effect → Turn
prevented_with k effects = record { keyboard = k; effects = effects; prevented = true }

-- `ShortcutAction`, those that `dispatchAction` knows.
pub data CardAction : Type 0 where
  focus_card_switcher : CardAction
  next_sibling_card : CardAction

abbrev pub is_available : Option Bool → Bool
is_available none = false
is_available (some available) = available

-- Both actions need an available card switcher.
unfoldable pub action_available : Around → CardAction → Bool
action_available around action = is_available around.registered.card_switcher

abbrev pub effect_of : CardAction → Effect
effect_of focus_card_switcher = focus_switcher
effect_of next_sibling_card = next_card

unfoldable pub dispatch_action : Around → CardAction → List Effect
unfolding action_available
dispatch_action around action = if action_available around action then effect_of action ∷ [] else []

abbrev pub direct_chord : String
direct_chord = "Ctrl+Alt+I"

-- A direct chord that equals the prefix is skipped.
abbrev pub is_skipped : Around → KeyEvent → Keyboard → Bool
is_skipped around event k =
    same_chord around.js direct_chord (prefix around k)
    || not (matches_prefix around.js direct_chord event)

abbrev pub direct_if : Bool → Bool → Turn → Option Turn
direct_if true available t = none
direct_if false true t = some t
direct_if false false t = none

-- The one direct chord, none if it does not apply.
unfoldable pub try_direct_chord : Around → KeyEvent → Keyboard → Option Turn
unfolding dispatch_action
try_direct_chord around event k =
    direct_if (is_skipped around event k) (action_available around focus_card_switcher)
      (prevented_with k (dispatch_action around focus_card_switcher))

abbrev pub is_tab : TabRef → OrderedTab → Bool
is_tab ref t = str_eq t.host ref.host && str_eq t.id ref.tab_id

-- `findIndex`
abbrev pub index_of_tab : TabRef → List OrderedTab → Option ℕ
index_of_tab ref [] = none
index_of_tab ref (t ∷ ts) = elim (index_of_tab ref ts) [
  | none ↦ if is_tab ref t then some 0 else none
  | some i ↦ if is_tab ref t then some 0 else some (suc i)
]

abbrev pub current_index : Option TabRef → List OrderedTab → Option ℕ
current_index none tabs = none
current_index (some ref) tabs = index_of_tab ref tabs

-- `(((currentIndex + direction) % n) + n) % n`, where an absent index is -1 and the direction is 1 if
-- the Boolean is true and -1 if not; JavaScript's remainder of -1 and -2 is negative.
unfoldable pub next_index : Option ℕ → Bool → ℕ → ℕ
next_index none true n = 0
next_index none false n = (n * 2 - 2) % n
next_index (some i) true n = suc i % n
next_index (some i) false n = (i + n - 1) % n

unfoldable pub set_current_tab : OrderedTab → Keyboard → Keyboard
unfolding tab_filter
set_current_tab target k = record k {
  previous_tab = tab_filter k;
  scope =
      some (record {
        host = target.host;
        workspace_id = target.workspace_id;
        tab_id = some target.id;
      });
}

abbrev pub go_to : Option OrderedTab → Keyboard → Keyboard
go_to none k = k
go_to (some target) k = set_current_tab target k

-- Where the view moves between its tabs the board's scope stays.
unfoldable pub cycle_tab : Around → Bool → Keyboard → Turn
unfolding set_current_tab next_index tab_filter
cycle_tab around forward k =
    if is_available around.registered.tab_navigator
    then prevented_with k (step_tab forward ∷ [])
    else if length around.tabs == 0
    then prevented_with k []
    else prevented_with
        (go_to
          (get_elem? around.tabs
            (next_index (current_index (tab_filter k) around.tabs) forward (length around.tabs)))
          k)
        []

unfoldable pub jump_tab_by_index : Around → ℕ → Keyboard → Keyboard
unfolding set_current_tab
jump_tab_by_index around index k = go_to (get_elem? around.tabs index) k

abbrev pub scope_to : TabRef → Option OrderedTab → Keyboard → Keyboard
scope_to ref none k = k
scope_to ref (some t) k = if str_eq t.workspace_id "" then k else record k {
  scope =
      some (record { host = ref.host; workspace_id = t.workspace_id; tab_id = some ref.tab_id });
}

abbrev pub last_tab_from : Around → Option TabRef → Keyboard → Keyboard
last_tab_from around none k = k
last_tab_from around (some prev) k =
    scope_to prev (find (is_tab prev) around.tabs) (record k { previous_tab = tab_filter k })

unfoldable pub last_tab : Around → Keyboard → Keyboard
unfolding tab_filter
last_tab around k = last_tab_from around k.previous_tab k

abbrev pub on_current : (TabRef → Effect) → Option TabRef → List Effect
on_current effect none = []
on_current effect (some ref) = effect ref ∷ []

abbrev pub digits : List String
digits = "0" ∷ "1" ∷ "2" ∷ "3" ∷ "4" ∷ "5" ∷ "6" ∷ "7" ∷ "8" ∷ "9" ∷ []

abbrev pub digit_in : String → List String → Option ℕ
digit_in key [] = none
digit_in key (d ∷ ds) = elim (digit_in key ds) [
  | none ↦ if str_eq d key then some 0 else none
  | some i ↦ if str_eq d key then some 0 else some (suc i)
]

abbrev pub open_help : Keyboard → Keyboard
open_help k = record k { help_open = true }
