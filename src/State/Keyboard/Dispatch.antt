-- ===== src/State/Keyboard/Dispatch.antt =====
-- `handleKeydown` of apps/web/src/app/state/keyboard.service.ts and what it dispatches to.
use kanhrd.Base.{
  ℕ, String, Bool, true, false, ◌||◌, Option, none, some, [], ◌∷◌, if◌then◌else◌, str_eq, ltb,
  is_some,
}
use kanhrd.State.Layout.{open_rail, close_rail, close_plus_menu, close_theme_panel}
use kanhrd.State.Keyboard.{
  KeyEvent, matches_prefix, Element, is_text_input_focused, Keyboard, new_pane, focus_rail,
  toggle_theme, dismiss_top, navigate_root, request_rename, request_close_tab, write_log, Around,
  prefix, arm_chord, disarm_chord, tab_filter,
}
use kanhrd.State.Keyboard.Tabs.{
  Turn, quiet, prevented_with, dispatch_action, try_direct_chord, cycle_tab, jump_tab_by_index,
  last_tab, on_current, digits, digit_in, open_help, focus_card_switcher, next_sibling_card,
}

-- The cases of the `switch` of `dispatchChordAction`.
pub data ChordKey : Type 0 where
  key_new key_next key_previous key_last key_rail key_switcher key_sibling : ChordKey
  key_close_tab key_close_pane key_rename key_help key_theme key_other : ChordKey

abbrev pub chord_key : String → ChordKey
chord_key key =
    if str_eq key "c"
    then key_new
    else if str_eq key "n"
    then key_next
    else if str_eq key "p"
    then key_previous
    else if str_eq key "l"
    then key_last
    else if str_eq key "w"
    then key_rail
    else if str_eq key "i"
    then key_switcher
    else if str_eq key "o"
    then key_sibling
    else if str_eq key "&"
    then key_close_tab
    else if str_eq key "x"
    then key_close_pane
    else if str_eq key ","
    then key_rename
    else if str_eq key "?"
    then key_help
    else if str_eq key "t" || str_eq key "T"
    then key_theme
    else key_other

unfoldable pub dispatch_chord_key : Around → ChordKey → Keyboard → Turn
unfolding cycle_tab last_tab dispatch_action
dispatch_chord_key around key_new k = prevented_with k (new_pane ∷ [])
dispatch_chord_key around key_next k = cycle_tab around true k
dispatch_chord_key around key_previous k = cycle_tab around false k
dispatch_chord_key around key_last k = prevented_with (last_tab around k) []
dispatch_chord_key around key_rail k =
    prevented_with (record k { layout = open_rail k.layout }) (focus_rail ∷ [])
dispatch_chord_key around key_switcher k =
    prevented_with k (dispatch_action around focus_card_switcher)
dispatch_chord_key around key_sibling k =
    prevented_with k (dispatch_action around next_sibling_card)
dispatch_chord_key around key_close_tab k =
    prevented_with k (on_current request_close_tab (tab_filter k))
dispatch_chord_key around key_close_pane k = prevented_with k (write_log ∷ [])
dispatch_chord_key around key_rename k = prevented_with k (on_current request_rename (tab_filter k))
dispatch_chord_key around key_help k = prevented_with (open_help k) []
dispatch_chord_key around key_theme k = prevented_with k (toggle_theme ∷ [])
dispatch_chord_key around key_other k = quiet k

abbrev pub chord_or_digit : Around → Option ℕ → String → Keyboard → Turn
chord_or_digit around none key k = dispatch_chord_key around (chord_key key) k
chord_or_digit around (some index) key k = prevented_with (jump_tab_by_index around index k) []

unfoldable pub dispatch_chord_action : Around → KeyEvent → Keyboard → Turn
unfolding dispatch_chord_key jump_tab_by_index
dispatch_chord_action around event k = chord_or_digit around (digit_in event.key digits) event.key k

-- What Escape closes.
pub data Overlay : Type 0 where
  help_overlay toast_overlay plus_menu theme_panel rail_overlay scope_pill no_overlay : Overlay

abbrev pub top_overlay : Keyboard → Overlay
top_overlay k =
    if k.help_open
    then help_overlay
    else if ltb 0 k.toasts
    then toast_overlay
    else if k.layout.plus_menu_open
    then plus_menu
    else if k.layout.theme_panel_open
    then theme_panel
    else if k.layout.rail_open
    then rail_overlay
    else if is_some k.scope
    then scope_pill
    else no_overlay

-- The scope is left by navigating.
unfoldable pub close_overlay : Overlay → Keyboard → Turn
close_overlay help_overlay k = quiet (record k { help_open = false })
close_overlay toast_overlay k = record {
  keyboard = k;
  effects = dismiss_top ∷ [];
  prevented = false;
}
close_overlay plus_menu k = quiet (record k { layout = close_plus_menu k.layout })
close_overlay theme_panel k = quiet (record k { layout = close_theme_panel k.layout })
close_overlay rail_overlay k = quiet (record k { layout = close_rail k.layout })
close_overlay scope_pill k = record {
  keyboard = k;
  effects = navigate_root ∷ [];
  prevented = false;
}
close_overlay no_overlay k = quiet k

unfoldable pub close_top_overlay : Keyboard → Turn
unfolding close_overlay
close_top_overlay k = close_overlay (top_overlay k) k

-- The cases of the `switch` of `dispatchNonChordAction`.
pub data PlainKey : Type 0 where
  plain_help plain_escape plain_search plain_theme plain_other : PlainKey

abbrev pub plain_key : String → PlainKey
plain_key key =
    if str_eq key "?"
    then plain_help
    else if str_eq key "Escape"
    then plain_escape
    else if str_eq key "/"
    then plain_search
    else if str_eq key "t" || str_eq key "T"
    then plain_theme
    else plain_other

unfoldable pub dispatch_plain_key : PlainKey → Keyboard → Turn
unfolding close_top_overlay
dispatch_plain_key plain_help k = prevented_with (open_help k) []
dispatch_plain_key plain_escape k = close_top_overlay k
dispatch_plain_key plain_search k = prevented_with k (write_log ∷ [])
dispatch_plain_key plain_theme k = record {
  keyboard = k;
  effects = toggle_theme ∷ [];
  prevented = false;
}
dispatch_plain_key plain_other k = quiet k

unfoldable pub dispatch_non_chord_action : KeyEvent → Keyboard → Turn
unfolding dispatch_plain_key
dispatch_non_chord_action event k = dispatch_plain_key (plain_key event.key) k

-- The whole turn, and whether the propagation of the event was stopped.
pub record Handled : Type 0 where
  pub turn : Turn
  pub stopped : Bool

abbrev pub recognized : Turn → Handled
recognized t = record { turn = t; stopped = t.prevented }

abbrev pub handle_chord : Around → KeyEvent → Keyboard → Turn
handle_chord around event k =
    if k.chord_armed
    then dispatch_chord_action around event (disarm_chord k)
    else if matches_prefix around.js (prefix around k) event
    then prevented_with (arm_chord k) []
    else dispatch_non_chord_action event k

abbrev pub after_direct : Around → KeyEvent → Option Element → Keyboard → Option Turn → Handled
after_direct around event focus k (some t) = record { turn = t; stopped = true }
after_direct around event focus k none =
    if is_text_input_focused focus
    then record { turn = quiet (disarm_chord k); stopped = false }
    else recognized (handle_chord around event k)

unfoldable pub handle_keydown : Around → KeyEvent → Option Element → Keyboard → Handled
unfolding try_direct_chord dispatch_chord_action dispatch_non_chord_action
handle_keydown around event focus k =
    after_direct around event focus k (try_direct_chord around event k)
