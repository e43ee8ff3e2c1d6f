-- ===== src/State/Keyboard.antt =====
-- apps/web/src/app/state/keyboard.service.ts: prefixes and chords, and the state of the keyboard. The
-- functions of the platform on texts are a parameter.
pub mod Tabs
pub mod Dispatch
pub mod Laws
use kanhrd.Base.{
  ℕ, String, Bool, true, false, not, ◌&&◌, ◌||◌, Option, none, some, List, [], ◌∷◌, ◌++◌,
  if◌then◌else◌, str_eq, includes, keep_if, map, or_else, concat,
}
use kanhrd.State.Layout.{Layout}

-- `split('+')`, `trim` and `toLowerCase`.
pub record Texts : Type 0 where
  pub split_plus : String → List String
  pub trim : String → String
  pub to_lower : String → String

pub record ParsedPrefix : Type 0 where
  pub ctrl : Bool
  pub meta : Bool
  pub shift : Bool
  pub alt : Bool
  pub key : String

abbrev pub last_part : List String → String
last_part [] = ""
last_part (p ∷ []) = p
last_part (p ∷ q ∷ ps) = last_part (q ∷ ps)

-- `parts.slice(0, -1)`
abbrev pub all_but_last : List String → List String
all_but_last [] = []
all_but_last (p ∷ []) = []
all_but_last (p ∷ q ∷ ps) = p ∷ all_but_last (q ∷ ps)

unfoldable pub parse_prefix : Texts → String → ParsedPrefix
parse_prefix js prefix =
    let parts = keep_if (λ p. not (str_eq p "")) (map js.trim (js.split_plus prefix)) in
    let mods = map js.to_lower (all_but_last parts) in
    record {
      ctrl = includes "ctrl" mods || includes "control" mods;
      meta = includes "meta" mods || includes "cmd" mods;
      shift = includes "shift" mods;
      alt = includes "alt" mods;
      key = js.to_lower (last_part parts);
    }

abbrev pub same : Bool → Bool → Bool
same true b = b
same false b = not b

unfoldable pub same_chord : Texts → String → String → Bool
unfolding parse_prefix
same_chord js a b =
    let x = parse_prefix js a in
    let y = parse_prefix js b in
    str_eq x.key y.key
    && (same x.ctrl y.ctrl && (same x.meta y.meta && (same x.shift y.shift && same x.alt y.alt)))

-- `KeyboardEvent`
pub record KeyEvent : Type 0 where
  pub key : String
  pub ctrl_key : Bool
  pub meta_key : Bool
  pub shift_key : Bool
  pub alt_key : Bool

unfoldable pub matches_prefix : Texts → String → KeyEvent → Bool
unfolding parse_prefix
matches_prefix js prefix event =
    let parsed = parse_prefix js prefix in
    str_eq (js.to_lower event.key) parsed.key
    && (same event.ctrl_key parsed.ctrl
        && (same event.meta_key parsed.meta
            && (same event.shift_key parsed.shift && same event.alt_key parsed.alt)))

-- The element that has the focus; none is `null`.
pub record Element : Type 0 where
  pub tag_name : String
  pub is_content_editable : Bool

unfoldable pub is_text_input_focused : Option Element → Bool
is_text_input_focused none = false
is_text_input_focused (some el) =
    str_eq el.tag_name "INPUT" || (str_eq el.tag_name "TEXTAREA" || el.is_content_editable)

pub record TabRef : Type 0 where
  pub host : String
  pub tab_id : String

-- A tab of the store, in its order.
pub record OrderedTab : Type 0 where
  pub host : String
  pub id : String
  pub workspace_id : String

-- `scopeSignal`
pub record BoardScope : Type 0 where
  pub host : String
  pub workspace_id : String
  pub tab_id : Option String

-- What the view registered: a card switcher or a tab navigator that is there answers whether it is
-- available.
pub record Registered : Type 0 where
  pub card_switcher : Option Bool
  pub tab_navigator : Option Bool

-- The state of the service, with what it changes of the store and of the layout.
pub record Keyboard : Type 0 where
  pub prefix_override : Option String
  pub help_open : Bool
  pub chord_armed : Bool
  pub chord_timer : Bool
  pub previous_tab : Option TabRef
  pub scope : Option BoardScope
  pub layout : Layout
  pub toasts : ℕ

-- What the service asks of other parts.
pub data Effect : Type 0 where
  new_pane : Effect
  step_tab : Bool → Effect
  focus_switcher : Effect
  next_card : Effect
  focus_rail : Effect
  toggle_theme : Effect
  dismiss_top : Effect
  navigate_root : Effect
  request_rename : TabRef → Effect
  request_close_tab : TabRef → Effect
  write_log : Effect

-- What does not change while a key is handled: the platform, the prefix of the first host, the tabs
-- and what is registered.
pub record Around : Type 0 where
  pub js : Texts
  pub host_prefix : Option String
  pub tabs : List OrderedTab
  pub registered : Registered

abbrev pub default_prefix : String
default_prefix = "Ctrl+B"

abbrev pub prefix_from : Option String → Option String → String
prefix_from (some override) host = override
prefix_from none host = or_else host default_prefix

-- The effective prefix.
unfoldable pub prefix : Around → Keyboard → String
prefix around k = prefix_from k.prefix_override around.host_prefix

-- Where the effective prefix comes from.
pub data PrefixSource : Type 0 where
  override : PrefixSource
  herdr_config : PrefixSource
  default_source : PrefixSource

unfoldable pub prefix_source : Around → Keyboard → PrefixSource
prefix_source around k = elim k.prefix_override [
  | some p ↦ override
  | none ↦ elim around.host_prefix [ some h ↦ herdr_config | none ↦ default_source ]
]

unfoldable pub set_prefix : String → Keyboard → Keyboard
set_prefix p k = record k { prefix_override = some p }

unfoldable pub reset_to_default : Keyboard → Keyboard
reset_to_default k = record k { prefix_override = none }

unfoldable pub arm_chord : Keyboard → Keyboard
arm_chord k = record k { chord_armed = true; chord_timer = true }

-- Also what the timer of the chord does when it goes off.
unfoldable pub disarm_chord : Keyboard → Keyboard
disarm_chord k = record k { chord_armed = false; chord_timer = false }

-- `tabFilterSignal`; a tab of the empty text counts as none.
abbrev pub tab_of_scope : Option String → String → Option TabRef
tab_of_scope none host = none
tab_of_scope (some tab_id) host =
    if str_eq tab_id "" then none else some (record { host = host; tab_id = tab_id })

abbrev pub tab_filter_of : Option BoardScope → Option TabRef
tab_filter_of none = none
tab_filter_of (some scope) = tab_of_scope scope.tab_id scope.host

unfoldable pub tab_filter : Keyboard → Option TabRef
tab_filter k = tab_filter_of k.scope
