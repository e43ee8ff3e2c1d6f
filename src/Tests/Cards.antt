-- ===== src/Tests/Cards.antt =====
-- The cards of a board in bands, an action on the board, and a chord typed on the board.
use kanhrd.Base.{
  ◌≡◌, ◌⊎◌, refl, true, false, ◌&&◌, none, some, [], ◌∷◌, lookup, arith, keep_if, str_eq, is_some,
  if◌then◌else◌,
}
use kanhrd.Wire.{AgentStatus}
use kanhrd.State.Panes.Placing.{shows_in_status}
use kanhrd.State.Panes.Swimlanes.{by_tab, band_of, group_into_swimlanes}
use kanhrd.State.Panes.Swimlanes.Bands.{lane_at, cards, group_into_swimlanes-column}
use kanhrd.State.Actions.{act, close_tab}
use kanhrd.State.Actions.Kept.{IsBoard, act-IsBoard}
use kanhrd.State.Parked.{never}
use kanhrd.State.Frame.Release.{is_dropped}
use kanhrd.State.Frame.{BoardState}
use kanhrd.State.Layout.{closed_layout}
use kanhrd.State.Keyboard.{
  Keyboard, KeyEvent, Around, Effect, is_text_input_focused, same_chord, prefix, matches_prefix,
}
use kanhrd.State.Keyboard.Tabs.{try_direct_chord}
use kanhrd.State.Keyboard.Dispatch.{handle_keydown}
use kanhrd.State.Keyboard.Laws.{IsTimed, IsSpent, IgnoredTyping, handle_keydown_lem}
use kanhrd.Tests.Board.{board}
use kanhrd.Tests.Columns.{panes, filters, membership}

group_into_swimlanes-column_example :
    cards AgentStatus.working (
      lane_at "local:t1"
        (group_into_swimlanes (λ a b. true) panes filters (some by_tab) membership ("p1" ∷ [])))
    ≡ keep_if
        (λ p.
          str_eq (band_of p by_tab).key "local:t1"
          && shows_in_status filters membership ("p1" ∷ []) AgentStatus.working p)
        panes
group_into_swimlanes-column_example =
    group_into_swimlanes-column (λ a b. true) panes filters by_tab membership ("p1" ∷ []) "local:t1"
      AgentStatus.working

-- The card is in a parked column.
abbrev one_card : BoardState
one_card = record {
  maps = board;
  parked = record {
    columns = record { id = "p1"; name = "later"; exit_rule = never; order = 0 } ∷ [];
    membership = ("local:1", "p1") ∷ [];
  };
}

one_card-IsBoard : IsBoard one_card
one_card-IsBoard = record {
  keyed = record { panes = (refl, tt); workspaces = (refl, tt); tabs = (refl, tt) };
  consistent = record { distinct = λ id. ground arith; known = (omega arith, tt) };
}

act-IsBoard_example :
    IsBoard (act (close_tab "local" "t1") one_card)
    × (lookup "local:1" (act (close_tab "local" "t1") one_card).parked.membership ≡ (
        if is_dropped "local:1" board.panes (act (close_tab "local" "t1") one_card).maps.panes
        then none
        else some "p1"))
unfolding lookup
act-IsBoard_example = act-IsBoard (close_tab "local" "t1") one_card "local:1" one_card-IsBoard

abbrev around : Around
around = record {
  js = record {
    split_plus = λ s. if str_eq s "Ctrl+B" then "Ctrl" ∷ "B" ∷ [] else "Ctrl" ∷ "Alt" ∷ "I" ∷ [];
    trim = λ s. s;
    to_lower = λ s. if str_eq s "Ctrl" then "ctrl" else if str_eq s "B" then "b" else s;
  };
  host_prefix = none;
  tabs = [];
  registered = record { card_switcher = none; tab_navigator = none };
}

-- The chord is armed and its timer is set.
abbrev armed : Keyboard
armed = record {
  prefix_override = none;
  help_open = false;
  chord_armed = true;
  chord_timer = true;
  previous_tab = none;
  scope = none;
  layout = closed_layout;
  toasts = 0;
}

abbrev key_c : KeyEvent
key_c = record { key = "c"; ctrl_key = false; meta_key = false; shift_key = false; alt_key = false }

handle_keydown_lem_example :
    IsTimed (handle_keydown around key_c none armed).turn.keyboard
    × ((handle_keydown around key_c none armed).stopped
        ≡ (handle_keydown around key_c none armed).turn.prevented)
    × ((is_some (try_direct_chord around key_c armed) ≡ true)
        ⊎ (IsSpent armed (handle_keydown around key_c none armed).turn.keyboard
            × ((is_text_input_focused none ≡ false)
                ⊎ IgnoredTyping armed (handle_keydown around key_c none armed).turn)))
handle_keydown_lem_example = handle_keydown_lem around key_c none armed refl

-- The chord and `c` ask for a new pane.
asks_for_new_pane : (handle_keydown around key_c none armed).turn.effects ≡ Effect.new_pane ∷ []
unfolding handle_keydown try_direct_chord same_chord prefix matches_prefix is_text_input_focused
asks_for_new_pane = refl
