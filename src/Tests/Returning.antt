-- ===== src/Tests/Returning.antt =====
-- A card of the board of one workspace, opened and left again.
use kanhrd.Base.{◌≡◌, refl, true, false, some, none, List, [], ◌∷◌, ◌++◌, ◌<◌, ◌+◌, arith}
use kanhrd.Wire.{AgentStatus}
use kanhrd.Output.Delta.{Text, text_eq}
use kanhrd.State.BoardReturn.Url.{is_board_url, workspace_prefix, tab_prefix, slash}
use kanhrd.State.BoardReturn.{
  BoardGeometry, ClickedCard, BoardRestorePort, BoardReturnService, start, board_url, restore,
  finish_restore, retry_restore, restore_page, restore_column_scroll, focus_card, remember_board,
  remember_card, Attempt, return_focus_target,
}
use kanhrd.State.BoardReturn.Trip.{Move, leave, mount, open_card, run}
use kanhrd.State.BoardReturn.Laws.{Ticks, done, tick, retries, retry_restore_ends}
use kanhrd.State.BoardReturn.Visit.{departed}
use kanhrd.State.BoardReturn.Arrival.{
  target_of, all_wait, waiting_calls, calls_of, departed-returns,
}

-- `/workspace/1`, `/workspace/1/tab/2?a` and `/x`
abbrev workspace_url : Text
workspace_url = slash ∷ workspace_prefix ++ 49 ∷ []

abbrev tab_url : Text
tab_url = workspace_url ++ tab_prefix ++ 50 ∷ 63 ∷ 97 ∷ []

abbrev other_url : Text
other_url = slash ∷ 120 ∷ []

workspace_url_is_board : is_board_url workspace_url ≡ true
unfolding is_board_url
workspace_url_is_board = refl

tab_url_is_board : is_board_url tab_url ≡ true
unfolding is_board_url
tab_url_is_board = refl

other_url_is_none : is_board_url other_url ≡ false
unfolding is_board_url
other_url_is_none = refl

abbrev card : ClickedCard
card = record { pane_key = "h:p2"; status = AgentStatus.working; index = 1 }

abbrev geometry : BoardGeometry
geometry = record {
  scroll_left = 390;
  scroll_tops = record { status = AgentStatus.working; top = some 120 } ∷ [];
}

-- The card is gone; its place is now the last one of the column.
abbrev port : BoardRestorePort
port = record {
  current_url = workspace_url;
  ready = true;
  column_keys = λ status. "h:p1" ∷ "h:p3" ∷ [];
  focus_card = λ key. true;
}

abbrev skeleton : BoardRestorePort
skeleton = record {
  current_url = workspace_url;
  ready = false;
  column_keys = λ status. [];
  focus_card = λ key. false;
}

neighbour : return_focus_target (some "h:p2") 1 ("h:p1" ∷ "h:p3" ∷ []) ≡ some "h:p3"
unfolding return_focus_target
neighbour = refl

at_start : text_eq (start workspace_url).last_board_url workspace_url ≡ true
unfolding start is_board_url text_eq
at_start = refl

-- The skeleton, then the column without the card rendered.
abbrev unrendered : BoardRestorePort
unrendered = record {
  current_url = workspace_url;
  ready = true;
  column_keys = λ status. "h:p1" ∷ "h:p3" ∷ [];
  focus_card = λ key. false;
}

abbrev waiting : Ticks
waiting = tick 10 skeleton (tick 60 unrendered done)

waiting_waits : all_wait card (start workspace_url).last_board_url (10 + 2000) waiting ≡ true
unfolding start is_board_url text_eq return_focus_target
waiting_waits = refl

target : target_of card port ≡ some "h:p3"
unfolding return_focus_target
target = refl

abbrev mounted : BoardReturnService
mounted = restore 10 (departed card (other_url ∷ []) geometry [] (start workspace_url))

departed-returns_example :
    (board_url (departed card (other_url ∷ []) geometry [] (start workspace_url))
      ≡ (start workspace_url).last_board_url)
    × (calls_of waiting mounted ≡ waiting_calls card geometry waiting)
    × (retry_restore 110 port (retries waiting mounted) ≡ record {
      service = finish_restore mounted;
      calls =
          restore_page 390 ∷ restore_column_scroll AgentStatus.working 120 ∷ focus_card "h:p3" ∷ [];
    })
departed-returns_example =
    departed-returns card (other_url ∷ []) [] geometry "h:p3" 10 110 waiting port
      (start workspace_url) (other_url_is_none, tt) waiting_waits at_start (omega arith) refl target
      refl

abbrev visit : List Move
visit = open_card "h:p2" AgentStatus.working 1 ∷ leave geometry ∷ mount 10 ∷ []

visit_deadline : (run visit (start workspace_url)).deadline ≡ 2010
unfolding run start remember_card remember_board finish_restore restore
visit_deadline = refl

visit_late : (run visit (start workspace_url)).deadline < 2011
visit_late = omega (arith, visit_deadline)

abbrev late : Attempt
late = retry_restore 2011 port (retries (tick 60 skeleton done) (run visit (start workspace_url)))

retry_restore_ends_example :
    (late.service.restoring ≡ none) × (late.service.timer ≡ false) × (late.calls ≡ [])
retry_restore_ends_example =
    retry_restore_ends workspace_url visit (tick 60 skeleton done) 2011 port visit_late
