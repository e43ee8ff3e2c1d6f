-- ===== src/State/BoardReturn.antt =====
-- apps/web/src/app/state/board-return.service.ts: the way out of the board and back into it. A URL is
-- the list of its code units; the router's events, the clock and the timer of the pump are arguments.
pub mod Url
pub mod Trip
pub mod Laws
pub mod Visit
pub mod Arrival
use kanhrd.Base.{
  ℕ, ◌+◌, ◌-◌, min, max, String, Bool, true, false, not, ◌||◌, Option, none, some, List, [], ◌∷◌,
  ◌++◌, length, get_elem?, ltb, ◌==◌, if◌then◌else◌, includes, or_else, truthy,
}
use kanhrd.Wire.{AgentStatus}
use kanhrd.Output.Delta.{Text, text_eq}
use kanhrd.State.BoardReturn.Url.{is_board_url, root_url}

-- The vertical offset of one status column; `none` is `undefined`.
pub record ScrollTop : Type 0 where
  pub status : AgentStatus
  pub top : Option ℕ

pub record BoardGeometry : Type 0 where
  pub scroll_left : ℕ
  pub scroll_tops : List ScrollTop

pub record BoardReturn : Type 0 where
  pub url : Text
  pub pane_key : Option String
  pub status : Option AgentStatus
  pub index : ℕ
  pub geometry : BoardGeometry

pub record ClickedCard : Type 0 where
  pub pane_key : String
  pub status : AgentStatus
  pub index : ℕ

-- The state of the service; `has_port` says whether it holds a board's port, `timer` whether the
-- pump's timer is set.
pub record BoardReturnService : Type 0 where
  pub pending : Option BoardReturn
  pub clicked_card : Option ClickedCard
  pub last_board_url : Text
  pub restoring : Option BoardReturn
  pub has_port : Bool
  pub deadline : ℕ
  pub timer : Bool

abbrev pub restore_grace_ms : ℕ
restore_grace_ms = 2000

-- What the port answers during one attempt.
pub record BoardRestorePort : Type 0 where
  pub current_url : Text
  pub ready : Bool
  pub column_keys : AgentStatus → List String
  pub focus_card : String → Bool

-- The calls of the port that change the view.
pub data PortCall : Type 0 where
  restore_page : ℕ → PortCall
  restore_column_scroll : AgentStatus → ℕ → PortCall
  focus_card : String → PortCall

pub record Attempt : Type 0 where
  pub service : BoardReturnService
  pub calls : List PortCall

-- At start, with the URL of the router.
unfoldable pub start : Text → BoardReturnService
start url = record {
  pending = none;
  clicked_card = none;
  last_board_url = if is_board_url url then url else root_url;
  restoring = none;
  has_port = false;
  deadline = 0;
  timer = false;
}

-- The router has arrived at a URL.
unfoldable pub navigated : Text → BoardReturnService → BoardReturnService
navigated url s = if is_board_url url then record s { last_board_url = url } else s

unfoldable pub remember_card : String → AgentStatus → ℕ → BoardReturnService → BoardReturnService
remember_card pane_key status index s = record s {
  clicked_card = some (record { pane_key = pane_key; status = status; index = index });
}

unfoldable pub finish_restore : BoardReturnService → BoardReturnService
finish_restore s = record s { restoring = none; has_port = false; timer = false }

abbrev pub record_of : Text → BoardGeometry → Option ClickedCard → BoardReturn
record_of url geometry none = record {
  url = url;
  pane_key = none;
  status = none;
  index = 0;
  geometry = geometry;
}
record_of url geometry (some card) = record {
  url = url;
  pane_key = some card.pane_key;
  status = some card.status;
  index = card.index;
  geometry = geometry;
}

unfoldable pub remember_board : BoardGeometry → BoardReturnService → BoardReturnService
unfolding finish_restore
remember_board geometry s =
    let t = finish_restore s in
    record t {
      clicked_card = none;
      pending = some (record_of t.last_board_url geometry t.clicked_card);
    }

abbrev pub url_of : Option BoardReturn → Text
url_of none = root_url
url_of (some r) = r.url

unfoldable pub board_url : BoardReturnService → Text
board_url s = url_of s.pending

abbrev pub restore_record : ℕ → Option BoardReturn → BoardReturnService → BoardReturnService
restore_record now none s = s
restore_record now (some r) s = record s {
  restoring = some r;
  has_port = true;
  deadline = now + restore_grace_ms;
}

unfoldable pub restore : ℕ → BoardReturnService → BoardReturnService
restore now s = restore_record now s.pending (record s { pending = none })

abbrev pub clamped : ℕ → List String → Option String
clamped index [] = none
clamped index (key ∷ keys) = get_elem? (key ∷ keys) (min (max index 0) (length (key ∷ keys) - 1))

-- The card that holds the focus on return.
unfoldable pub return_focus_target : Option String → ℕ → List String → Option String
return_focus_target none index column_keys = clamped index column_keys
return_focus_target (some pane_key) index column_keys =
    if includes pane_key column_keys then some pane_key else clamped index column_keys

abbrev pub scroll_column : AgentStatus → Option ℕ → List PortCall
scroll_column status none = []
scroll_column status (some top) = restore_column_scroll status top ∷ []

abbrev pub scroll_columns : List ScrollTop → List PortCall
scroll_columns [] = []
scroll_columns (s ∷ tops) = scroll_column s.status s.top ++ scroll_columns tops

unfoldable pub restore_scroll : BoardReturn → List PortCall
restore_scroll r = restore_page r.geometry.scroll_left ∷ scroll_columns r.geometry.scroll_tops

-- No target ends the restore; a card that has not rendered keeps it in flight.
abbrev pub focus_on :
    BoardRestorePort → Option String → List PortCall → BoardReturnService → Attempt
focus_on port none calls s = record { service = finish_restore s; calls = calls }
focus_on port (some target) calls s = record {
  service = if port.focus_card target then finish_restore s else s;
  calls = calls ++ focus_card target ∷ [];
}

abbrev pub focus_in :
    BoardRestorePort → Option AgentStatus → BoardReturn → BoardReturnService → Attempt
focus_in port none r s = record { service = finish_restore s; calls = restore_scroll r }
focus_in port (some status) r s =
    focus_on port (truthy (return_focus_target r.pane_key r.index (port.column_keys status)))
      (restore_scroll r) s

abbrev pub attempt : ℕ → BoardRestorePort → Option BoardReturn → BoardReturnService → Attempt
attempt now port none s = record { service = s; calls = [] }
attempt now port (some r) s =
    if not (text_eq r.url port.current_url) || ltb s.deadline now
    then record { service = finish_restore s; calls = [] }
    else if not port.ready
    then record { service = s; calls = [] }
    else focus_in port r.status r s

unfoldable pub try_restore : ℕ → BoardRestorePort → BoardReturnService → Attempt
unfolding finish_restore restore_scroll return_focus_target
try_restore now port s =
    if s.has_port then attempt now port s.restoring s else record { service = s; calls = [] }

abbrev pub pump : Option BoardReturn → BoardReturnService → BoardReturnService
pump none s = s
pump (some r) s = record s { timer = true }

-- Called by the board, and by the pump's timer when it goes off.
unfoldable pub retry_restore : ℕ → BoardRestorePort → BoardReturnService → Attempt
unfolding try_restore
retry_restore now port s =
    let tried = try_restore now port s in
    record { service = pump tried.service.restoring tried.service; calls = tried.calls }

unfoldable pub clear : BoardReturnService → BoardReturnService
unfolding finish_restore
clear s = record (finish_restore s) { pending = none; clicked_card = none }
