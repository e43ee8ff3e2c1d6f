-- ===== src/State/BoardReturn/Arrival.antt =====
-- The restore pump of apps/web/src/app/state/board-return.service.ts from the mounted board to the
-- card: the attempts that wait, and the one that lands.
use kanhrd.Base.{
  ℕ, ◌+◌, ◌≤◌, ◌≡◌, refl, ap, String, Bool, true, false, not, ◌&&◌, ◌||◌, Option, none, some, List,
  [], ◌∷◌, ◌++◌, All, truthy, arith, Bool-cases, inl, inr, ltb, if◌then◌else◌, and-eq-true,
  Option-cases,
}
use kanhrd.Output.Delta.{Text, text_eq}
use kanhrd.State.BoardReturn.Url.{is_board_url}
use kanhrd.State.BoardReturn.{
  PortCall, ClickedCard, restore_page, focus_card, scroll_columns, restore_scroll, BoardGeometry,
  BoardReturnService, finish_restore, record_of, board_url, restore_record, restore,
  BoardRestorePort, restore_grace_ms, retry_restore, try_restore, return_focus_target,
}
use kanhrd.State.BoardReturn.Laws.{Ticks, done, tick, retries}
use kanhrd.State.BoardReturn.Visit.{departed, departed-pending}

-- The card that a port would be asked to focus.
abbrev pub target_of : ClickedCard → BoardRestorePort → Option String
target_of card port =
    truthy (return_focus_target (some card.pane_key) card.index (port.column_keys card.status))

abbrev pub is_unrendered : BoardRestorePort → Option String → Bool
is_unrendered port none = false
is_unrendered port (some target) = not (port.focus_card target)

-- The board is at the URL before the deadline, and shows its skeleton, or has not rendered the card.
abbrev pub waits : ClickedCard → Text → ℕ → ℕ → BoardRestorePort → Bool
waits card url deadline now port =
    text_eq url port.current_url
    && (not (ltb deadline now) && (not port.ready || is_unrendered port (target_of card port)))

abbrev pub all_wait : ClickedCard → Text → ℕ → Ticks → Bool
all_wait card url deadline done = true
all_wait card url deadline (tick now port ticks) =
    waits card url deadline now port && all_wait card url deadline ticks

abbrev pub focus_calls : Option String → List PortCall
focus_calls none = []
focus_calls (some target) = focus_card target ∷ []

-- The page, the columns' offsets, then the focus.
abbrev pub placing : BoardGeometry → Option String → List PortCall
placing geometry target =
    restore_page geometry.scroll_left ∷ scroll_columns geometry.scroll_tops ++ focus_calls target

-- What an attempt that waits does to a board: nothing while it shows its skeleton.
abbrev pub waiting_calls : ClickedCard → BoardGeometry → Ticks → List PortCall
waiting_calls card geometry done = []
waiting_calls card geometry (tick now port ticks) =
    (if port.ready then placing geometry (target_of card port) else [])
    ++ waiting_calls card geometry ticks

-- The calls of the port that a sequence of attempts makes.
unfoldable pub calls_of : Ticks → BoardReturnService → List PortCall
calls_of done s = []
calls_of (tick now port ticks) s =
    (retry_restore now port s).calls ++ calls_of ticks (retry_restore now port s).service

-- A restore of the visit's record in flight.
abbrev in_flight :
    Text → BoardGeometry → ClickedCard → BoardReturnService → Bool → BoardReturnService
in_flight url geometry card s timer = record s {
  restoring = some (record_of url geometry (some card));
  has_port = true;
  timer = timer;
}

waits-stays :
    (url : Text) (geometry : BoardGeometry) (card : ClickedCard) (s : BoardReturnService)
    (timer : Bool) (now : ℕ) (port : BoardRestorePort)
    → waits card url s.deadline now port ≡ true
    → retry_restore now port (in_flight url geometry card s timer) ≡ record {
      service = in_flight url geometry card s true;
      calls = if port.ready then placing geometry (target_of card port) else [];
    }
unfolding retry_restore try_restore restore_scroll finish_restore
waits-stays url geometry card s timer now port h =
    let still_waits = not port.ready || is_unrendered port (target_of card port) in
    let (at_url, rest) =
      and-eq-true (text_eq url port.current_url) (not (ltb s.deadline now) && still_waits) h in
    let (early, still) = and-eq-true (not (ltb s.deadline now)) still_waits rest in
    elim (Bool-cases port.ready) [
      | inr e ↦ rw (at_url, in_time early, e) refl
      | inl e ↦ elim (Option-cases (target_of card port)) [
        | inl t ↦ absurd (ground (arith, e, t, still))
        | inr (target, t) ↦ rw (at_url, in_time early, e, t, unrendered target t e still) refl
      ]
    ]
  where
    in_time : not (ltb s.deadline now) ≡ true → ltb s.deadline now ≡ false
    in_time early = ground arith

    unrendered :
        (target : String)
        → target_of card port ≡ some target
        → port.ready ≡ true
        → (not port.ready || is_unrendered port (target_of card port)) ≡ true
        → port.focus_card target ≡ false
    unrendered target t e still = ground (arith, rw (e, t) at still)

attempts-wait :
    (url : Text) (geometry : BoardGeometry) (card : ClickedCard) (s : BoardReturnService)
    (timer : Bool) (ticks : Ticks)
    → all_wait card url s.deadline ticks ≡ true
    → ((after : Bool) × (retries ticks (in_flight url geometry card s timer)
          ≡ in_flight url geometry card s after))
      × (calls_of ticks (in_flight url geometry card s timer) ≡ waiting_calls card geometry ticks)
unfolding retries calls_of
attempts-wait url geometry card s timer done h = ((timer, refl), refl)
attempts-wait url geometry card s timer (tick now port ticks) h =
    let (first, rest) =
      and-eq-true (waits card url s.deadline now port) (all_wait card url s.deadline ticks) h in
    let ((after, state), calls) = attempts-wait url geometry card s true ticks rest in
    rw (waits-stays url geometry card s timer now port first) (
      (after, state),
      ap (λ l. (if port.ready then placing geometry (target_of card port) else []) ++ l) calls,
    )

-- An attempt on a board that shows the target ends the restore.
lands :
    (url : Text) (geometry : BoardGeometry) (card : ClickedCard) (s : BoardReturnService)
    (timer : Bool) (now : ℕ) (port : BoardRestorePort) (target : String)
    → text_eq url port.current_url ≡ true
    → now ≤ s.deadline
    → port.ready ≡ true
    → target_of card port ≡ some target
    → port.focus_card target ≡ true
    → retry_restore now port (in_flight url geometry card s timer)
      ≡ record { service = finish_restore s; calls = placing geometry (some target) }
unfolding retry_restore try_restore finish_restore restore_scroll
lands url geometry card s timer now port target at_url early ready found focused =
    rw (at_url, in_grace, ready, found, focused) refl
  where
    in_grace : ltb s.deadline now ≡ false
    in_grace = ground arith

-- A visit of a card comes back to it. The board is mounted again at the URL that the card was opened
-- from, and as often as the pump or the board tries within the grace it shows its skeleton or has not
-- rendered the card (or, once the card is gone, its neighbour): each try on a board that is ready puts
-- the page and the columns' offsets back and asks for the focus, and the restore stays in flight. The
-- first try within the grace that finds the card puts them back once more, then focuses it, and the
-- restore is over. Until the board is mounted the back control names it, whatever URLs the router
-- went through.
pub departed-returns :
    (card : ClickedCard) (away onwards : List Text) (geometry : BoardGeometry) (target : String)
    (mounted now : ℕ) (ticks : Ticks) (port : BoardRestorePort) (s : BoardReturnService)
    → All (λ url. is_board_url url ≡ false) away
    → all_wait card s.last_board_url (mounted + restore_grace_ms) ticks ≡ true
    → text_eq s.last_board_url port.current_url ≡ true
    → now ≤ mounted + restore_grace_ms
    → port.ready ≡ true
    → target_of card port ≡ some target
    → port.focus_card target ≡ true
    → (board_url (departed card away geometry onwards s) ≡ s.last_board_url)
      × (calls_of ticks (restore mounted (departed card away geometry onwards s))
          ≡ waiting_calls card geometry ticks)
      × (retry_restore now port
            (retries ticks (restore mounted (departed card away geometry onwards s)))
          ≡ record {
            service = finish_restore (restore mounted (departed card away geometry onwards s));
            calls = placing geometry (some target);
          })
unfolding board_url restore finish_restore
departed-returns card away onwards geometry target mounted now ticks port s h waiting at_url early
      ready found focused =
    let ((after, state), calls) =
      attempts-wait s.last_board_url geometry card held held.timer ticks waiting in
    (
      rw (departed-pending card away onwards geometry s h) refl,
      rw restored calls,
      rw (restored, state)
          (lands s.last_board_url geometry card held after now port target at_url early ready found
            focused),
    )
  where
    held : BoardReturnService
    held = record (departed card away geometry onwards s) {
      pending = none;
      deadline = mounted + restore_grace_ms;
    }

    restored :
        restore mounted (departed card away geometry onwards s)
        ≡ in_flight s.last_board_url geometry card held held.timer
    restored =
        ap
          (λ o.
            restore_record mounted o
              (record (departed card away geometry onwards s) { pending = none }))
          (departed-pending card away onwards geometry s h)
