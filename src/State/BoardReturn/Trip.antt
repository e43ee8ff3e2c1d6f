-- ===== src/State/BoardReturn/Trip.antt =====
-- Opening a card and coming back, with the calls of
-- apps/web/src/app/state/board-return.service.ts in the order in which a visit makes them.
use kanhrd.Base.{
  ℕ, ◌≤◌, ◌≡◌, refl, sym, ap, ◌∙◌, subst, String, Bool, true, false, not, ◌||◌, Option, none, some,
  List, [], ◌∷◌, is_some, arith, Bool-cases, ◌⊎◌, inl, inr, or-eq-false, Option-cases, ltb,
  if◌then◌else◌,
}
use kanhrd.Wire.{AgentStatus}
use kanhrd.Output.Delta.{Text, text_eq}
use kanhrd.State.BoardReturn.Url.{is_board_url, root_url}
use kanhrd.State.BoardReturn.{
  PortCall, BoardGeometry, BoardReturn, BoardReturnService, start, navigated, remember_card,
  finish_restore, record_of, remember_board, url_of, restore_record, restore, BoardRestorePort,
  pump, retry_restore, clear, try_restore, attempt, focus_in, focus_on,
}

-- One call of the service.
pub data Move : Type 0 where
  navigate : Text → Move
  open_card : String → AgentStatus → ℕ → Move
  leave : BoardGeometry → Move
  mount : ℕ → Move
  retry : ℕ → BoardRestorePort → Move
  forget : Move

abbrev pub move : Move → BoardReturnService → BoardReturnService
move (navigate url) s = navigated url s
move (open_card pane_key status index) s = remember_card pane_key status index s
move (leave geometry) s = remember_board geometry s
move (mount now) s = restore now s
move (retry now port) s = (retry_restore now port s).service
move forget s = clear s

unfoldable pub run : List Move → BoardReturnService → BoardReturnService
run [] s = s
run (m ∷ moves) s = run moves (move m s)

-- A port is held, and the pump waits, only for a restore in flight; what is remembered is a board.
pub record IsReturning (s : BoardReturnService) : Type 0 where
  pub held : s.has_port ≡ is_some s.restoring
  pub timed : (not s.timer || is_some s.restoring) ≡ true
  pub last : is_board_url s.last_board_url ≡ true
  pub remembered : is_board_url (url_of s.pending) ≡ true

root-IsBoardUrl : is_board_url root_url ≡ true
unfolding is_board_url
root-IsBoardUrl = refl

pub start-IsReturning : (url : Text) → IsReturning (start url)
unfolding start
start-IsReturning url = record {
  held = refl;
  timed = refl;
  last = ground (arith, root-IsBoardUrl);
  remembered = root-IsBoardUrl;
}

navigated-IsReturning :
    (url : Text) (s : BoardReturnService) → IsReturning s → IsReturning (navigated url s)
unfolding navigated
navigated-IsReturning url s h = elim (Bool-cases (is_board_url url)) [
  | inl e ↦ rw e (record { held = h.held; timed = h.timed; last = e; remembered = h.remembered })
  | inr e ↦ rw e h
]

finish-IsReturning : (s : BoardReturnService) → IsReturning s → IsReturning (finish_restore s)
unfolding finish_restore
finish-IsReturning s h = record {
  held = refl;
  timed = refl;
  last = h.last;
  remembered = h.remembered;
}

record_of-url : (url : Text) (g : BoardGeometry) (o : Option _) → (record_of url g o).url ≡ url
record_of-url url g none = refl
record_of-url url g (some card) = refl

remember_board-IsReturning :
    (g : BoardGeometry) (s : BoardReturnService) → IsReturning s → IsReturning (remember_board g s)
unfolding remember_board finish_restore
remember_board-IsReturning g s h = record {
  held = refl;
  timed = refl;
  last = h.last;
  remembered = rw (record_of-url s.last_board_url g s.clicked_card) h.last;
}

restore_record-IsReturning :
    (now : ℕ) (o : Option BoardReturn) (s : BoardReturnService)
    → IsReturning s
    → IsReturning (restore_record now o s)
restore_record-IsReturning now none s h = h
restore_record-IsReturning now (some r) s h = record {
  held = refl;
  timed = ground arith;
  last = h.last;
  remembered = h.remembered;
}

restore-IsReturning :
    (now : ℕ) (s : BoardReturnService) → IsReturning s → IsReturning (restore now s)
unfolding restore
restore-IsReturning now s h =
    restore_record-IsReturning now s.pending (record s { pending = none })
      (record { held = h.held; timed = h.timed; last = h.last; remembered = root-IsBoardUrl })

focus_on-cases :
    (port : BoardRestorePort) (o : Option String) (calls : List PortCall) (s : BoardReturnService)
    → ((focus_on port o calls s).service ≡ finish_restore s)
      ⊎ ((focus_on port o calls s).service ≡ s)
focus_on-cases port none calls s = inl refl
focus_on-cases port (some target) calls s = elim (Bool-cases (port.focus_card target)) [
  | inl e ↦ rw e (inl refl)
  | inr e ↦ rw e (inr refl)
]

focus_in-cases :
    (port : BoardRestorePort) (o : Option AgentStatus) (r : BoardReturn) (s : BoardReturnService)
    → ((focus_in port o r s).service ≡ finish_restore s) ⊎ ((focus_in port o r s).service ≡ s)
focus_in-cases port none r s = inl refl
focus_in-cases port (some status) r s = focus_on-cases port _ _ s

pub in_time : (b : Bool) (now deadline : ℕ) → (b || ltb deadline now) ≡ false → now ≤ deadline
in_time b now deadline e = ground (arith, (or-eq-false b (ltb deadline now) e).1)

-- An attempt ends the restore, or leaves the service as it was before the deadline.
pub attempt-cases :
    (now : ℕ) (port : BoardRestorePort) (r : BoardReturn) (s : BoardReturnService)
    → ((attempt now port (some r) s).service ≡ finish_restore s)
      ⊎ ((attempt now port (some r) s).service ≡ s) × (now ≤ s.deadline)
attempt-cases now port r s =
    elim (Bool-cases (not (text_eq r.url port.current_url) || ltb s.deadline now)) [
      | inl e ↦ rw e (inl refl)
      | inr e ↦ elim (Bool-cases (not port.ready)) [
        | inl f ↦ rw (e, f) (inr (refl, in_time _ now s.deadline e))
        | inr f ↦ elim (focus_in-cases port r.status r s) [
          | inl g ↦ rw (e, f) (inl g)
          | inr g ↦ rw (e, f) (inr (g, in_time _ now s.deadline e))
        ]
      ]
    ]

finish-idle : (s : BoardReturnService) → IsReturning s → s.restoring ≡ none → s ≡ finish_restore s
unfolding finish_restore
finish-idle s h e = ground (arith, h.held, h.timed)

try_restore-idle :
    (now : ℕ) (port : BoardRestorePort) (s : BoardReturnService)
    → s.restoring ≡ none
    → (try_restore now port s).service ≡ s
unfolding try_restore
try_restore-idle now port s e = elim (Bool-cases s.has_port) [
  | inl p ↦ rw (p, e) refl
  | inr p ↦ rw p refl
]

pub try_restore-attempt :
    (now : ℕ) (port : BoardRestorePort) (r : BoardReturn) (s : BoardReturnService)
    → IsReturning s
    → s.restoring ≡ some r
    → try_restore now port s ≡ attempt now port (some r) s
unfolding try_restore
try_restore-attempt now port r s h e =
    subst
      (λ b.
        (if b then attempt now port s.restoring s else record { service = s; calls = [] })
        ≡ attempt now port (some r) s)
      (sym (h.held ∙ ap (λ o. is_some o) e)) (ap (λ o. attempt now port o s) e)

pump-idle :
    (s : BoardReturnService)
    → IsReturning s
    → s.restoring ≡ none
    → pump s.restoring s ≡ finish_restore s
pump-idle s h e = subst (λ o. pump o s ≡ finish_restore s) (sym e) (finish-idle s h e)

pump-armed :
    (s : BoardReturnService) (r : BoardReturn)
    → s.restoring ≡ some r
    → pump s.restoring s ≡ record s { timer = true }
pump-armed s r e = subst (λ o. pump o s ≡ record s { timer = true }) (sym e) refl

-- After a call of the pump the timer runs exactly for a restore in flight, and then the deadline has
-- not passed and nothing else has changed.
pub retry_restore-cases :
    (now : ℕ) (port : BoardRestorePort) (s : BoardReturnService)
    → IsReturning s
    → ((retry_restore now port s).service ≡ finish_restore s)
      ⊎ ((retry_restore now port s).service ≡ record s { timer = true })
        × (now ≤ s.deadline)
        × (is_some s.restoring ≡ true)
unfolding retry_restore finish_restore
retry_restore-cases now port s h = elim (Option-cases s.restoring) [
  | inl e ↦ rw (try_restore-idle now port s e) (inl (pump-idle s h e))
  | inr (r, e) ↦ elim (attempt-cases now port r s) [
    | inl g ↦ rw (try_restore-attempt now port r s h e, g) (inl refl)
    | inr (g, late) ↦
        rw (try_restore-attempt now port r s h e, g)
          (inr (pump-armed s r e, late, ap (λ o. is_some o) e))
  ]
]

pub move-IsReturning : (m : Move) (s : BoardReturnService) → IsReturning s → IsReturning (move m s)
unfolding remember_card clear
move-IsReturning (navigate url) s h = navigated-IsReturning url s h
move-IsReturning (open_card pane_key status index) s h = record {
  held = h.held;
  timed = h.timed;
  last = h.last;
  remembered = h.remembered;
}
move-IsReturning (leave geometry) s h = remember_board-IsReturning geometry s h
move-IsReturning (mount now) s h = restore-IsReturning now s h
move-IsReturning (retry now port) s h = elim (retry_restore-cases now port s h) [
  | inl e ↦ rw e (finish-IsReturning s h)
  | inr (e, late, some_) ↦ rw e (record {
    held = h.held;
    timed = ground (arith, some_);
    last = h.last;
    remembered = h.remembered;
  })
]
move-IsReturning forget s h = record {
  held = refl;
  timed = refl;
  last = h.last;
  remembered = root-IsBoardUrl;
}
