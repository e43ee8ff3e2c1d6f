-- ===== src/State/BoardReturn/Laws.antt =====
-- What holds of the way back of apps/web/src/app/state/board-return.service.ts: the pump ends, and a
-- visit of a card comes back to it.
use kanhrd.Base.{
  ℕ, ◌<◌, ◌≡◌, refl, ap, ◌∙◌, false, not, ◌||◌, none, some, List, [], ◌∷◌, arith, Bool-cases, ◌⊎◌,
  inl, inr, ltb, Option-cases,
}
use kanhrd.Output.Delta.{Text, text_eq}
use kanhrd.State.BoardReturn.{
  BoardReturn, BoardReturnService, start, finish_restore, BoardRestorePort, retry_restore,
  try_restore, attempt,
}
use kanhrd.State.BoardReturn.Trip.{
  Move, retry, in_time, run, move, IsReturning, start-IsReturning, move-IsReturning,
  try_restore-attempt, retry_restore-cases,
}

run-keeps : (moves : List Move) (s : BoardReturnService) → IsReturning s → IsReturning (run moves s)
unfolding run
run-keeps [] s h = h
run-keeps (m ∷ moves) s h = run-keeps moves (move m s) (move-IsReturning m s h)

-- After any calls of the service a port is held exactly for a restore in flight, the pump's timer is
-- set only for one, and the URL that the back control would take is a board's.
pub run-IsReturning : (url : Text) (moves : List Move) → IsReturning (run moves (start url))
run-IsReturning url moves = run-keeps moves (start url) (start-IsReturning url)

-- Calls of the pump, each at a time and with what the port answers then.
pub data Ticks : Type 0 where
  done : Ticks
  tick : ℕ → BoardRestorePort → Ticks → Ticks

unfoldable pub retries : Ticks → BoardReturnService → BoardReturnService
retries done s = s
retries (tick now port ticks) s = retries ticks (retry_restore now port s).service

-- In flight until the same deadline, or over.
record IsBefore (deadline : ℕ) (s : BoardReturnService) : Type 0 where
  returning : IsReturning s
  bounded : (s.deadline ≡ deadline) ⊎ (s.restoring ≡ none)

retries-IsBefore :
    (deadline : ℕ) (ticks : Ticks) (s : BoardReturnService)
    → IsBefore deadline s
    → IsBefore deadline (retries ticks s)
unfolding retries finish_restore
retries-IsBefore deadline done s h = h
retries-IsBefore deadline (tick now port ticks) s h =
    retries-IsBefore deadline ticks (retry_restore now port s).service
      (elim (retry_restore-cases now port s h.returning) [
        | inl e ↦ record {
          returning = move-IsReturning (retry now port) s h.returning;
          bounded = inr (ap (λ t. t.restoring) e);
        }
        | inr (e, late, some_) ↦ record {
          returning = move-IsReturning (retry now port) s h.returning;
          bounded = elim h.bounded [
            | inl d ↦ inl (ap (λ t. t.deadline) e ∙ d)
            | inr r ↦ absurd (ground (arith, r))
          ];
        }
      ])

late-calls :
    (deadline now : ℕ) (port : BoardRestorePort) (s : BoardReturnService)
    → IsBefore deadline s
    → deadline < now
    → (try_restore now port s).calls ≡ []
unfolding try_restore
late-calls deadline now port s h late = elim (Option-cases s.restoring) [
  | inl e ↦ idle e
  | inr (r, e) ↦ rw (try_restore-attempt now port r s h.returning e) (expired r e)
]
  where
    idle : s.restoring ≡ none → (try_restore now port s).calls ≡ []
    idle e = elim (Bool-cases s.has_port) [
      | inl p ↦ absurd (ground (arith, h.returning.held, p, e))
      | inr p ↦ rw p refl
    ]

    expired : (r : BoardReturn) → s.restoring ≡ some r → (attempt now port (some r) s).calls ≡ []
    expired r e = elim (Bool-cases (not (text_eq r.url port.current_url) || ltb s.deadline now)) [
      | inl f ↦ rw f refl
      | inr f ↦ elim h.bounded [
        | inl d ↦ absurd (omega (arith, d, in_time _ now s.deadline f))
        | inr n ↦ absurd (ground (arith, n, e))
      ]
    ]

late-ends :
    (deadline now : ℕ) (port : BoardRestorePort) (s : BoardReturnService)
    → IsBefore deadline s
    → deadline < now
    → (retry_restore now port s).service ≡ finish_restore s
late-ends deadline now port s h late = elim (retry_restore-cases now port s h.returning) [
  | inl e ↦ e
  | inr (e, early, some_) ↦
      absurd (elim h.bounded [ inl d ↦ omega (arith, d) | inr n ↦ ground (arith, n) ])
]

-- The pump ends: whatever calls were made before and however the board answers its calls, the first
-- call of the pump after the deadline leaves no restore in flight and no timer, and moves nothing.
pub retry_restore_ends :
    (url : Text) (moves : List Move) (ticks : Ticks) (now : ℕ) (port : BoardRestorePort)
    → (run moves (start url)).deadline < now
    → ((retry_restore now port (retries ticks (run moves (start url)))).service.restoring ≡ none)
      × ((retry_restore now port (retries ticks (run moves (start url)))).service.timer ≡ false)
      × ((retry_restore now port (retries ticks (run moves (start url)))).calls ≡ [])
unfolding retry_restore finish_restore
retry_restore_ends url moves ticks now port late =
    (ap (λ t. t.restoring) over, ap (λ t. t.timer) over, quiet)
  where
    before : IsBefore (run moves (start url)).deadline (retries ticks (run moves (start url)))
    before =
        retries-IsBefore (run moves (start url)).deadline ticks (run moves (start url))
          (record { returning = run-IsReturning url moves; bounded = inl refl })

    over :
        (retry_restore now port (retries ticks (run moves (start url)))).service
        ≡ finish_restore (retries ticks (run moves (start url)))
    over = late-ends _ now port _ before late

    quiet : (retry_restore now port (retries ticks (run moves (start url)))).calls ≡ []
    quiet = late-calls _ now port _ before late
