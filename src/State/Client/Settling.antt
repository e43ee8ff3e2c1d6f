-- ===== src/State/Client/Settling.antt =====
-- Every promise of apps/web/src/app/state/ws-client.ts ends at most once, and waits or has ended.
use kanhrd.Base.{
  ℕ, ◌+◌, ◌≤◌, max, String, ◌≡◌, refl, ap, ◌∙◌, Bool, true, false, not, ◌&&◌, some, List, [], ◌∷◌,
  ◌++◌, if◌then◌else◌, str_eq, Dict, lookup, insert, erase, arith, eq_iff, Bool-cases, Option-cases,
  inl, inr,
}
use kanhrd.State.Client.{
  Settlement, not_connected, resolved, bridge_error, Client, Frame, success, failure, event,
  unparsable, settle, request, settle_known, handle_message, rejections, reject_all_pending,
  schedule_reconnect, on_open, announce_loss, on_close,
}

-- How many entries wait for the id.
abbrev pub waiting : String → Dict String → ℕ
waiting id [] = 0
waiting id ((j, method) ∷ m) = (if str_eq j id then 1 else 0) + waiting id m

module _ {V : Type 0} where
  -- How often a promise of the id has ended.
  abbrev pub ended : String → List (String × Settlement V) → ℕ
  ended id [] = 0
  ended id ((j, s) ∷ l) = (if str_eq j id then 1 else 0) + ended id l

-- What happens to the client.
pub data Action (V : Type 0) : Type 0 where
  requests : String → String → Action V
  opened closed : Action V
  message : Frame V → Action V

module _ {V : Type 0} where
  unfoldable pub act : Action V → Client V → Client V
  unfolding request handle_message on_open on_close
  act (requests id method) c = request id method c
  act opened c = on_open c
  act closed c = on_close c
  act (message f) c = handle_message f c

  unfoldable pub run : List (Action V) → Client V → Client V
  unfolding act
  run [] c = c
  run (a ∷ rest) c = run rest (act a c)

  -- How often the id is requested.
  abbrev pub requested : String → List (Action V) → ℕ
  requested id [] = 0
  requested id (requests j method ∷ l) = (if str_eq j id then 1 else 0) + requested id l
  requested id (opened ∷ l) = requested id l
  requested id (closed ∷ l) = requested id l
  requested id (message f ∷ l) = requested id l

  -- The promises of an id: those that have ended, and those that wait.
  abbrev pub promises : String → Client V → ℕ
  promises id c = ended id c.settled + waiting id c.pending

  ended-append :
      (id : String) (xs ys : List (String × Settlement V))
      → ended id (xs ++ ys) ≡ ended id xs + ended id ys
  ended-append id [] ys = omega arith
  ended-append id ((j, s) ∷ xs) ys = omega (arith, ended-append id xs ys)

ended-rejections :
    (V : Type 0) (id : String) (m : Dict String) → ended {V = V} id (rejections m) ≡ waiting id m
ended-rejections V id [] = refl
ended-rejections V id ((j, method) ∷ m) = omega (arith, ended-rejections V id m)

waiting-insert :
    (id j method : String) (m : Dict String)
    → waiting id (insert j method m) ≡ (if str_eq j id then max 1 (waiting id m) else waiting id m)
unfolding insert
waiting-insert id j method [] = ground arith
waiting-insert id j method ((k, w) ∷ m) =
    ground (arith, waiting-insert id j method m, eq_iff k j, eq_iff k id, eq_iff j id)

waiting-erase :
    (id j : String) (m : Dict String)
    → waiting id (erase j m) ≡ (if str_eq j id then 0 else waiting id m)
unfolding erase
waiting-erase id j [] = ground arith
waiting-erase id j ((k, w) ∷ m) =
    ground (arith, waiting-erase id j m, eq_iff k j, eq_iff k id, eq_iff j id)

waiting-found :
    (id : String) (m : Dict String) (method : String) → lookup id m ≡ some method → 1 ≤ waiting id m
unfolding lookup
waiting-found id [] method h = absurd (ground arith)
waiting-found id ((k, w) ∷ m) method h = ground (arith, waiting-found id m method)

module _ {V : Type 0} where
  request-promises :
      (id j method : String) (c : Client V)
      → promises id c + (if str_eq j id then 1 else 0) ≤ 1
      → promises id (request j method c) ≡ promises id c + (if str_eq j id then 1 else 0)
  unfolding request settle
  request-promises id j method c h = elim (Bool-cases c.connected) [
    | inl e ↦ rw e (ground (arith, waiting-insert id j method c.pending))
    | inr e ↦ rw e (ground (arith, ended-append id c.settled ((j, not_connected) ∷ [])))
  ]

  settle_known-promises :
      (id j : String) (result : Settlement V) (c : Client V)
      → promises id c ≤ 1
      → promises id (settle_known j result (lookup j c.pending) c) ≡ promises id c
  unfolding settle
  settle_known-promises id j result c h = elim (Option-cases (lookup j c.pending)) [
    | inl e ↦ rw e refl
    | inr (method, e) ↦ rw e (
        ground (
          arith,
          ended-append id c.settled ((j, result) ∷ []),
          waiting-erase id j c.pending,
          waiting-found j c.pending method e,
          same_waiting id j c.pending,
        ))
  ]
    where
      same_waiting :
          (id j : String) (m : Dict String) → str_eq j id ≡ true → waiting j m ≡ waiting id m
      same_waiting id j m e = ap (λ k. waiting k m) ((eq_iff j id).0 e)

  message-promises :
      (id : String) (f : Frame V) (c : Client V)
      → promises id c ≤ 1
      → promises id (handle_message f c) ≡ promises id c
  unfolding handle_message
  message-promises id (success j v) c h = settle_known-promises id j (resolved v) c h
  message-promises id (failure j code text) c h =
      settle_known-promises id j (bridge_error code text) c h
  message-promises id (event e) c h = refl
  message-promises id unparsable c h = refl

  announce_loss-promises :
      (id : String) (b : Bool) (c : Client V) → promises id (announce_loss b c) ≡ promises id c
  announce_loss-promises id b c = elim (Bool-cases (b && not c.connection_lost)) [
    | inl e ↦ rw e refl
    | inr e ↦ rw e refl
  ]

  close-promises : (id : String) (c : Client V) → promises id (on_close c) ≡ promises id c
  unfolding on_close schedule_reconnect reject_all_pending
  close-promises id c =
      announce_loss-promises id c.connected
        (schedule_reconnect (reject_all_pending (record c { connected = false })))
      ∙ omega
          (arith, ended-append id c.settled (rejections c.pending), ended-rejections V id c.pending)

  -- For an id that is requested at most once in all, whatever opens, closes and arrives in between: its
  -- promises that have ended and those that wait are together as many as its requests, so that none is
  -- lost and none ends twice.
  pub run-promises :
      (id : String) (actions : List (Action V)) (c : Client V)
      → promises id c + requested id actions ≤ 1
      → promises id (run actions c) ≡ promises id c + requested id actions
  unfolding run act on_open
  run-promises id [] c h = omega arith
  run-promises id (requests j method ∷ rest) c h =
      run-promises id rest (request j method c)
        (omega (arith, request-promises id j method c (omega arith)))
      ∙ omega (arith, request-promises id j method c (omega arith))
  run-promises id (opened ∷ rest) c h = run-promises id rest (on_open c) h
  run-promises id (closed ∷ rest) c h =
      run-promises id rest (on_close c) (omega (arith, close-promises id c))
      ∙ omega (arith, close-promises id c)
  run-promises id (message f ∷ rest) c h =
      run-promises id rest (handle_message f c)
        (omega (arith, message-promises id f c (omega arith)))
      ∙ omega (arith, message-promises id f c (omega arith))
