-- ===== src/Herdr/Host/Link/Laws.antt =====
-- A started host is always on its way to a connection, and to one only.
use kanhrd.Base.{
  ℕ, suc, ◌+◌, ◌≡◌, refl, sym, ap, subst, inl, inr, true, false, none, some, List, [], ◌∷◌, ◌++◌,
  if◌then◌else◌, ◌==◌, length, arith, Bool-cases, String, ==_iff,
}
use kanhrd.Herdr.Host.Link.{
  Attempt, seeding, subscribing, Link, min_backoff_ms, start, schedule_reconnect, stop, seeded,
  connect_failed, subscribed, disconnected, timer_fired, Step, on_stop, on_seeded, on_failed,
  on_subscribed, on_disconnected, on_timer, Reach, started, later,
}
use kanhrd.Herdr.Host.Link.Alive.{
  one_if, AreCurrent, IsAlive, length-without, none_left, AreCurrent-member, AreCurrent-empty,
  stopped-IsAlive, schedule_reconnect-IsAlive,
}

module _ (s : Link) (h : IsAlive s) where
  stop-IsAlive : IsAlive (stop s)
  unfolding stop
  stop-IsAlive = stopped-IsAlive (stop s) refl h.bounded

  module _ (before after : List Attempt) (a : Attempt)
      (same : s.attempts ≡ before ++ a ∷ after) where
    -- An attempt is the only thing that goes on.
    alone :
        s.stopped ≡ false → (length (before ++ after) + (length s.timers + one_if s.connected)) ≡ 0
    alone on = omega (arith, h.single on, length-without before after a s.attempts same)

    offline : s.stopped ≡ false → s.connected ≡ false
    offline on = elim (Bool-cases s.connected) [
      | inl c ↦ absurd (omega (arith, alone on, ap one_if c))
      | inr c ↦ c
    ]

    others_none : s.stopped ≡ false → before ++ after ≡ []
    others_none on = none_left before after (omega (arith, alone on))

    connect_failed-IsAlive : (error : String) → IsAlive (connect_failed (before ++ after) error s)
    unfolding connect_failed
    connect_failed-IsAlive error =
        schedule_reconnect-IsAlive _ h.bounded refl
          (λ on. (omega (arith, alone on), h.closed on (offline on)))

  seeded-IsAlive :
      (before after : List Attempt)
      → s.attempts ≡ before ++ seeding ∷ after
      → IsAlive (seeded (before ++ after) s)
  unfolding seeded AreCurrent
  seeded-IsAlive before after same = record {
    bounded = h.bounded;
    single = λ on. omega (arith, h.single on, length-without before after seeding s.attempts same);
    current = λ on. (
      refl,
      AreCurrent-empty (suc s.generation) (before ++ after)
          (others_none before after seeding same on),
    );
    open_ = λ on c. absurd (ground (arith, offline before after seeding same on));
    closed = λ on c. h.closed on c;
  }

  -- The two outcomes of a subscription: it is the current one, or it is closed again.
  abbrev opened : List Attempt → ℕ → Link
  opened others generation = record s {
    subscription = some generation;
    connected = true;
    last_error = none;
    backoff_ms = min_backoff_ms;
    attempts = others;
  }

  subscribed-IsAlive :
      (before after : List Attempt) (generation : ℕ)
      → s.attempts ≡ before ++ subscribing generation ∷ after
      → IsAlive (subscribed (before ++ after) generation s)
  unfolding subscribed
  subscribed-IsAlive before after generation same = elim (Bool-cases (generation == s.generation)) [
    | inl e ↦
        let is_current : generation ≡ s.generation = (==_iff generation s.generation).0 e in
        subst
          (λ b. IsAlive (
            if b
            then opened (before ++ after) generation
            else record s { attempts = before ++ after }))
          (sym e)
          (record {
            bounded = (omega arith, omega arith);
            single = λ on. omega (arith, alone before after (subscribing generation) same on);
            current = λ on.
                AreCurrent-empty s.generation (before ++ after)
                  (others_none before after (subscribing generation) same on);
            open_ = λ on c. ap some is_current;
            closed = λ on c. absurd (ground arith);
          })
    | inr e ↦
        let off : s.stopped ≡ true = elim (Bool-cases s.stopped) [
          | inl t ↦ t
          | inr on ↦
              let m : generation ≡ s.generation =
                AreCurrent-member s.generation generation before after
                  (subst (AreCurrent s.generation) same (h.current on)) in
              absurd (ground (arith, (==_iff generation s.generation).1 m))
        ] in
        subst
          (λ b. IsAlive (
            if b
            then opened (before ++ after) generation
            else record s { attempts = before ++ after }))
          (sym e) (stopped-IsAlive _ off h.bounded)
  ]

  abbrev dropped : String → Link
  dropped error = record s { subscription = none; connected = false; last_error = some error }

  online :
      (generation : ℕ) → s.subscription ≡ some generation → s.stopped ≡ false → s.connected ≡ true
  online generation same on = elim (Bool-cases s.connected) [
    | inl c ↦ c
    | inr c ↦ absurd (ground (arith, h.closed on c))
  ]

  disconnected-IsAlive :
      (generation : ℕ) (error : String)
      → s.subscription ≡ some generation
      → IsAlive (disconnected generation error s)
  unfolding disconnected
  disconnected-IsAlive generation error same = elim (Bool-cases (generation == s.generation)) [
    | inl e ↦
        subst (λ b. IsAlive (if b then schedule_reconnect (dropped error) else s)) (sym e)
          (schedule_reconnect-IsAlive (dropped error) h.bounded refl
            (λ on. (omega (arith, h.single on, ap one_if (online generation same on)), refl)))
    | inr e ↦ subst (λ b. IsAlive (if b then schedule_reconnect (dropped error) else s)) (sym e) h
  ]

  timer_fired-IsAlive :
      (before after : List ℕ) (delay : ℕ)
      → s.timers ≡ before ++ delay ∷ after
      → IsAlive (timer_fired (before ++ after) s)
  unfolding timer_fired AreCurrent
  timer_fired-IsAlive before after delay same = record {
    bounded = h.bounded;
    single = λ on. omega (arith, h.single on, length-without before after delay s.timers same);
    current = λ on. h.current on;
    open_ = λ on c. h.open_ on c;
    closed = λ on c. h.closed on c;
  }

Step-IsAlive : {s t : Link} → Step s t → IsAlive s → IsAlive t
Step-IsAlive {s} on_stop h = stop-IsAlive s h
Step-IsAlive {s} (on_seeded before after same) h = seeded-IsAlive s h before after same
Step-IsAlive {s} (on_failed before after a error same) h =
    connect_failed-IsAlive s h before after a same error
Step-IsAlive {s} (on_subscribed before after generation same) h =
    subscribed-IsAlive s h before after generation same
Step-IsAlive {s} (on_disconnected generation error same) h =
    disconnected-IsAlive s h generation error same
Step-IsAlive {s} (on_timer before after delay same) h =
    timer_fired-IsAlive s h before after delay same

pub Reach-IsAlive : {s : Link} → Reach s → IsAlive s
unfolding start AreCurrent
Reach-IsAlive started = record {
  bounded = (omega arith, omega arith);
  single = λ on. refl;
  current = λ on. tt;
  open_ = λ on c. absurd (ground arith);
  closed = λ on c. refl;
}
Reach-IsAlive (later r step) = Step-IsAlive step (Reach-IsAlive r)

-- While a started host has not been stopped, it reports itself as connected exactly if it holds a
-- subscription, and that is the latest one it asked for.
pub connected-subscription :
    {s : Link}
    → Reach s
    → s.stopped ≡ false
    → s.subscription ≡ (if s.connected then some s.generation else none)
connected-subscription {s} r on =
    let alive = Reach-IsAlive r in
    elim (Bool-cases s.connected) [
      | inl c ↦ ground (arith, alive.open_ on c)
      | inr c ↦ ground (arith, alive.closed on c)
    ]
