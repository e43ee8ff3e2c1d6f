-- ===== src/Herdr/Host/Link/Alive.antt =====
-- The invariant of a started host of apps/bridge/src/herdr/hosts.ts, and that a failure keeps it.
use kanhrd.Base.{
  ℕ, suc, ◌+◌, ◌≤◌, ◌*◌, min, ◌≡◌, refl, sym, subst, inl, inr, Bool, true, false, none, some, List,
  [], ◌∷◌, ◌++◌, if◌then◌else◌, length, length-append, arith, Bool-cases,
}
use kanhrd.Herdr.Host.Link.{
  Attempt, seeding, subscribing, Link, min_backoff_ms, max_backoff_ms, schedule_reconnect,
}

abbrev pub one_if : Bool → ℕ
one_if true = 1
one_if false = 0

-- The attempts, the timers and the connection, together.
abbrev pub activities : Link → ℕ
activities s = length s.attempts + (length s.timers + one_if s.connected)

-- Each attempt that subscribes does so for the current generation.
unfoldable pub AreCurrent : ℕ → List Attempt → Type 0
AreCurrent generation [] = Unit
AreCurrent generation (seeding ∷ rest) = AreCurrent generation rest
AreCurrent generation (subscribing g ∷ rest) = (g ≡ generation) × AreCurrent generation rest

-- While not stopped, a host does exactly one of three things: it is connected by its current
-- subscription, it attempts to connect, or it waits for a timer.
pub record IsAlive (s : Link) : Type 0 where
  pub bounded : (min_backoff_ms ≤ s.backoff_ms) × (s.backoff_ms ≤ max_backoff_ms)
  pub single : s.stopped ≡ false → activities s ≡ 1
  pub current : s.stopped ≡ false → AreCurrent s.generation s.attempts
  pub open_ : s.stopped ≡ false → s.connected ≡ true → s.subscription ≡ some s.generation
  pub closed : s.stopped ≡ false → s.connected ≡ false → s.subscription ≡ none

pub length-without :
    {A : Type 0} (before after : List A) (a : A) (xs : List A)
    → xs ≡ before ++ a ∷ after
    → length xs ≡ suc (length (before ++ after))
length-without before after a xs same =
    rw same (omega (arith, length-append before (a ∷ after), length-append before after))

-- Of a list with one attempt, nothing is left without it.
pub none_left :
    {A : Type 0} (before after : List A) → length (before ++ after) ≡ 0 → before ++ after ≡ []
none_left [] [] h = refl
none_left [] (x ∷ xs) h = absurd (omega arith)
none_left (x ∷ xs) after h = absurd (omega arith)

pub AreCurrent-member :
    (generation g : ℕ) (before after : List Attempt)
    → AreCurrent generation (before ++ subscribing g ∷ after)
    → g ≡ generation
unfolding AreCurrent
AreCurrent-member generation g [] after h = h.0
AreCurrent-member generation g (seeding ∷ rest) after h =
    AreCurrent-member generation g rest after h
AreCurrent-member generation g (subscribing k ∷ rest) after h =
    AreCurrent-member generation g rest after h.1

pub AreCurrent-empty :
    (generation : ℕ) (others : List Attempt) → others ≡ [] → AreCurrent generation others
unfolding AreCurrent
AreCurrent-empty generation others h = rw h tt

-- A host that has been stopped only keeps its delay in bounds.
pub stopped-IsAlive :
    (s : Link)
    → s.stopped ≡ true
    → (min_backoff_ms ≤ s.backoff_ms) × (s.backoff_ms ≤ max_backoff_ms)
    → IsAlive s
stopped-IsAlive s off within = record {
  bounded = within;
  single = λ on. absurd (ground arith);
  current = λ on. absurd (ground arith);
  open_ = λ on. absurd (ground arith);
  closed = λ on. absurd (ground arith);
}

no_attempts : (s : Link) → activities s ≡ 0 → s.attempts ≡ []
no_attempts s h = go s.attempts (omega (arith, h))
  where
    go : (xs : List Attempt) → length xs ≡ 0 → xs ≡ []
    go [] e = refl
    go (a ∷ rest) e = absurd (omega arith)

-- The host with a timer set.
abbrev waiting : Link → Link
waiting s = record s {
  backoff_ms = min (s.backoff_ms * 2) max_backoff_ms;
  timers = s.backoff_ms ∷ s.timers;
}

-- After a failure with nothing else going on, a timer is set.
pub schedule_reconnect-IsAlive :
    (s : Link)
    → (min_backoff_ms ≤ s.backoff_ms) × (s.backoff_ms ≤ max_backoff_ms)
    → s.connected ≡ false
    → (s.stopped ≡ false → (activities s ≡ 0) × (s.subscription ≡ none))
    → IsAlive (schedule_reconnect s)
unfolding schedule_reconnect
schedule_reconnect-IsAlive s within off idle = elim (Bool-cases s.stopped) [
  | inl e ↦ subst (λ b. IsAlive (if b then s else waiting s)) (sym e) (stopped-IsAlive s e within)
  | inr e ↦
      let (none_on, unsubscribed) = idle e in
      subst (λ b. IsAlive (if b then s else waiting s)) (sym e)
        (record {
          bounded = (omega (arith, within.0, within.1), omega (arith, within.0, within.1));
          single = λ on. omega (arith, none_on);
          current = λ on. AreCurrent-empty s.generation s.attempts (no_attempts s none_on);
          open_ = λ on c. absurd (ground arith);
          closed = λ on c. unsubscribed;
        })
]
