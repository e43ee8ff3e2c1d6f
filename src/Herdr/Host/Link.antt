-- ===== src/Herdr/Host/Link.antt =====
-- apps/bridge/src/herdr/hosts.ts: `start`, `stop`, `connectOnce`, `establishSubscription` and
-- `scheduleReconnect` as steps, with the connection attempts that wait and the timers that are set.
pub mod Alive
pub mod Laws
use kanhrd.Base.{
  ℕ, zero, suc, ◌*◌, min, String, Bool, true, false, Option, none, some, List, [], ◌∷◌, ◌++◌, ◌≡◌,
  if◌then◌else◌, ◌==◌, length,
}

-- An attempt waits for its lists, or for the subscription of its generation.
pub data Attempt : Type 0 where
  seeding : Attempt
  subscribing : ℕ → Attempt

-- `timers` are the reconnect timers that are set, with their delays; a subscription is named by its
-- generation.
pub record Link : Type 0 where
  pub subscription : Option ℕ
  pub generation : ℕ
  pub connected : Bool
  pub last_error : Option String
  pub backoff_ms : ℕ
  pub stopped : Bool
  pub attempts : List Attempt
  pub timers : List ℕ

abbrev pub min_backoff_ms : ℕ
min_backoff_ms = 1000

abbrev pub max_backoff_ms : ℕ
max_backoff_ms = 30000

abbrev pub created : Link
created = record {
  subscription = none;
  generation = 0;
  connected = false;
  last_error = none;
  backoff_ms = min_backoff_ms;
  stopped = true;
  attempts = [];
  timers = [];
}

-- `connectOnce`, up to its first wait.
abbrev pub connect_first : Link → Link
connect_first s = record s { attempts = seeding ∷ s.attempts }

unfoldable pub start : Link → Link
start s = connect_first (record s { stopped = false })

unfoldable pub schedule_reconnect : Link → Link
schedule_reconnect s = if s.stopped then s else record s {
  backoff_ms = min (s.backoff_ms * 2) max_backoff_ms;
  timers = s.backoff_ms ∷ s.timers;
}

-- The timer that `reconnectTimer` names is the last one that was set.
abbrev pub drop_first : List ℕ → List ℕ
drop_first [] = []
drop_first (t ∷ ts) = ts

unfoldable pub stop : Link → Link
stop s = record s {
  stopped = true;
  generation = suc s.generation;
  timers = drop_first s.timers;
  subscription = none;
}

-- The lists have come: `establishSubscription` up to its wait.
unfoldable pub seeded : List Attempt → Link → Link
seeded others s = record s {
  generation = suc s.generation;
  attempts = subscribing (suc s.generation) ∷ others;
}

-- The `catch` of `connectOnce`.
unfoldable pub connect_failed : List Attempt → String → Link → Link
unfolding schedule_reconnect
connect_failed others error s =
    schedule_reconnect (record s { connected = false; last_error = some error; attempts = others })

-- The rest of `establishSubscription`: a superseded subscription is closed again.
unfoldable pub subscribed : List Attempt → ℕ → Link → Link
subscribed others generation s =
    if generation == s.generation
    then record s {
      subscription = some generation;
      connected = true;
      last_error = none;
      backoff_ms = min_backoff_ms;
      attempts = others;
    }
    else record s { attempts = others }

-- The listener of `disconnect` of one subscription.
unfoldable pub disconnected : ℕ → String → Link → Link
unfolding schedule_reconnect
disconnected generation error s =
    if generation == s.generation
    then schedule_reconnect
        (record s { subscription = none; connected = false; last_error = some error })
    else s

-- A reconnect timer goes off.
unfoldable pub timer_fired : List ℕ → Link → Link
timer_fired others s = connect_first (record s { timers = others })

-- The steps after `start`. A subscription disconnects only while it is open.
pub data Step (s : Link) : Link → Type 0 where
  on_stop : Step s (stop s)
  on_seeded :
      (before after : List Attempt)
      → s.attempts ≡ before ++ seeding ∷ after
      → Step s (seeded (before ++ after) s)
  on_failed :
      (before after : List Attempt) (a : Attempt) (error : String)
      → s.attempts ≡ before ++ a ∷ after
      → Step s (connect_failed (before ++ after) error s)
  on_subscribed :
      (before after : List Attempt) (generation : ℕ)
      → s.attempts ≡ before ++ subscribing generation ∷ after
      → Step s (subscribed (before ++ after) generation s)
  on_disconnected :
      (generation : ℕ) (error : String)
      → s.subscription ≡ some generation
      → Step s (disconnected generation error s)
  on_timer :
      (before after : List ℕ) (delay : ℕ)
      → s.timers ≡ before ++ delay ∷ after
      → Step s (timer_fired (before ++ after) s)

pub data Reach : Link → Type 0 where
  started : Reach (start created)
  later : {s t : Link} → Reach s → Step s t → Reach t
