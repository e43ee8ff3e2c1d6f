-- ===== src/Output/Poller/Subscriptions.antt =====
-- Subscribing and unsubscribing in apps/bridge/src/output/poller.ts. A fresh `randomUUID()` is an
-- argument.
use kanhrd.Base.{
  ℕ, String, Bool, true, false, Option, none, some, List, [], ◌∷◌, ◌++◌, length, get_elem?, ◌==◌,
  if◌then◌else◌, str_eq, Dict, lookup, insert, erase, erase_if, keep_values, keys, values, concat,
  decimal, or_else,
}
use kanhrd.Output.Poller.Types.{Subscriber, PollEntry, OutputShape, OutputPoller, update_entry}

unfoldable pub entry_key : String → String → String → String → Option ℕ → String
entry_key host pane_id source format lines = concat (
    host
    ∷ "::"
    ∷ pane_id
    ∷ "::"
    ∷ source
    ∷ "::"
    ∷ format
    ∷ "::"
    ∷ elim lines [ none ↦ "default" | some n ↦ decimal n ]
    ∷ [])

abbrev pub add_subscriber : Subscriber → PollEntry → PollEntry
add_subscriber s e = record e { subscribers = insert s.subscription_id s e.subscribers }

unfoldable pub new_entry : String → String → String → OutputShape → PollEntry
new_entry key host pane_id shape = record {
  key = key;
  host = host;
  pane_id = pane_id;
  source = or_else shape.source "recent";
  format = or_else shape.format "ansi";
  lines = shape.lines;
  last_revision = none;
  last_content = none;
  in_flight = false;
  ticking = true;
  subscribers = [];
}

unfoldable pub new_subscriber : String → String → OutputShape → Subscriber
new_subscriber subscription_id connection_id shape = record {
  subscription_id = subscription_id;
  connection_id = connection_id;
  emitted = [];
  delta = or_else shape.delta false;
  primed = false;
}

-- The entry under a key, created if there is none.
unfoldable pub entry_for : String → PollEntry → OutputPoller → OutputPoller × ℕ
entry_for key created p = elim (lookup key p.entries) [
  | some address ↦ (p, address)
  | none ↦ (
    record p { heap = p.heap ++ created ∷ []; entries = insert key (length p.heap) p.entries },
    length p.heap,
  )
]

unfoldable pub register : String → Subscriber → OutputPoller × ℕ → OutputPoller
register key s (p, address) = record p {
  heap = update_entry (add_subscriber s) address p.heap;
  by_subscription = insert s.subscription_id key p.by_subscription;
}

-- The key of what a shape asks for, with the defaults of `subscribe`.
unfoldable pub shape_key : String → String → OutputShape → String
unfolding entry_key
shape_key host pane_id shape =
    entry_key host pane_id (or_else shape.source "recent") (or_else shape.format "ansi") shape.lines

unfoldable pub subscribe :
    String → String → OutputShape → String → String → OutputPoller → OutputPoller
unfolding new_entry new_subscriber
subscribe host pane_id shape connection_id subscription_id p =
    let key = shape_key host pane_id shape in
    register key (new_subscriber subscription_id connection_id shape)
      (entry_for key (new_entry key host pane_id shape) p)

-- `clearInterval(entry.timer)`
abbrev pub stop_timer : PollEntry → PollEntry
stop_timer e = record e { ticking = false }

-- `if (entry.subscribers.size === 0) this.stopEntry(entry)`
unfoldable pub stop_if_empty : ℕ → PollEntry → OutputPoller → OutputPoller
stop_if_empty address e p =
    if length e.subscribers == 0
    then record p { heap = update_entry stop_timer address p.heap; entries = erase e.key p.entries }
    else p

abbrev pub with_subscribers : (Dict Subscriber → Dict Subscriber) → PollEntry → PollEntry
with_subscribers f e = record e { subscribers = f e.subscribers }

-- Removes subscribers from the entry at an address, then stops it if none is left.
unfoldable pub keep_subscribers :
    ℕ → PollEntry → (Dict Subscriber → Dict Subscriber) → OutputPoller → OutputPoller
unfolding stop_if_empty
keep_subscribers address e f p =
    stop_if_empty address (with_subscribers f e)
      (record p { heap = update_entry (with_subscribers f) address p.heap })

unfoldable pub unsubscribe_at : String → Option ℕ → OutputPoller → OutputPoller
unfolding keep_subscribers
unsubscribe_at subscription_id none p = p
unsubscribe_at subscription_id (some address) p = elim (get_elem? p.heap address) [
  | none ↦ p
  | some e ↦ keep_subscribers address e (erase subscription_id) p
]

unfoldable pub unsubscribe : String → OutputPoller → OutputPoller
unfolding unsubscribe_at
unsubscribe subscription_id p = elim (lookup subscription_id p.by_subscription) [
  | none ↦ p
  | some key ↦
      if str_eq key ""
      then p
      else unsubscribe_at subscription_id (lookup key p.entries)
          (record p { by_subscription = erase subscription_id p.by_subscription })
]

unfoldable pub erase_all : List String → Dict String → Dict String
erase_all [] m = m
erase_all (k ∷ ks) m = erase_all ks (erase k m)

abbrev pub owned_by : String → Subscriber → Bool
owned_by connection_id s = str_eq s.connection_id connection_id

-- One round of the outer loop of `dropConnection`.
unfoldable pub drop_at : String → Option PollEntry → ℕ → OutputPoller → OutputPoller
unfolding keep_subscribers erase_all
drop_at connection_id none address p = p
drop_at connection_id (some e) address p =
    keep_subscribers address e (erase_if (owned_by connection_id)) (record p {
      by_subscription =
          erase_all (keys (keep_values (owned_by connection_id) e.subscribers)) p.by_subscription;
    })

unfoldable pub drop_each : String → List ℕ → OutputPoller → OutputPoller
unfolding drop_at
drop_each connection_id [] p = p
drop_each connection_id (address ∷ rest) p =
    drop_each connection_id rest (drop_at connection_id (get_elem? p.heap address) address p)

unfoldable pub drop_connection : String → OutputPoller → OutputPoller
unfolding drop_each
drop_connection connection_id p = drop_each connection_id (values p.entries) p
