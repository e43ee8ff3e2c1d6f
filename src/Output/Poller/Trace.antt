-- ===== src/Output/Poller/Trace.antt =====
-- All runs of apps/bridge/src/output/poller.ts: subscriptions and the halves of polls in any order.
use kanhrd.Base.{
  ℕ, zero, suc, String, ◌≡◌, subst, Bool, true, false, ◌||◌, refl, Option, none, some, List, [],
  ◌∷◌, length, get_elem?, arith, Dict, lookup, erase, erase_if, All, All-append, Bool-cases,
  Option-cases, inl, inr, str_eq, ◌==◌, AllValues-insert, AllValues-erase, AllValues-erase_if,
  AllValues-lookup, some_inj, not, values,
}
use kanhrd.Output.Delta.{Text}
use kanhrd.Output.Poller.Types.{
  Subscriber, PollEntry, OutputShape, OutputPoller, ReadResult, new_poller, update_entry,
}
use kanhrd.Output.Poller.Subscriptions.{
  subscribe, unsubscribe, unsubscribe_at, drop_connection, drop_each, drop_at, keep_subscribers,
  with_subscribers, stop_if_empty, stop_timer, register, entry_for, new_entry, new_subscriber,
  add_subscriber, owned_by, shape_key,
}
use kanhrd.Output.Poller.Polling.{
  is_stale, publish, settle, poll_start, poll_start_at, poll_finish, begin_read,
}
use kanhrd.Output.Poller.Sync.{
  IsSynced, AllSynced, AllShow, deliver-AllShow, AllShow-AllSynced, Shows,
}

-- Something that happens to the poller. A `finish` is a read that comes back, or fails, for the
-- entry at an address.
pub data Action : Type 0 where
  subscribes : String → String → OutputShape → String → String → Action
  unsubscribes : String → Action
  disconnects : String → Action
  ticks : String → Bool → Action
  finishes : ℕ → Option ReadResult → Action

unfoldable pub act : Action → OutputPoller → OutputPoller
act (subscribes host pane_id shape connection_id id) p =
    subscribe host pane_id shape connection_id id p
act (unsubscribes id) p = unsubscribe id p
act (disconnects connection_id) p = drop_connection connection_id p
act (ticks key reader_known) p = (poll_start key reader_known p).0
act (finishes address result) p = poll_finish address result p

unfoldable pub run : List Action → OutputPoller → OutputPoller
run [] p = p
run (a ∷ actions) p = run actions (act a p)

-- Every subscriber of the entry has received what rebuilds the entry's last snapshot.
abbrev pub EntryInSync : PollEntry → Type 0
EntryInSync e = AllSynced e.last_content e.subscribers

abbrev pub IsInSync : OutputPoller → Type 0
IsInSync p = All EntryInSync p.heap

All-update_entry :
    (P : PollEntry → Type 0) (f : PollEntry → PollEntry) (a : ℕ) (heap : List PollEntry)
    → ((e : PollEntry) → P e → P (f e))
    → All P heap
    → All P (update_entry f a heap)
All-update_entry P f a [] keep h = tt
All-update_entry P f zero (e ∷ heap) keep (p, h) = (keep e p, h)
All-update_entry P f (suc a) (e ∷ heap) keep (p, h) = (p, All-update_entry P f a heap keep h)

entry_for-IsInSync :
    (key host pane_id : String) (shape : OutputShape) (p : OutputPoller)
    → IsInSync p
    → IsInSync (entry_for key (new_entry key host pane_id shape) p).0
unfolding entry_for new_entry
entry_for-IsInSync key host pane_id shape p h = elim (Option-cases (lookup key p.entries)) [
  | inl e ↦ rw (e, entry_for) (All-append EntryInSync p.heap _ h (tt, tt))
  | inr (a, e) ↦ rw (e, entry_for) h
]

register-IsInSync :
    (key : String) (s : Subscriber) (q : OutputPoller × ℕ)
    → IsSynced none s
    → s.primed ≡ false
    → IsInSync q.0
    → IsInSync (register key s q)
unfolding register
register-IsInSync key s (p, address) fresh waits h =
    All-update_entry EntryInSync (add_subscriber s) address p.heap
      (λ e synced.
        AllValues-insert (IsSynced e.last_content) s.subscription_id s e.subscribers
          (record { primed = λ t. absurd (ground arith); unprimed = fresh.unprimed }) synced)
      h

subscribe-IsInSync :
    (host pane_id : String) (shape : OutputShape) (connection_id id : String) (p : OutputPoller)
    → IsInSync p
    → IsInSync (subscribe host pane_id shape connection_id id p)
unfolding subscribe
subscribe-IsInSync host pane_id shape connection_id id p h =
    let key = shape_key host pane_id shape in
    register-IsInSync key (new_subscriber id connection_id shape)
      (entry_for key (new_entry key host pane_id shape) p)
      (unfold new_subscriber in
        record { primed = λ t. absurd (ground arith); unprimed = λ _. refl })
      (unfold new_subscriber in refl) (entry_for-IsInSync key host pane_id shape p h)

-- Stopping a timer changes no subscriber.
stop_if_empty-IsInSync :
    (address : ℕ) (e : PollEntry) (p : OutputPoller)
    → IsInSync p
    → IsInSync (stop_if_empty address e p)
unfolding stop_if_empty
stop_if_empty-IsInSync address e p h = elim (Bool-cases (length e.subscribers == 0)) [
  | inl none_left ↦
      rw none_left (All-update_entry EntryInSync stop_timer address p.heap (λ e' synced. synced) h)
  | inr some_left ↦ rw some_left h
]

keep_subscribers-IsInSync :
    (address : ℕ) (e : PollEntry) (f : Dict Subscriber → Dict Subscriber) (p : OutputPoller)
    → ((last : Option Text) (subs : Dict Subscriber)
        → AllSynced last subs
        → AllSynced last (f subs))
    → IsInSync p
    → IsInSync (keep_subscribers address e f p)
unfolding keep_subscribers
keep_subscribers-IsInSync address e f p keep h =
    stop_if_empty-IsInSync address (with_subscribers f e) _ (
      All-update_entry EntryInSync (with_subscribers f) address p.heap
        (λ e' synced. keep e'.last_content e'.subscribers synced) h)

unsubscribe_at-IsInSync :
    (id : String) (o : Option ℕ) (p : OutputPoller) → IsInSync p → IsInSync (unsubscribe_at id o p)
unfolding unsubscribe_at
unsubscribe_at-IsInSync id none p h = h
unsubscribe_at-IsInSync id (some a) p h = elim (Option-cases (get_elem? p.heap a)) [
  | inl e ↦ rw (e, unsubscribe_at) h
  | inr (entry, e) ↦
      rw (e, unsubscribe_at)
        (keep_subscribers-IsInSync a entry (erase id) p
          (λ last subs. AllValues-erase (IsSynced last) id subs) h)
]

unsubscribe-IsInSync : (id : String) (p : OutputPoller) → IsInSync p → IsInSync (unsubscribe id p)
unfolding unsubscribe
unsubscribe-IsInSync id p h = elim (Option-cases (lookup id p.by_subscription)) [
  | inl e ↦ rw (e, unsubscribe) h
  | inr (key, e) ↦ elim (Bool-cases (str_eq key "")) [
    | inl empty ↦ rw (e, unsubscribe, empty) h
    | inr named ↦ rw (e, unsubscribe, named) (unsubscribe_at-IsInSync id _ _ h)
  ]
]

drop_at-IsInSync :
    (conn : String) (o : Option PollEntry) (a : ℕ) (p : OutputPoller)
    → IsInSync p
    → IsInSync (drop_at conn o a p)
unfolding drop_at
drop_at-IsInSync conn none a p h = h
drop_at-IsInSync conn (some e) a p h =
    keep_subscribers-IsInSync a e (erase_if (owned_by conn)) _
      (λ last subs. AllValues-erase_if (IsSynced last) (owned_by conn) subs) h

drop_each-IsInSync :
    (conn : String) (addresses : List ℕ) (p : OutputPoller)
    → IsInSync p
    → IsInSync (drop_each conn addresses p)
unfolding drop_each
drop_each-IsInSync conn [] p h = h
drop_each-IsInSync conn (a ∷ rest) p h =
    drop_each-IsInSync conn rest (drop_at conn (get_elem? p.heap a) a p)
      (drop_at-IsInSync conn _ a p h)

poll_start_at-IsInSync :
    (known : Bool) (o : Option ℕ) (p : OutputPoller)
    → IsInSync p
    → IsInSync (poll_start_at known o p).0
unfolding poll_start_at
poll_start_at-IsInSync known none p h = h
poll_start_at-IsInSync known (some a) p h = elim (Option-cases (get_elem? p.heap a)) [
  | inl e ↦ rw (e, poll_start_at) h
  | inr (entry, e) ↦ elim (Bool-cases (entry.in_flight || not known)) [
    | inl busy ↦ rw (e, poll_start_at, busy) h
    | inr free ↦
        rw (e, poll_start_at, free)
          (All-update_entry EntryInSync begin_read a p.heap (λ e' synced. synced) h)
  ]
]

publish-AllShow :
    (r : ReadResult) (e : PollEntry) → EntryInSync e → AllShow r.content (publish r e).subscribers
unfolding publish
publish-AllShow r e h = deliver-AllShow e r none e.subscribers (λ m absent. cc) h

settle-EntryInSync :
    (result : Option ReadResult) (e : PollEntry) → EntryInSync e → EntryInSync (settle result e)
unfolding settle
settle-EntryInSync none e h = h
settle-EntryInSync (some r) e h = elim (Bool-cases (is_stale r e)) [
  | inl same ↦ rw (same, settle) h
  | inr news ↦
      rw (news, settle) (unfold publish in AllShow-AllSynced r.content _ (publish-AllShow r e h))
]

act-IsInSync : (a : Action) (p : OutputPoller) → IsInSync p → IsInSync (act a p)
unfolding act drop_connection poll_start poll_finish
act-IsInSync (subscribes host pane_id shape conn id) p h =
    subscribe-IsInSync host pane_id shape conn id p h
act-IsInSync (unsubscribes id) p h = unsubscribe-IsInSync id p h
act-IsInSync (disconnects conn) p h = drop_each-IsInSync conn (values p.entries) p h
act-IsInSync (ticks key known) p h = poll_start_at-IsInSync known (lookup key p.entries) p h
act-IsInSync (finishes address result) p h =
    All-update_entry EntryInSync (settle result) address p.heap (settle-EntryInSync result) h

run-IsInSync : (actions : List Action) (p : OutputPoller) → IsInSync p → IsInSync (run actions p)
unfolding run
run-IsInSync [] p h = h
run-IsInSync (a ∷ actions) p h = run-IsInSync actions (act a p) (act-IsInSync a p h)

All-get_elem? :
    (P : PollEntry → Type 0) (heap : List PollEntry) (a : ℕ) (e : PollEntry)
    → All P heap
    → get_elem? heap a ≡ some e
    → P e
All-get_elem? P [] a e h found = absurd (ground arith)
All-get_elem? P (e' ∷ heap) zero e (p, h) found = subst P (some_inj found) p
All-get_elem? P (e' ∷ heap) (suc a) e (p, h) found = All-get_elem? P heap a e h found

-- Whatever subscriptions, disconnections and polls came before, in any order and with reads that
-- overlap them: a primed subscriber of any entry has been sent frames from which its client, by
-- applying each of them in turn, has rebuilt exactly the entry's last snapshot.
pub run-Shows :
    (actions : List Action) (address : ℕ) (e : PollEntry) (id : String) (s : Subscriber)
    → get_elem? (run actions new_poller).heap address ≡ some e
    → lookup id e.subscribers ≡ some s
    → s.primed ≡ true
    → (c : Text) × (e.last_content ≡ some c) × Shows s.emitted c
run-Shows actions address e id s at found primed =
    let all = run-IsInSync actions new_poller tt in
    let entry = All-get_elem? EntryInSync _ address e all at in
    (AllValues-lookup (IsSynced e.last_content) id e.subscribers s entry found).primed primed

-- When the read that comes back for an entry is news, every subscriber that the entry then has, new
-- or old, has been sent frames that rebuild the content read; the entry keeps that content.
pub settle-Shows :
    (actions : List Action) (address : ℕ) (e : PollEntry) (r : ReadResult) (id : String)
    (s : Subscriber)
    → get_elem? (run actions new_poller).heap address ≡ some e
    → is_stale r e ≡ false
    → lookup id (settle (some r) e).subscribers ≡ some s
    → ((settle (some r) e).last_content ≡ some r.content)
      × (s.primed ≡ true)
      × Shows s.emitted r.content
unfolding settle
settle-Shows actions address e r id s at news found =
    let all = run-IsInSync actions new_poller tt in
    let shown = publish-AllShow r e (All-get_elem? EntryInSync _ address e all at) in
    let here : lookup id (publish r e).subscribers ≡ some s = rw (news, settle) at found in
    let both = AllValues-lookup _ id (publish r e).subscribers s shown here in
    (rw (news, settle) (unfold publish in refl), both.0, both.1)
