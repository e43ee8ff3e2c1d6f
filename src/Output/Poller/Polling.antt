-- ===== src/Output/Poller/Polling.antt =====
-- The poll of apps/bridge/src/output/poller.ts, in two steps: up to its `await`, and after it, so
-- that any other operation may come between them.
use kanhrd.Base.{
  ℕ, String, Bool, true, false, ◌&&◌, ◌||◌, not, Option, none, some, [], ◌∷◌, ◌++◌, max, get_elem?,
  ltb, if◌then◌else◌, Dict, lookup,
}
use kanhrd.Output.Delta.{Text, LineDelta, line_delta, text_eq}
use kanhrd.Output.Poller.Types.{
  Subscriber, PollEntry, OutputPoller, PaneOutput, ReadResult, update_entry,
}

abbrev pub begin_read : PollEntry → PollEntry
begin_read e = record e { in_flight = true }

-- `poll` up to its `await`: the entry that is being read, if a read begins. `reader_known` says
-- whether `hosts.get(entry.host)` has a reader.
unfoldable pub poll_start_at : Bool → Option ℕ → OutputPoller → OutputPoller × Option ℕ
poll_start_at reader_known none p = (p, none)
poll_start_at reader_known (some address) p = elim (get_elem? p.heap address) [
  | none ↦ (p, none)
  | some e ↦
      if e.in_flight || not reader_known
      then (p, none)
      else (record p { heap = update_entry begin_read address p.heap }, some address)
]

unfoldable pub poll_start : String → Bool → OutputPoller → OutputPoller × Option ℕ
unfolding poll_start_at
poll_start key reader_known p = poll_start_at reader_known (lookup key p.entries) p

-- `undefined`, `null` or a delta: what the loop of `poll` has computed so far.
abbrev pub Memo : Type 0
Memo = Option (Option LineDelta)

unfoldable pub usable : Subscriber → Bool
usable s = s.delta && s.primed

unfoldable pub memo_after : Option Text → Text → Subscriber → Memo → Memo
unfolding usable
memo_after (some previous) content s none =
    if usable s then some (line_delta previous content) else none
memo_after previous content s memo = memo

unfoldable pub chosen : Subscriber → Memo → Option LineDelta
unfolding usable
chosen s (some (some d)) = if usable s then some d else none
chosen s memo = none

unfoldable pub output_frame : PollEntry → ReadResult → Subscriber → Option LineDelta → PaneOutput
output_frame e r s use_delta = record {
  subscription_id = s.subscription_id;
  pane_id = e.pane_id;
  revision = r.revision;
  content = elim use_delta [ none ↦ r.content | some d ↦ d.tail ];
  format = r.format;
  truncated = r.truncated;
  delta = elim use_delta [
    | none ↦ none
    | some d ↦ some (record { drop = d.drop; keep = d.keep; length = d.length })
  ];
}

unfoldable pub send_to : PollEntry → ReadResult → Subscriber → Option LineDelta → Subscriber
unfolding output_frame
send_to e r s use_delta = record s {
  emitted = s.emitted ++ output_frame e r s use_delta ∷ [];
  primed = true;
}

-- The loop over the subscribers, with the delta computed at most once.
unfoldable pub deliver : PollEntry → ReadResult → Memo → Dict Subscriber → Dict Subscriber
deliver e r memo [] = []
deliver e r memo ((id, s) ∷ rest) =
    let memo' = memo_after e.last_content r.content s memo in
    (id, send_to e r s (chosen s memo')) ∷ deliver e r memo' rest

unfoldable pub revision_advanced : Option ℕ → ℕ → Bool
revision_advanced none revision = true
revision_advanced (some last) revision = ltb last revision

unfoldable pub content_changed : Option Text → Text → Bool
unfolding text_eq
content_changed none content = true
content_changed (some last) content = not (text_eq content last)

unfoldable pub max_revision : Option ℕ → ℕ → ℕ
max_revision none revision = revision
max_revision (some last) revision = max last revision

-- `!revisionAdvanced && !contentChanged`
unfoldable pub is_stale : ReadResult → PollEntry → Bool
is_stale r e =
    not (revision_advanced e.last_revision r.revision)
    && not (content_changed e.last_content r.content)

-- The entry once a changed snapshot has gone to every subscriber.
unfoldable pub publish : ReadResult → PollEntry → PollEntry
unfolding max_revision
publish r e = record e {
  last_revision = some (max_revision e.last_revision r.revision);
  last_content = some r.content;
  in_flight = false;
  subscribers = deliver e r none e.subscribers;
}

abbrev pub end_read : PollEntry → PollEntry
end_read e = record e { in_flight = false }

-- `poll` after its `await`, on the entry that it holds; `none` is a read that failed.
unfoldable pub settle : Option ReadResult → PollEntry → PollEntry
settle none e = end_read e
settle (some r) e = if is_stale r e then end_read e else publish r e

unfoldable pub poll_finish : ℕ → Option ReadResult → OutputPoller → OutputPoller
poll_finish address result p = record p { heap = update_entry (settle result) address p.heap }
