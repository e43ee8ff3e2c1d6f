-- ===== src/Tests/Terminal.antt =====
-- A pane whose output scrolls by a line, seen by one subscriber.
use kanhrd.Base.{
  ℕ, ◌<◌, ◌≡◌, refl, true, false, Option, none, some, List, [], ◌∷◌, ◌++◌, get_elem?, lookup,
  insert, arith,
}
use kanhrd.Output.Delta.{
  Text, LineDelta, line_delta, checked_delta, best_of, apply_line_delta, extends, extend_run,
}
use kanhrd.Output.Delta.Search.{IsLineStart, EndsLine, extend_run_stops}
use kanhrd.Output.Delta.Rebuild.{apply_line_delta-line_delta, line_delta-lines}
use kanhrd.Output.Poller.Types.{
  PaneOutput, OutputDelta, Subscriber, PollEntry, OutputShape, new_poller, ReadResult,
}
use kanhrd.Output.Poller.Subscriptions.{
  subscribe, new_entry, new_subscriber, shape_key, entry_key, entry_for, register,
}
use kanhrd.Output.Poller.Polling.{
  is_stale, settle, revision_advanced, content_changed, max_revision, publish, deliver, send_to,
  output_frame, chosen, memo_after, usable, poll_start, poll_start_at, poll_finish,
}
use kanhrd.Output.Poller.Sync.{Shows}
use kanhrd.Output.Poller.Trace.{
  Action, subscribes, ticks, finishes, act, run, run-Shows, settle-Shows,
}

-- A long line, and a short one that scrolls away.
abbrev long_line : Text
long_line =
    97 ∷ 97 ∷ 97 ∷ 97 ∷ 97 ∷ 97 ∷ 97 ∷ 97 ∷ 97 ∷ 97 ∷ 97 ∷ 97 ∷ 97 ∷ 97 ∷ 97 ∷ 97 ∷ 97 ∷ 97 ∷ 97
    ∷ 97 ∷ 97 ∷ 97 ∷ 97 ∷ 97 ∷ 97 ∷ 97 ∷ 97 ∷ 97 ∷ 97 ∷ 97 ∷ 97 ∷ 97 ∷ 97 ∷ 97 ∷ 97 ∷ 97 ∷ 97 ∷ 97
    ∷ 97 ∷ 97 ∷ 97 ∷ 97 ∷ 97 ∷ 97 ∷ 97 ∷ 97 ∷ 97 ∷ 97 ∷ 97 ∷ 97 ∷ 97 ∷ 97 ∷ 97 ∷ 97 ∷ 97 ∷ 97 ∷ 97
    ∷ 97 ∷ 97 ∷ 97 ∷ 97 ∷ 97 ∷ 97 ∷ 97 ∷ 97 ∷ 97 ∷ 10 ∷ []

abbrev before : Text
before = 36 ∷ 10 ∷ long_line ++ 36 ∷ []

abbrev after : Text
after = long_line ++ 37 ∷ 10 ∷ 36 ∷ []

abbrev scrolled : LineDelta
scrolled = record { drop = 2; keep = 67; tail = 37 ∷ 10 ∷ 36 ∷ []; length = 70 }

scrolled_delta : line_delta before after ≡ some scrolled
unfolding line_delta checked_delta best_of
scrolled_delta = refl

apply_line_delta-line_delta_example : apply_line_delta before 2 67 (37 ∷ 10 ∷ 36 ∷ []) ≡ after
apply_line_delta-line_delta_example =
    apply_line_delta-line_delta before after scrolled scrolled_delta

line_delta-lines_example : (0 < 67) × IsLineStart before 2 × EndsLine before 69 × EndsLine after 67
line_delta-lines_example = line_delta-lines before after scrolled scrolled_delta

extend_run_stops_example :
    extends before after
      (0 ∷ 2 ∷ 69 ∷ [])
      (0 ∷ 67 ∷ 69 ∷ [])
      1
      (extend_run before after (0 ∷ 2 ∷ 69 ∷ []) (0 ∷ 67 ∷ 69 ∷ []) 3 1 0)
    ≡ false
extend_run_stops_example =
    extend_run_stops before after (0 ∷ 2 ∷ 69 ∷ []) (0 ∷ 67 ∷ 69 ∷ []) 3 1 0 (omega arith)

abbrev shape : OutputShape
shape = record { source = none; format = none; lines = none; delta = some true }

abbrev read_of : Text → ℕ → ReadResult
read_of t n = record { content = t; revision = n; truncated = false; format = "ansi" }

-- One subscription, a poll, and a poll after the pane has scrolled.
abbrev one_poll : List Action
one_poll =
    subscribes "local" "1" shape "browser" "s1"
    ∷ ticks "local::1::recent::ansi::default" true
    ∷ finishes 0 (some (read_of before 1))
    ∷ []

abbrev two_polls : List Action
two_polls =
    subscribes "local" "1" shape "browser" "s1"
    ∷ ticks "local::1::recent::ansi::default" true
    ∷ finishes 0 (some (read_of before 1))
    ∷ finishes 0 (some (read_of after 2))
    ∷ []

abbrev frame : Text → ℕ → Option OutputDelta → PaneOutput
frame content revision delta = record {
  subscription_id = "s1";
  pane_id = "1";
  revision = revision;
  content = content;
  format = "ansi";
  truncated = false;
  delta = delta;
}

abbrev subscriber : List PaneOutput → Subscriber
subscriber frames = record {
  subscription_id = "s1";
  connection_id = "browser";
  emitted = frames;
  delta = true;
  primed = true;
}

abbrev one_frame : Subscriber
one_frame = subscriber (frame before 1 none ∷ [])

abbrev two_frames : Subscriber
two_frames = subscriber (
    frame before 1 none
    ∷ frame (37 ∷ 10 ∷ 36 ∷ []) 2 (some (record { drop = 2; keep = 67; length = 70 }))
    ∷ [])

abbrev entry : Text → ℕ → Subscriber → PollEntry
entry content revision s = record {
  key = "local::1::recent::ansi::default";
  host = "local";
  pane_id = "1";
  source = "recent";
  format = "ansi";
  lines = none;
  last_revision = some revision;
  last_content = some content;
  in_flight = false;
  ticking = true;
  subscribers = ("s1", s) ∷ [];
}

polled_once : get_elem? (run one_poll new_poller).heap 0 ≡ some (entry before 1 one_frame)
unfolding run act subscribe new_entry new_subscriber shape_key entry_key entry_for register
    poll_start poll_start_at poll_finish insert settle is_stale revision_advanced content_changed
    max_revision publish deliver send_to output_frame chosen memo_after usable line_delta
    checked_delta best_of lookup
polled_once = refl

polled_twice : get_elem? (run two_polls new_poller).heap 0 ≡ some (entry after 2 two_frames)
unfolding run act subscribe new_entry new_subscriber shape_key entry_key entry_for register
    poll_start poll_start_at poll_finish insert settle is_stale revision_advanced content_changed
    max_revision publish deliver send_to output_frame chosen memo_after usable line_delta
    checked_delta best_of lookup
polled_twice = refl

subscriber_found : lookup "s1" (entry after 2 two_frames).subscribers ≡ some two_frames
unfolding lookup
subscriber_found = refl

run-Shows_example : (c : Text) × (some after ≡ some c) × Shows two_frames.emitted c
run-Shows_example =
    run-Shows two_polls 0 (entry after 2 two_frames) "s1" two_frames polled_twice subscriber_found
      refl

is_news : is_stale (read_of after 2) (entry before 1 one_frame) ≡ false
unfolding is_stale revision_advanced content_changed
is_news = refl

settled_found :
    lookup "s1" (settle (some (read_of after 2)) (entry before 1 one_frame)).subscribers
    ≡ some two_frames
unfolding settle is_stale revision_advanced content_changed max_revision publish deliver send_to
    output_frame chosen memo_after usable line_delta checked_delta best_of lookup
settled_found = refl

settle-Shows_example :
    ((settle (some (read_of after 2)) (entry before 1 one_frame)).last_content ≡ some after)
    × (true ≡ true)
    × Shows two_frames.emitted after
settle-Shows_example =
    settle-Shows one_poll 0 (entry before 1 one_frame) (read_of after 2) "s1" two_frames polled_once
      is_news settled_found
