-- ===== src/Output/Poller/Sync.antt =====
-- A client that applies every frame which apps/bridge/src/output/poller.ts emitted to it shows the
-- snapshot that its poll loop sent last.
use kanhrd.Base.{
  ◌+◌, ◌≡◌, refl, sym, ap, subst, ◌∙◌, true, false, Option, none, some, List, [], ◌∷◌, ◌++◌, length,
  arith, Dict, AllValues, Bool-cases, Option-cases, inl, inr, ◌==◌, ==_iff,
}
use kanhrd.Output.Delta.{Text, LineDelta, line_delta, slice, apply_line_delta}
use kanhrd.Output.Delta.Rebuild.{apply_line_delta-line_delta, line_delta_shrinks}
use kanhrd.Output.Poller.Types.{Subscriber, PollEntry, PaneOutput, ReadResult}
use kanhrd.Output.Poller.Polling.{usable, Memo, memo_after, chosen, output_frame, send_to, deliver}
use kanhrd.PaneDetail.Snapshot.{rebuild_delta, rebuild_snapshot, watch, watch-append}

-- After the frames a client shows `c`, whatever it showed before the first.
abbrev pub Shows : List PaneOutput → Text → Type 0
Shows frames c = (t : Text) → watch t frames ≡ some c

pub record IsSynced (last : Option Text) (s : Subscriber) : Type 0 where
  pub primed : s.primed ≡ true → (c : Text) × (last ≡ some c) × Shows s.emitted c
  pub unprimed : s.primed ≡ false → s.emitted ≡ []

-- A delta that has been computed is the one from the last snapshot.
abbrev pub IsMemo : Option Text → Text → Memo → Type 0
IsMemo last content memo =
    (m : Option LineDelta)
    → memo ≡ some m
    → (previous : Text) × (last ≡ some previous) × (m ≡ line_delta previous content)

memo_after-IsMemo :
    (last : Option Text) (content : Text) (s : Subscriber) (memo : Memo)
    → IsMemo last content memo
    → IsMemo last content (memo_after last content s memo)
unfolding memo_after
memo_after-IsMemo (some previous) content s none h = λ m e. elim (Bool-cases (usable s)) [
  | inl u ↦ (previous, refl, ground arith)
  | inr u ↦ absurd (ground arith)
]
memo_after-IsMemo none content s none h = h
memo_after-IsMemo none content s (some m) h = h
memo_after-IsMemo (some previous) content s (some m) h = h

rebuild_delta-line_delta :
    (previous next : Text) (d : LineDelta)
    → line_delta previous next ≡ some d
    → rebuild_delta previous d.tail (record { drop = d.drop; keep = d.keep; length = d.length })
      ≡ some next
unfolding rebuild_delta apply_line_delta
rebuild_delta-line_delta previous next d h =
    let same : slice previous d.drop (d.drop + d.keep) ++ d.tail ≡ next =
      apply_line_delta-line_delta previous next d h in
    let long = line_delta_shrinks previous next d h in
    let fits : (length next == d.length) ≡ true = (==_iff _ _).1 (sym long.1) in rw (same, fits)

chosen-memo :
    (s : Subscriber) (memo : Memo) (d : LineDelta) → chosen s memo ≡ some d → memo ≡ some (some d)
unfolding chosen
chosen-memo s none d h = cc
chosen-memo s (some none) d h = cc
chosen-memo s (some (some d')) d h = ground arith

-- The frame that is sent rebuilds the new snapshot from the old one.
frame-rebuilds :
    (e : PollEntry) (r : ReadResult) (s : Subscriber) (previous : Text) (memo : Memo)
    → IsMemo (some previous) r.content memo
    → rebuild_snapshot previous (output_frame e r s (chosen s memo)) ≡ some r.content
unfolding rebuild_snapshot output_frame
frame-rebuilds e r s previous memo h = elim (Option-cases (chosen s memo)) [
  | inl full ↦ ap (λ u. rebuild_snapshot previous (output_frame e r s u)) full
  | inr (d, used) ↦
      let (p, same, from) = h (some d) (chosen-memo s memo d used) in
      let here : line_delta previous r.content ≡ some d = cc in
      ap (λ u. rebuild_snapshot previous (output_frame e r s u)) used
      ∙ rebuild_delta-line_delta previous r.content d here
]

-- A subscriber that has nothing yet is sent the full snapshot.
unprimed-full :
    (e : PollEntry) (r : ReadResult) (s : Subscriber) (t : Text) (memo : Memo)
    → s.primed ≡ false
    → rebuild_snapshot t (output_frame e r s (chosen s memo)) ≡ some r.content
unfolding rebuild_snapshot output_frame chosen usable
unprimed-full e r s t none h = refl
unprimed-full e r s t (some none) h = refl
unprimed-full e r s t (some (some d)) h = ground arith

send_to-Shows :
    (e : PollEntry) (r : ReadResult) (s : Subscriber) (memo : Memo)
    → IsMemo e.last_content r.content memo
    → IsSynced e.last_content s
    → Shows (send_to e r s (chosen s memo)).emitted r.content
unfolding send_to
send_to-Shows e r s memo m h t = elim (Bool-cases s.primed) [
  | inl p ↦
      let (previous, last, shows) = h.primed p in
      watch-append t s.emitted _ previous (shows t)
      ∙ frame-rebuilds e r s previous memo (subst (λ l. IsMemo l r.content memo) last m)
  | inr p ↦
      let start : watch t s.emitted ≡ some t = ap (watch t) (h.unprimed p) ∙ unfold watch in refl in
      watch-append t s.emitted _ t start ∙ unprimed-full e r s t memo p
]

-- Every subscriber of an entry.
abbrev pub AllSynced : Option Text → Dict Subscriber → Type 0
AllSynced last subs = AllValues (IsSynced last) subs

-- Once a snapshot is delivered every subscriber has it, whatever came before.
abbrev pub AllShow : Text → Dict Subscriber → Type 0
AllShow c subs = AllValues (λ s. (s.primed ≡ true) × Shows s.emitted c) subs

pub deliver-AllShow :
    (e : PollEntry) (r : ReadResult) (memo : Memo) (subs : Dict Subscriber)
    → IsMemo e.last_content r.content memo
    → AllSynced e.last_content subs
    → AllShow r.content (deliver e r memo subs)
unfolding deliver
deliver-AllShow e r memo [] m h = tt
deliver-AllShow e r memo ((id, s) ∷ rest) m (here, later) =
    let m' = memo_after-IsMemo e.last_content r.content s memo m in
    (
      (unfold send_to in refl, send_to-Shows e r s _ m' here),
      deliver-AllShow e r (memo_after e.last_content r.content s memo) rest m' later,
    )

pub AllShow-AllSynced :
    (c : Text) (subs : Dict Subscriber) → AllShow c subs → AllSynced (some c) subs
AllShow-AllSynced c [] h = tt
AllShow-AllSynced c ((id, s) ∷ rest) ((primed, shows), later) = (
  record { primed = λ _. (c, refl, shows); unprimed = λ p. absurd (ground arith) },
  AllShow-AllSynced c rest later,
)
