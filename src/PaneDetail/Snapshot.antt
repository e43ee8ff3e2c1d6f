-- ===== src/PaneDetail/Snapshot.antt =====
-- `rebuildSnapshot` of apps/web/src/app/pane-detail/pane-terminal.ts, and its use on each frame.
use kanhrd.Base.{
  ◌+◌, ◌≡◌, Option, none, some, List, [], ◌∷◌, ◌++◌, length, ◌==◌, if◌then◌else◌, arith,
  Option-cases, inl, inr,
}
use kanhrd.Output.Delta.{Text, slice}
use kanhrd.Output.Poller.Types.{OutputDelta, PaneOutput}

unfoldable pub rebuild_delta : Text → Text → OutputDelta → Option Text
rebuild_delta last_snapshot content d =
    let rebuilt = slice last_snapshot d.drop (d.drop + d.keep) ++ content in
    if length rebuilt == d.length then some rebuilt else none

-- `none` is a frame that does not rebuild.
unfoldable pub rebuild_snapshot : Text → PaneOutput → Option Text
unfolding rebuild_delta
rebuild_snapshot last_snapshot payload = elim payload.delta [
  | none ↦ some payload.content
  | some d ↦ rebuild_delta last_snapshot payload.content d
]

-- The snapshot after a sequence of frames; `none` once a frame does not rebuild.
unfoldable pub watch : Text → List PaneOutput → Option Text
watch last_snapshot [] = some last_snapshot
watch last_snapshot (payload ∷ frames) = elim (rebuild_snapshot last_snapshot payload) [
  | none ↦ none
  | some content ↦ watch content frames
]

pub watch-append :
    (t : Text) (frames : List PaneOutput) (payload : PaneOutput) (c : Text)
    → watch t frames ≡ some c
    → watch t (frames ++ payload ∷ []) ≡ rebuild_snapshot c payload
unfolding watch
watch-append t [] payload c h = ground arith
watch-append t (f ∷ frames) payload c h = elim (Option-cases (rebuild_snapshot t f)) [
  | inl e ↦ absurd (ground arith)
  | inr (next, e) ↦ rw (e, watch) (watch-append next frames payload c (ground arith))
]
