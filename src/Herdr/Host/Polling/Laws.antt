-- ===== src/Herdr/Host/Polling/Laws.antt =====
-- What one poll of apps/bridge/src/herdr/hosts.ts tracks afterwards, and which closed panes it reports.
use kanhrd.Base.{
  ℕ, String, ◌≡◌, refl, ap, ◌∙◌, Bool, true, false, not, ◌&&◌, ◌||◌, Option, none, some, List, [],
  ◌∷◌, ◌++◌, str_eq, lookup, is_some, includes, arith, eq_iff, Bool-cases, inl, inr, lookup-erase,
  keys, includes-keys,
}
use kanhrd.Wire.{status_eq, BridgeEvent, pane_closed}
use kanhrd.Herdr.Names.{PanePlacement, remove_pane, pane_placement}
use kanhrd.Herdr.Project.{PaneInfo}
use kanhrd.Herdr.Host.{Observed, HostState, HostConfig, track_pane, untrack_pane, since_in}
use kanhrd.Herdr.Host.Placed.{
  is_tracked, is_placed, IsPlaced, track_pane-tracked, track_pane-IsPlaced, untrack_pane-IsPlaced,
}
use kanhrd.Herdr.Host.Polling.{
  pane_ids, gone, close_missing, changed, report_changes, poll_begin, poll_finish,
}

-- A frame that says that the pane is closed.
abbrev pub is_close_of : String → BridgeEvent → Bool
is_close_of id (pane_closed j host workspace) = str_eq j id
is_close_of id _ = false

abbrev pub closes : String → List BridgeEvent → Bool
closes id [] = false
closes id (e ∷ es) = is_close_of id e || closes id es

closes-append :
    (id : String) (xs ys : List BridgeEvent) → closes id (xs ++ ys) ≡ (closes id xs || closes id ys)
closes-append id [] ys = refl
closes-append id (e ∷ xs) ys = ground (arith, closes-append id xs ys)

untrack_pane-tracked :
    (id j : String) (s : HostState)
    → is_tracked j (untrack_pane id s) ≡ (not (str_eq id j) && is_tracked j s)
unfolding untrack_pane
untrack_pane-tracked id j s = ground (arith, lookup-erase id j s.pane_agent_status)

untrack_pane-placed :
    (id j : String) (s : HostState)
    → is_placed j (untrack_pane id s) ≡ (not (str_eq id j) && is_placed j s)
unfolding untrack_pane remove_pane
untrack_pane-placed id j s = ground (arith, lookup-erase id j s.names.pane_placements)

includes_same :
    (k id : String) (live : List String) → str_eq k id ≡ true → includes k live ≡ includes id live
includes_same k id live e = ap (λ j. includes j live) ((eq_iff k id).0 e)

placed_same :
    (k id : String) (s : HostState)
    → str_eq k id ≡ true
    → is_some (lookup k s.names.pane_placements) ≡ is_placed id s
placed_same k id s e = ap (λ j. is_some (lookup j s.names.pane_placements)) ((eq_iff k id).0 e)

close_missing-tracked :
    (config : HostConfig) (known live : List String) (s : HostState) (id : String)
    → is_tracked id (close_missing config known live s).0
      ≡ (is_tracked id s && not (includes id known && not (includes id live)))
unfolding close_missing
close_missing-tracked config [] live s id = ground arith
close_missing-tracked config (k ∷ known) live s id = elim (Bool-cases (includes k live)) [
  | inl e ↦ rw e (
      ground
        (arith, eq_iff k id, includes_same k id live, close_missing-tracked config known live s id))
  | inr e ↦ rw e (
      ground (
        arith,
        eq_iff k id,
        includes_same k id live,
        close_missing-tracked config known live (untrack_pane k s) id,
        untrack_pane-tracked k id s,
      ))
]

report_changes-tracked :
    (config : HostConfig) (now : ℕ) (panes : List PaneInfo) (s : HostState) (id : String)
    → is_tracked id (report_changes config now panes s).0
      ≡ (includes id (pane_ids panes) || is_tracked id s)
unfolding report_changes
report_changes-tracked config now [] s id = refl
report_changes-tracked config now (p ∷ ps) s id = ground (
  arith,
  report_changes-tracked config now ps (track_pane p false now s) id,
  track_pane-tracked id p false now s,
)

gone-closes :
    (config : HostConfig) (k id : String) (o : Option PanePlacement)
    → closes id (gone config k o) ≡ (str_eq k id && is_some o)
gone-closes config k id none = ground arith
gone-closes config k id (some p) = ground arith

close_missing-closes :
    (config : HostConfig) (known live : List String) (s : HostState) (id : String)
    → closes id (close_missing config known live s).1
      ≡ (includes id known && (not (includes id live) && is_placed id s))
unfolding close_missing pane_placement
close_missing-closes config [] live s id = refl
close_missing-closes config (k ∷ known) live s id = elim (Bool-cases (includes k live)) [
  | inl e ↦
      rw e (ground (arith, includes_same k id live, close_missing-closes config known live s id))
  | inr e ↦ rw e (
      closes-append id (gone config k (lookup k s.names.pane_placements)) _
      ∙ ground (
        arith,
        includes_same k id live,
        placed_same k id s,
        gone-closes config k id (lookup k s.names.pane_placements),
        close_missing-closes config known live (untrack_pane k s) id,
        untrack_pane-placed k id s,
      ))
]

changed-closes :
    (config : HostConfig) (id : String) (p : PaneInfo) (o : Option Observed) (since : Option ℕ)
    → closes id (changed config p o since) ≡ false
changed-closes config id p none since = refl
changed-closes config id p (some previous) since =
    elim (Bool-cases (status_eq previous.status p.agent_status)) [
      | inl e ↦ rw e refl
      | inr e ↦ rw e refl
    ]

report_changes-closes :
    (config : HostConfig) (now : ℕ) (panes : List PaneInfo) (s : HostState) (id : String)
    → closes id (report_changes config now panes s).1 ≡ false
unfolding report_changes
report_changes-closes config now [] s id = refl
report_changes-closes config now (p ∷ ps) s id =
    closes-append id
      (changed config p (lookup p.pane_id s.pane_agent_status)
        (since_in (lookup p.pane_id (track_pane p false now s).pane_agent_status)))
      (report_changes config now ps (track_pane p false now s)).1
    ∙ ground (
      arith,
      changed-closes config id p (lookup p.pane_id s.pane_agent_status)
          (since_in (lookup p.pane_id (track_pane p false now s).pane_agent_status)),
      report_changes-closes config now ps (track_pane p false now s) id,
    )

close_missing-IsPlaced :
    (config : HostConfig) (known live : List String) (s : HostState)
    → IsPlaced s
    → IsPlaced (close_missing config known live s).0
unfolding close_missing
close_missing-IsPlaced config [] live s h = h
close_missing-IsPlaced config (k ∷ known) live s h = elim (Bool-cases (includes k live)) [
  | inl e ↦ rw e (close_missing-IsPlaced config known live s h)
  | inr e ↦
      rw e
        (close_missing-IsPlaced config known live (untrack_pane k s) (untrack_pane-IsPlaced k s h))
]

report_changes-IsPlaced :
    (config : HostConfig) (now : ℕ) (panes : List PaneInfo) (s : HostState)
    → IsPlaced s
    → IsPlaced (report_changes config now panes s).0
unfolding report_changes
report_changes-IsPlaced config now [] s h = h
report_changes-IsPlaced config now (p ∷ ps) s h =
    report_changes-IsPlaced config now ps (track_pane p false now s)
      (track_pane-IsPlaced p false now s h)

-- What a poll tracks and reports of one pane.
pub record IsPolled (id : String) (known live : List String) (before after : HostState)
    (events : List BridgeEvent) : Type 0 where
  pub tracked :
      is_tracked id after ≡ (includes id live || (is_tracked id before && not (includes id known)))
  pub reports :
      closes id events ≡ (includes id known && (not (includes id live) && is_placed id before))

-- Of every pane, whatever happened between request and reply: after a poll it is tracked if the reply
-- lists it, or if it was tracked but not known when the request was sent; and a closed frame is
-- emitted exactly if it was known then, is not listed, and still had a placement.
pub poll_finish-IsPolled :
    (config : HostConfig) (now : ℕ) (known : List String) (panes : List PaneInfo) (s : HostState)
    (id : String)
    → IsPolled id known
        (pane_ids panes)
        s
        (poll_finish config now known panes s).0
        (poll_finish config now known panes s).1
unfolding poll_finish
poll_finish-IsPolled config now known panes s id = record {
  tracked =
      report_changes-tracked config now panes (close_missing config known (pane_ids panes) s).0 id
      ∙ ground (arith, close_missing-tracked config known (pane_ids panes) s id);
  reports =
      closes-append id (close_missing config known (pane_ids panes) s).1
        (report_changes config now panes (close_missing config known (pane_ids panes) s).0).1
      ∙ ground (
        arith,
        close_missing-closes config known (pane_ids panes) s id,
        report_changes-closes config now panes (close_missing config known (pane_ids panes) s).0 id,
      );
}

-- If nothing happened between request and reply and every tracked pane has a placement, then after a
-- poll exactly the listed panes are tracked, and exactly the tracked panes that are not listed are
-- reported closed: no dead pane stays on the board.
pub poll-reports_gone :
    (config : HostConfig) (now : ℕ) (panes : List PaneInfo) (s : HostState) (id : String)
    → IsPlaced s
    → (is_tracked id (poll_finish config now (poll_begin s) panes s).0
        ≡ includes id (pane_ids panes))
      × (closes id (poll_finish config now (poll_begin s) panes s).1
          ≡ (is_tracked id s && not (includes id (pane_ids panes))))
unfolding poll_begin
poll-reports_gone config now panes s id h = (
  polled.tracked ∙ ground (arith, includes-keys id s.pane_agent_status),
  polled.reports ∙ ground (arith, includes-keys id s.pane_agent_status, h.placed id),
)
  where
    polled :
        IsPolled id
          (keys s.pane_agent_status)
          (pane_ids panes)
          s
          (poll_finish config now (keys s.pane_agent_status) panes s).0
          (poll_finish config now (keys s.pane_agent_status) panes s).1
    polled = poll_finish-IsPolled config now (keys s.pane_agent_status) panes s id

-- A poll keeps a placement for every tracked pane.
pub poll_finish-IsPlaced :
    (config : HostConfig) (now : ℕ) (known : List String) (panes : List PaneInfo) (s : HostState)
    → IsPlaced s
    → IsPlaced (poll_finish config now known panes s).0
unfolding poll_finish
poll_finish-IsPlaced config now known panes s h =
    report_changes-IsPlaced config now panes _
      (close_missing-IsPlaced config known (pane_ids panes) s h)
