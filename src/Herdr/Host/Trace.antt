-- ===== src/Herdr/Host/Trace.antt =====
-- The life of a `HostRuntime` of apps/bridge/src/herdr/hosts.ts as a sequence of what changes its
-- tracked panes: events of herdr, polls, seedings and settled calls, in any order.
use kanhrd.Base.{ℕ, String, Option, List, [], ◌∷◌, lookup, arith}
use kanhrd.Herdr.Names.{NameCache, WorkspaceInfo, TabInfo}
use kanhrd.Herdr.Project.{PaneInfo, Worktree}
use kanhrd.Herdr.Host.{HostState, HostConfig, connect_once}
use kanhrd.Herdr.Host.Push.{Pushed, handle_pushed_event}
use kanhrd.Herdr.Host.Tracking.{handle-IsPlaced, connect_once-IsPlaced}
use kanhrd.Herdr.Host.Placed.{IsPlaced}
use kanhrd.Herdr.Host.Polling.{poll_finish}
use kanhrd.Herdr.Host.Polling.Laws.{poll_finish-IsPlaced}
use kanhrd.Herdr.Host.Calls.{LifecycleCall, Reply}
use kanhrd.Herdr.Host.Calls.Replies.{settle_call}
use kanhrd.Herdr.Host.Calls.Laws.{settle_call_sound}

pub data Change : Type 0 where
  pushed : ℕ → Pushed → Change
  polled : ℕ → List String → List PaneInfo → Change
  seeded : ℕ → List (WorkspaceInfo Worktree) → List TabInfo → List PaneInfo → Change
  settled : ℕ → LifecycleCall → Option Reply → Change

abbrev pub change : HostConfig → Change → HostState → HostState
change config (pushed now event) s = (handle_pushed_event config now event s).0
change config (polled now known panes) s = (poll_finish config now known panes s).0
change config (seeded now ws ts ps) s = connect_once ws ts ps now s
change config (settled now call reply) s = (settle_call config now call reply s).0

unfoldable pub changed_by : HostConfig → List Change → HostState → HostState
changed_by config [] s = s
changed_by config (c ∷ cs) s = changed_by config cs (change config c s)

-- A runtime that has tracked nothing.
abbrev pub untracked : NameCache Worktree → HostState
untracked names = record { pane_agent_status = []; names = names }

change-IsPlaced :
    (config : HostConfig) (c : Change) (s : HostState) → IsPlaced s → IsPlaced (change config c s)
change-IsPlaced config (pushed now event) s h = handle-IsPlaced config now event s h
change-IsPlaced config (polled now known panes) s h =
    poll_finish-IsPlaced config now known panes s h
change-IsPlaced config (seeded now ws ts ps) s h = connect_once-IsPlaced ws ts ps now s
change-IsPlaced config (settled now call reply) s h =
    (settle_call_sound config now call reply s h).0

changed_by-keeps :
    (config : HostConfig) (cs : List Change) (s : HostState)
    → IsPlaced s
    → IsPlaced (changed_by config cs s)
unfolding changed_by
changed_by-keeps config [] s h = h
changed_by-keeps config (c ∷ cs) s h =
    changed_by-keeps config cs (change config c s) (change-IsPlaced config c s h)

-- Whatever herdr pushes, polls find, seedings list and calls are answered with, and in whatever order,
-- each pane whose status the bridge tracks has a placement: its tab and its workspace are known.
pub changed_by-IsPlaced :
    (config : HostConfig) (names : NameCache Worktree) (cs : List Change)
    → IsPlaced (changed_by config cs (untracked names))
unfolding lookup
changed_by-IsPlaced config names cs =
    changed_by-keeps config cs (untracked names) (record { placed = λ id t. absurd (ground arith) })
