-- ===== src/Lib.antt =====
-- kanhrd is a kanban board for the terminal panes of herdr, a terminal multiplexer. A bridge process
-- (apps/bridge) talks to one herdr per configured host and serves a browser app (apps/web) over one
-- WebSocket; packages/schema has the types that both share. herdr pushes lifecycle events to the
-- bridge, which keeps a cache of names and of agent statuses, projects what it sees and forwards it;
-- the browser sends requests, which the bridge checks and routes to a host, and applies the event
-- frames to its maps of panes, workspaces and tabs. The output of an open pane is polled once for all
-- its subscribers and goes to each as a full frame or as a delta of whole lines.
--
-- Which file models which part:
--   Base               a JavaScript `Map` with string keys as its entries in insertion order, list
--                      operations over native numbers, template strings; with their laws
--   Wire               the types of packages/schema/src/herdr.ts and wire.ts
--   Output/Delta       apps/bridge/src/output/delta.ts: `lineDelta` is `line_delta`, `applyLineDelta`
--                      is `apply_line_delta`. A text is a list of UTF-16 code units
--   Output/Poller      apps/bridge/src/output/poller.ts: `subscribe`, `unsubscribe`, `drop_connection`;
--                      `poll` is `poll_start` up to its `await` and `poll_finish` after it, so that
--                      other operations may come between. A `PollEntry` is a cell of a heap, since
--                      `poll` holds on to it when the map has dropped it
--   PaneDetail/Snapshot  `rebuildSnapshot` of apps/web/src/app/pane-detail/pane-terminal.ts
--   PaneDetail/KeyBar  apps/web/src/app/pane-detail/key-bar-cells.ts: `foldModifiers`, and
--                      `KeyBarModifiers`
--   PaneDetail/Input   apps/web/src/app/pane-detail/key-mapping.ts: `classifyInput`
--   Herdr/Names        apps/bridge/src/herdr/names.ts: `WorkspaceTabNameCache`
--   Herdr/Project      apps/bridge/src/herdr/project.ts, with the file system as a parameter
--   Herdr/Host         `HostRuntime` of apps/bridge/src/herdr/hosts.ts: the tracking of panes, the seeding
--                      of `connectOnce`, `handlePushedEvent` (Push) and `pollAgentStatus` (Polling,
--                      `poll_begin` before the request and `poll_finish` after the reply)
--   Herdr/Host/Link    `start`, `stop`, `connectOnce`, `establishSubscription` and `scheduleReconnect` of
--                      hosts.ts as steps of a relation, so that they come in any order
--   Herdr/Host/Calls   the calls of `HostRuntime` on panes, tabs and workspaces: the request of each and
--                      its queue, and (Replies) what it does with the reply, of which any field may be
--                      missing
--   Herdr/Host/Trace   any sequence of events, polls, seedings and settled calls
--   Herdr/Queue        apps/bridge/src/herdr/write-queue.ts: a promise is a job that waits for the one
--                      before it; `enqueue`, and the steps in which a job begins and settles
--   Files/Confine      apps/bridge/src/files/confine.ts, with `node:path` and `realpathSync` as parameters
--   Files/Gate         apps/bridge/src/files/gate.ts
--   Files/Git          how apps/bridge/src/files/git.ts keeps the output of git to a limit
--   Files/Lookup       apps/bridge/src/herdr/repo.ts: the walk up to a checkout, which an unreadable
--                      directory ends with an exception, and its cache
--   Files/Status       `status` of apps/bridge/src/files/reader.ts
--   Files/Reader       `read`, `tree` (Listing) and `diff` (Diff) of reader.ts
--   Ws/Message         the requests and responses of apps/bridge/src/ws/dispatch.ts
--   Ws/Dispatch        `dispatch` of apps/bridge/src/ws/dispatch.ts, which gives the calls that are made
--                      and the response; what a call returns is a parameter
--   Ws/Server          what a connection of apps/bridge/src/ws/server.ts subscribes to, and the events
--                      that reach it
--   Access             the origins of apps/bridge/src/config.ts and `checkOrigin` of
--                      apps/bridge/src/http/origin.ts, with the URL parser as a parameter
--   State/Panes        the reducers (Reducers) and the columns (Columns) of
--                      apps/web/src/app/state/panes.store.ts
--   State/Panes/Swimlanes  the bands, the URL scope and the counts of panes.store.ts
--   State/Actions      the actions of panes.store.ts once they are answered, and the first listing
--   State/Keyboard     apps/web/src/app/state/keyboard.service.ts: `handle_keydown` gives the new state
--                      and what it asks of other parts
--   State/Layout       apps/web/src/app/state/layout.service.ts
--   State/BoardReturn  apps/web/src/app/state/board-return.service.ts: the way from a card back to the
--                      board, with the pump that restores its place
--   State/Parked       apps/web/src/app/state/parked.store.ts: columns that the operator defines
--   State/Frame        `applyFrame` of panes.store.ts, where maps and parked columns meet
--   State/Toast        apps/web/src/app/state/toast.service.ts
--   State/Client       `WsClient` of apps/web/src/app/state/ws-client.ts: which requests wait, and how the
--                      socket's handlers end them
--   Tests              the theorems at concrete inputs
--
-- Fuel. The inner loop of `lineDelta` (`extend_run`) runs on the number of lines of the previous
-- snapshot, which is enough: each round moves one line on. `decimal n` has `n + 1` digits of room.
-- `nextColumnId` (`free_id`) tries one name more than there are columns, so one of them is free, since
-- the decimal forms of two numbers differ (Base/Text/Decimal).
--
-- The walks of `confinePath` and `resolveRepo` run on fuel; where the parent of a path is smaller by
-- some measure, or is the path itself, one round more than that measure is enough. The loop of
-- `foldModifiers` (`peel`) runs on the length of the key, which each round shortens.
--
-- Representation: times, revisions, orders, ids and scroll offsets are natural numbers; ids that the platform draws at
-- random are arguments; optional fields are `Option`, and a JSON array or object in the parameters of
-- a request is kept as its text. How long a timer runs is left out, and so is the constant part of
-- the capabilities that `dispatch` answers.
--
-- Not modelled: sockets, the file system, the git process and HTTP serving, which are input and output;
-- the components and templates of the board; the themes; storage of settings. The
-- order of names and labels that a sort uses is a parameter.
pub mod Base
pub mod Wire
pub mod Output
pub mod PaneDetail
pub mod State
pub mod Ws
pub mod Herdr
pub mod Access
pub mod Files
pub mod Tests
