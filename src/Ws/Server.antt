-- ===== src/Ws/Server.antt =====
-- apps/bridge/src/ws/server.ts: what one connection subscribes to, and the events that reach it. A host
-- emits to the listeners that are attached to it; the socket is an argument.
pub mod Fanout
use kanhrd.Base.{
  String, Bool, true, false, ◌&&◌, Option, none, some, List, [], ◌∷◌, ◌++◌, Dict, lookup, insert,
  keys, includes, str_eq, if◌then◌else◌,
}

-- The subscriptions of a connection, each as its kinds, and the hosts that its listeners are on.
pub record Connection : Type 0 where
  pub subscriptions : Dict (List String)
  pub listeners : List String

unfoldable pub opened : Connection
opened = record { subscriptions = []; listeners = [] }

-- `kinds.add(kind)`
abbrev pub add_kind : String → List String → List String
add_kind kind kinds = if includes kind kinds then kinds else kinds ++ kind ∷ []

abbrev pub add_kinds : List String → List String → List String
add_kinds [] kinds = kinds
add_kinds (k ∷ ks) kinds = add_kinds ks (add_kind k kinds)

abbrev pub ensured : Option (List String) → String → Connection → Connection
ensured none host c = record {
  subscriptions = insert host [] c.subscriptions;
  listeners = host ∷ c.listeners;
}
ensured (some kinds) host c = c

unfoldable pub ensure_subscription : String → Connection → Connection
ensure_subscription host c = ensured (lookup host c.subscriptions) host c

abbrev pub kinds_of : Option (List String) → List String
kinds_of none = []
kinds_of (some kinds) = kinds

abbrev pub widened : String → List String → Connection → Connection
widened host kinds c = record c {
  subscriptions =
      insert host (add_kinds kinds (kinds_of (lookup host c.subscriptions))) c.subscriptions;
}

-- `onSubscribe`; `has_host` says which hosts the registry holds.
unfoldable pub on_subscribe : (String → Bool) → String → List String → Connection → Connection
unfolding ensure_subscription
on_subscribe has_host host kinds c =
    if has_host host then widened host kinds (ensure_subscription host c) else c

-- Whether an event that a host emits is sent on the connection; `is_open` is the state of the socket.
unfoldable pub is_sent : Bool → String → String → Connection → Bool
is_sent is_open host kind c =
    includes host c.listeners && (includes kind (kinds_of (lookup host c.subscriptions)) && is_open)

-- `off`, which takes one listener away
abbrev pub without : String → List String → List String
without host [] = []
without host (h ∷ hs) = let rest = without host hs in if str_eq h host then hs else h ∷ rest

abbrev pub off_all : (String → Bool) → List String → List String → List String
off_all has_host [] listeners = listeners
off_all has_host (h ∷ hs) listeners =
    off_all has_host hs (if has_host h then without h listeners else listeners)

-- The socket has closed.
unfoldable pub on_close : (String → Bool) → Connection → Connection
on_close has_host c = record {
  subscriptions = [];
  listeners = off_all has_host (keys c.subscriptions) c.listeners;
}
