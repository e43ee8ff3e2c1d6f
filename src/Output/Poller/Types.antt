-- ===== src/Output/Poller/Types.antt =====
-- The state of apps/bridge/src/output/poller.ts. A `PollEntry` object is a cell of `heap`, since
-- `poll` holds on to it across its `await`; the map `entries` has the addresses. The callback `emit`
-- of a subscriber is what it has been called with, oldest first. `last_revision` is `none` for -1.
use kanhrd.Base.{ℕ, zero, suc, String, Bool, Option, List, [], ◌∷◌, Dict}
use kanhrd.Output.Delta.{Text}

-- `PaneOutputDelta` of the wire.
pub record OutputDelta : Type 0 where
  pub drop : ℕ
  pub keep : ℕ
  pub length : ℕ

-- The payload of a `pane.output` frame.
pub record PaneOutput : Type 0 where
  pub subscription_id : String
  pub pane_id : String
  pub revision : ℕ
  pub content : Text
  pub format : String
  pub truncated : Bool
  pub delta : Option OutputDelta

pub record Subscriber : Type 0 where
  pub subscription_id : String
  pub connection_id : String
  pub emitted : List PaneOutput
  pub delta : Bool
  pub primed : Bool

pub record PollEntry : Type 0 where
  pub key : String
  pub host : String
  pub pane_id : String
  pub source : String
  pub format : String
  pub lines : Option ℕ
  pub last_revision : Option ℕ
  pub last_content : Option Text
  pub in_flight : Bool
  -- whether the interval timer of the entry runs
  pub ticking : Bool
  pub subscribers : Dict Subscriber

pub record OutputShape : Type 0 where
  pub source : Option String
  pub format : Option String
  pub lines : Option ℕ
  pub delta : Option Bool

pub record OutputPoller : Type 0 where
  pub heap : List PollEntry
  pub entries : Dict ℕ
  pub by_subscription : Dict String

abbrev pub new_poller : OutputPoller
new_poller = record { heap = []; entries = []; by_subscription = [] }

-- A successful `pane.read`.
pub record ReadResult : Type 0 where
  pub content : Text
  pub revision : ℕ
  pub truncated : Bool
  pub format : String

-- A write through a reference to an entry.
abbrev pub update_entry : (PollEntry → PollEntry) → ℕ → List PollEntry → List PollEntry
update_entry f address [] = []
update_entry f zero (e ∷ heap) = f e ∷ heap
update_entry f (suc address) (e ∷ heap) = e ∷ update_entry f address heap
