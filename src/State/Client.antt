-- ===== src/State/Client.antt =====
-- apps/web/src/app/state/ws-client.ts: the requests that wait for a response, and the reconnection. A
-- fresh `randomUUID()` is an argument of `request`; `V` is what a response carries.
pub mod Settling
use kanhrd.Base.{
  ℕ, suc, ◌+◌, ◌*◌, ◌^◌, min, String, Bool, true, false, not, ◌&&◌, Option, none, some, List, [],
  ◌∷◌, ◌++◌, if◌then◌else◌, Dict, lookup, insert, erase,
}
use kanhrd.State.Toast.{ToastState, ToastLevel, PushOptions, push, dismiss_by_key}

-- How a promise ends: with the data of a response, its error, or an error of the client.
pub data Settlement (V : Type 0) : Type 0 where
  resolved : V → Settlement V
  bridge_error : String → String → Settlement V
  not_connected : Settlement V
  connection_closed : Settlement V

-- `pending` has the host and the method of a request that waits; `settled` are the promises that have
-- ended, oldest first; `delays` are the timers that were set.
pub record Client (V : Type 0) : Type 0 where
  pub connected : Bool
  pub connection_lost : Bool
  pub reconnect_attempt : ℕ
  pub pending : Dict String
  pub settled : List (String × Settlement V)
  pub events : List V
  pub delays : List ℕ
  pub toasts : ToastState

-- A frame of the bridge: a response, an event, or what does not parse.
pub data Frame (V : Type 0) : Type 0 where
  success : String → V → Frame V
  failure : String → String → String → Frame V
  event : V → Frame V
  unparsable : Frame V

abbrev pub notice_key : String
notice_key = "bridge:connection"

abbrev pub bridge_reconnected : String
bridge_reconnected = "bridge back."

abbrev pub bridge_disconnected : String
bridge_disconnected = "lost the bridge. retrying."

module _ {V : Type 0} where
  unfoldable pub settle : String → Settlement V → Client V → Client V
  settle id result c = record c { settled = c.settled ++ (id, result) ∷ [] }

  unfoldable pub request : String → String → Client V → Client V
  unfolding settle
  request id method c =
      if c.connected
      then record c { pending = insert id method c.pending }
      else settle id not_connected c

  abbrev pub settle_known : String → Settlement V → Option String → Client V → Client V
  settle_known id result none c = c
  settle_known id result (some method) c =
      settle id result (record c { pending = erase id c.pending })

  unfoldable pub handle_message : Frame V → Client V → Client V
  unfolding settle
  handle_message (success id data_of) c = settle_known id (resolved data_of) (lookup id c.pending) c
  handle_message (failure id code message) c =
      settle_known id (bridge_error code message) (lookup id c.pending) c
  handle_message (event e) c = record c { events = c.events ++ e ∷ [] }
  handle_message unparsable c = c

  abbrev pub rejections : Dict String → List (String × Settlement V)
  rejections [] = []
  rejections ((id, method) ∷ m) = (id, connection_closed) ∷ rejections m

  unfoldable pub reject_all_pending : Client V → Client V
  reject_all_pending c = record c { pending = []; settled = c.settled ++ rejections c.pending }

  unfoldable pub schedule_reconnect : Client V → Client V
  schedule_reconnect c = record c {
    delays = c.delays ++ min 30000 (500 * 2 ^ c.reconnect_attempt) ∷ [];
    reconnect_attempt = c.reconnect_attempt + 1;
  }

  unfoldable pub on_open : Client V → Client V
  on_open c = record c {
    reconnect_attempt = 0;
    connected = true;
    connection_lost = false;
    toasts =
        if c.connection_lost
        then push
            (record {
              level = ToastLevel.info;
              message = bridge_reconnected;
              persistent = none;
              key = none;
            })
            (dismiss_by_key notice_key c.toasts)
        else c.toasts;
  }

  abbrev pub announce_loss : Bool → Client V → Client V
  announce_loss was_connected c =
      if was_connected && not c.connection_lost
      then record c {
        connection_lost = true;
        toasts =
            push
              (record {
                level = ToastLevel.warn;
                message = bridge_disconnected;
                persistent = some true;
                key = some notice_key;
              })
              c.toasts;
      }
      else c

  unfoldable pub on_close : Client V → Client V
  unfolding reject_all_pending schedule_reconnect
  on_close c =
      announce_loss c.connected
        (schedule_reconnect (reject_all_pending (record c { connected = false })))
