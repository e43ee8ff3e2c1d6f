-- ===== src/Ws/Message.antt =====
-- The requests of a browser and their responses, as apps/bridge/src/ws/dispatch.ts sees them, and what
-- it may ask of a host.
use kanhrd.Base.{ℕ, String, Bool, Option, none, some, [], ◌∷◌, Dict, lookup}

-- A JSON value; an array or an object is kept as its text.
pub data Value : Type 0 where
  null_value : Value
  flag : Bool → Value
  number : ℕ → Value
  text : String → Value
  compound : String → Value

abbrev pub Params : Type 0
Params = Option (Dict Value)

pub data Method : Type 0 where
  capabilities pane_list events_subscribe pane_read subscribe_output unsubscribe_output send_keys
        send_text pane_resize graphics_info graphics_stream pane_split pane_close pane_move
        pane_rename tab_create tab_rename tab_close tab_move workspace_create workspace_rename
        workspace_close repo_status repo_tree file_read repo_diff :
      Method
  unknown_method : String → Method

-- The names of the `case` labels.
abbrev pub method_names : Dict Method
method_names =
    ("bridge.capabilities", capabilities)
    ∷ ("pane.list", pane_list)
    ∷ ("events.subscribe", events_subscribe)
    ∷ ("pane.read", pane_read)
    ∷ ("pane.subscribe_output", subscribe_output)
    ∷ ("pane.unsubscribe_output", unsubscribe_output)
    ∷ ("pane.send_keys", send_keys)
    ∷ ("pane.send_text", send_text)
    ∷ ("pane.resize", pane_resize)
    ∷ ("pane.graphics.info", graphics_info)
    ∷ ("pane.graphics.stream", graphics_stream)
    ∷ ("pane.split", pane_split)
    ∷ ("pane.close", pane_close)
    ∷ ("pane.move", pane_move)
    ∷ ("pane.rename", pane_rename)
    ∷ ("tab.create", tab_create)
    ∷ ("tab.rename", tab_rename)
    ∷ ("tab.close", tab_close)
    ∷ ("tab.move", tab_move)
    ∷ ("workspace.create", workspace_create)
    ∷ ("workspace.rename", workspace_rename)
    ∷ ("workspace.close", workspace_close)
    ∷ ("repo.status", repo_status)
    ∷ ("repo.tree", repo_tree)
    ∷ ("file.read", file_read)
    ∷ ("repo.diff", repo_diff)
    ∷ []

abbrev pub method_or : String → Option Method → Method
method_or name none = unknown_method name
method_or name (some m) = m

unfoldable pub method_of : String → Method
method_of name = method_or name (lookup name method_names)

-- What a request asks of its host or of the connection, with the parameters as they are passed on.
pub data Call : Type 0 where
  list_panes : Call
  on_subscribe : Option Value → Call
  herdr : Method → Params → Call

-- How the result of a call becomes the `data` of the response.
pub data Shape : Type 0 where
  as_panes as_subscription as_empty as_data : Shape

pub data Step : Type 0 where
  refuse : String → String → Step
  answer : Step
  invoke : Call → Shape → Step

-- An exception: one of the three classes that carry a code, or any other.
pub data Failure : Type 0 where
  repo_file_error host_unavailable_error herdr_request_error : String → String → Failure
  other_error : String → Failure

pub data Reply : Type 0 where
  returned : Value → Reply
  thrown : Failure → Reply

pub data Data : Type 0 where
  empty : Data
  capabilities_data : Option Value → Data
  panes_data subscription result : Value → Data

pub data Body : Type 0 where
  succeeded : Data → Body
  refused : String → String → Body

pub record Request : Type 0 where
  pub id : String
  pub host : String
  pub method : String
  pub params : Params

pub record Response : Type 0 where
  pub id : String
  pub host : String
  pub body : Body
