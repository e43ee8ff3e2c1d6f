-- ===== src/Ws/Dispatch.antt =====
-- `dispatch` of apps/bridge/src/ws/dispatch.ts: one request of a browser, routed to the call of the
-- herdr host that it names, and its response. The hosts' calls are a parameter.
pub mod Laws
use kanhrd.Base.{
  ℕ, String, Bool, true, false, not, ◌&&◌, ◌||◌, Option, none, some, List, [], ◌∷◌, if◌then◌else◌,
  str_eq, ◌==◌, Dict, includes, lookup, concat,
}
use kanhrd.Ws.Message.{
  Value, Params, Method, method_of, Call, Shape, Step, Failure, Reply, Data, Body, Request,
  Response, null_value, flag, number, text, compound, workspace_close, repo_status, repo_tree,
  file_read, repo_diff, unknown_method, list_panes, on_subscribe, herdr, as_panes, as_subscription,
  as_empty, as_data, refuse, answer, invoke, repo_file_error, host_unavailable_error,
  herdr_request_error, other_error, returned, thrown, empty, capabilities_data, panes_data,
  subscription, result, succeeded, refused, capabilities, pane_list, events_subscribe, pane_read,
  subscribe_output, unsubscribe_output, send_keys, send_text, pane_resize, graphics_info,
  graphics_stream, pane_split, pane_close, pane_move, pane_rename, tab_create, tab_rename,
  tab_close, tab_move, workspace_create, workspace_rename,
}

-- `params?.name`: none for `undefined`.
abbrev pub field : String → Params → Option Value
field name none = none
field name (some p) = lookup name p

abbrev pub is_truthy_value : Value → Bool
is_truthy_value null_value = false
is_truthy_value (flag b) = b
is_truthy_value (number n) = not (n == 0)
is_truthy_value (text s) = not (str_eq s "")
is_truthy_value (compound s) = true

abbrev pub is_truthy : Option Value → Bool
is_truthy none = false
is_truthy (some v) = is_truthy_value v

abbrev pub is_defined : Option Value → Bool
is_defined none = false
is_defined (some v) = true

abbrev pub is_string : Option Value → Bool
is_string (some (text s)) = true
is_string _ = false

abbrev pub invalid : String → Step
invalid message = refuse "invalid_params" message

-- `params ?? {}`
abbrev pub or_no_params : Params → Params
or_no_params none = some []
or_no_params (some p) = some p

abbrev pub pane_only : Option Value → Params
pane_only none = some []
pane_only (some id) = some (("pane_id", id) ∷ [])

abbrev pub with_path : Option Value → Option Value → Params
with_path (some id) (some path) = some (("pane_id", id) ∷ ("path", path) ∷ [])
with_path id none = pane_only id
with_path none (some path) = some (("path", path) ∷ [])

-- The `switch` inside `try`.
unfoldable pub step : Method → Params → Step
step capabilities p = refuse "unknown_method" "unknown method \"bridge.capabilities\""
step pane_list p = invoke list_panes as_panes
step events_subscribe p = invoke (on_subscribe (field "kinds" p)) as_subscription
step pane_read p =
    if not (is_truthy (field "pane_id" p))
    then invalid "missing pane_id"
    else invoke (herdr pane_read p) as_data
step subscribe_output p =
    if not (is_truthy (field "pane_id" p))
    then invalid "missing pane_id"
    else invoke (herdr subscribe_output p) as_subscription
step unsubscribe_output p =
    if is_truthy (field "subscription_id" p)
    then invoke (herdr unsubscribe_output p) as_empty
    else answer
step send_keys p =
    if not (is_truthy (field "pane_id" p)) || not (is_truthy (field "keys" p))
    then invalid "missing pane_id or keys"
    else invoke (herdr send_keys p) as_empty
step send_text p =
    if not (is_truthy (field "pane_id" p)) || not (is_defined (field "text" p))
    then invalid "missing pane_id or text"
    else invoke (herdr send_text p) as_empty
step pane_resize p = refuse "not_supported" "herdr has no public PTY-resize API in this version"
step graphics_info p =
    refuse "not_supported" "pane graphics streaming is not implemented in this bridge"
step graphics_stream p =
    refuse "not_supported" "pane graphics streaming is not implemented in this bridge"
step pane_split p =
    if not (is_truthy (field "direction" p))
    then invalid "missing direction"
    else invoke (herdr pane_split p) as_data
step pane_close p =
    if not (is_truthy (field "pane_id" p))
    then invalid "missing pane_id"
    else invoke (herdr pane_close p) as_empty
step pane_move p =
    if not (is_truthy (field "pane_id" p)) || not (is_truthy (field "destination" p))
    then invalid "missing pane_id or destination"
    else invoke (herdr pane_move p) as_data
step pane_rename p =
    if not (is_truthy (field "pane_id" p))
    then invalid "missing pane_id"
    else invoke (herdr pane_rename p) as_data
step tab_create p = invoke (herdr tab_create (or_no_params p)) as_data
step tab_rename p =
    if not (is_truthy (field "tab_id" p)) || not (is_defined (field "label" p))
    then invalid "missing tab_id or label"
    else invoke (herdr tab_rename p) as_data
step tab_close p =
    if not (is_truthy (field "tab_id" p))
    then invalid "missing tab_id"
    else invoke (herdr tab_close p) as_empty
step tab_move p =
    if not (is_truthy (field "tab_id" p)) || not (is_defined (field "insert_index" p))
    then invalid "missing tab_id or insert_index"
    else invoke (herdr tab_move p) as_data
step workspace_create p = invoke (herdr workspace_create (or_no_params p)) as_data
step workspace_rename p =
    if not (is_truthy (field "workspace_id" p)) || not (is_defined (field "label" p))
    then invalid "missing workspace_id or label"
    else invoke (herdr workspace_rename p) as_data
step workspace_close p =
    if not (is_truthy (field "workspace_id" p))
    then invalid "missing workspace_id"
    else invoke (herdr workspace_close p) as_empty
step repo_status p =
    if not (is_string (field "pane_id" p)) || not (is_truthy (field "pane_id" p))
    then invalid "missing pane_id"
    else invoke (herdr repo_status (pane_only (field "pane_id" p))) as_data
step repo_tree p =
    if not (is_string (field "pane_id" p)) || not (is_truthy (field "pane_id" p))
    then invalid "missing pane_id"
    else if is_defined (field "path" p) && not (is_string (field "path" p))
    then invalid "path must be a string"
    else invoke (herdr repo_tree (with_path (field "pane_id" p) (field "path" p))) as_data
step file_read p =
    if not (is_string (field "pane_id" p)) || not (is_truthy (field "pane_id" p))
    then invalid "missing pane_id"
    else if not (is_string (field "path" p))
    then invalid "missing path"
    else invoke (herdr file_read (with_path (field "pane_id" p) (field "path" p))) as_data
step repo_diff p =
    if not (is_string (field "pane_id" p)) || not (is_truthy (field "pane_id" p))
    then invalid "missing pane_id"
    else if not (is_string (field "path" p))
    then invalid "missing path"
    else invoke (herdr repo_diff (with_path (field "pane_id" p) (field "path" p))) as_data
step (unknown_method name) p =
    refuse "unknown_method" (concat ("unknown method \"" ∷ name ∷ "\"" ∷ []))

abbrev pub shaped : Shape → Value → Data
shaped as_panes v = panes_data v
shaped as_subscription v = subscription v
shaped as_empty v = empty
shaped as_data v = result v

-- The `catch` clause.
abbrev pub caught : Failure → Body
caught (repo_file_error code message) = refused code message
caught (host_unavailable_error code message) = refused code message
caught (herdr_request_error code message) = refused code message
caught (other_error message) = refused "internal_error" message

abbrev pub settled : Shape → Reply → Body
settled shape (returned v) = succeeded (shaped shape v)
settled shape (thrown f) = caught f

-- The configured hosts with what their calls return, and the key bindings of the first one.
pub record Hosts : Type 0 where
  pub configured : List String
  pub run : String → Call → Reply
  pub keybinds : String → Value

-- The calls that are made, and the response.
pub record Outcome : Type 0 where
  pub calls : List Call
  pub response : Response

abbrev pub reply_to : Request → List Call → Body → Outcome
reply_to r calls body = record {
  calls = calls;
  response = record { id = r.id; host = r.host; body = body };
}

abbrev pub perform : Hosts → Request → Step → Outcome
perform hosts r (refuse code message) = reply_to r [] (refused code message)
perform hosts r answer = reply_to r [] (succeeded empty)
perform hosts r (invoke call shape) = reply_to r (call ∷ []) (settled shape (hosts.run r.host call))

abbrev pub primary_keybinds : Hosts → List String → Option Value
primary_keybinds hosts [] = none
primary_keybinds hosts (first ∷ rest) = some (hosts.keybinds first)

unfoldable pub dispatch_known : Hosts → Request → Outcome
unfolding step method_of
dispatch_known hosts r =
    if includes r.host hosts.configured
    then perform hosts r (step (method_of r.method) r.params)
    else reply_to r [] (refused "unknown_host" (concat ("unknown host \"" ∷ r.host ∷ "\"" ∷ [])))

unfoldable pub dispatch : Hosts → Request → Outcome
unfolding dispatch_known
dispatch hosts r =
    if str_eq r.method "bridge.capabilities"
    then reply_to r [] (succeeded (capabilities_data (primary_keybinds hosts hosts.configured)))
    else dispatch_known hosts r
