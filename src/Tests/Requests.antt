-- ===== src/Tests/Requests.antt =====
-- A request with an empty pane id, and a header of a configured origin.
use kanhrd.Base.{
  ℕ, ◌+◌, arith, List, String, decimal, ◌≡◌, refl, true, false, Option, none, some, [], ◌∷◌, lookup,
  str_eq, if◌then◌else◌,
}
use kanhrd.Ws.Dispatch.{Hosts, dispatch}
use kanhrd.Ws.Message.{text, method_of, thrown, Failure, Request}
use kanhrd.Ws.Server
use kanhrd.Ws.Server.{is_sent}
use kanhrd.Ws.Server.Fanout.{subscribed_by, subscribed_by-is_sent}
use kanhrd.State.Toast.{no_toasts}
use kanhrd.State.Client.{Client, success}
use kanhrd.State.Client.Settling.{
  Action, requests, message, closed, opened, run, promises, requested, run-promises,
}
use kanhrd.Ws.Dispatch.Laws.{
  needs_truthy, needs, all_met, Guarded, Answers, dispatch-Guarded, dispatch-Answers,
}
use kanhrd.Access.Origin.{
  Url, Platform, OriginTriple, parse_origin, origin_key, Settings, OriginPolicy, keys_of,
  derive_origins, load_origins, check_origin,
}
use kanhrd.Access.Policy.{listed_origins, IsListed, check_origin_sound, check_origin_complete}

-- One host, of which every call fails.
abbrev hosts : Hosts
hosts = record {
  configured = "local" ∷ [];
  run = λ host call. thrown (Failure.herdr_request_error "workspace_group_close_required" "closed");
  keybinds = λ host. text "ctrl-b";
}

abbrev request : Request
request = record {
  id = "7";
  host = "local";
  method = "pane.close";
  params = some (("pane_id", text "") ∷ []);
}

close_needs : needs (method_of "pane.close") ≡ some (needs_truthy "pane_id" ∷ [])
unfolding method_of lookup
close_needs = refl

dispatch-Guarded_example :
    Guarded (all_met request.params (needs_truthy "pane_id" ∷ [])) (dispatch hosts request)
dispatch-Guarded_example =
    dispatch-Guarded hosts request (needs_truthy "pane_id" ∷ []) refl close_needs

dispatch-Answers_example : Answers hosts request (dispatch hosts request)
dispatch-Answers_example = dispatch-Answers hosts request

abbrev url : String → String → Option ℕ → Url
url protocol hostname port = record {
  protocol = protocol;
  username = "";
  password = "";
  search = "";
  hash = "";
  pathname = "/";
  hostname = hostname;
  port = port;
}

-- A parser that knows the origins of this example.
abbrev platform : Platform
platform = record {
  parse_url = λ s.
      if str_eq s "http://127.0.0.1:80"
      then some (url "http:" "127.0.0.1" none)
      else if str_eq s "https://127.0.0.1:80"
      then some (url "https:" "127.0.0.1" (some 80))
      else if str_eq s "http://localhost:80"
      then some (url "http:" "localhost" none)
      else if str_eq s "https://localhost:80"
      then some (url "https:" "localhost" (some 80))
      else if str_eq s "http://[::1]:80"
      then some (url "http:" "[::1]" none)
      else if str_eq s "https://[::1]:80"
      then some (url "https:" "[::1]" (some 80))
      else if str_eq s "https://board.example"
      then some (url "https:" "board.example" none)
      else none;
  to_lower = λ s. s;
  has_colon = λ s. false;
}

abbrev settings : Settings
settings = record {
  bind = "127.0.0.1";
  port = 80;
  allowed_origins = "https://board.example" ∷ [];
  require_origin = true;
  allow_non_loopback = false;
  allow_any_origin = false;
}

abbrev policy : OriginPolicy
policy = record {
  derived =
      "http://127.0.0.1:80" ∷ "https://127.0.0.1:80" ∷ "http://localhost:80"
      ∷ "https://localhost:80" ∷ "http://[::1]:80" ∷ "https://[::1]:80" ∷ [];
  configured = "https://board.example" ∷ [];
  allowed =
      "http://127.0.0.1:80" ∷ "https://127.0.0.1:80" ∷ "http://localhost:80"
      ∷ "https://localhost:80" ∷ "http://[::1]:80" ∷ "https://[::1]:80"
      ∷ "https://board.example:443" ∷ [];
  require_origin = true;
  allow_any = false;
}

settings_load : load_origins platform settings ≡ some policy
unfolding load_origins keys_of derive_origins parse_origin origin_key decimal
settings_load = refl

header_parses : check_origin platform policy (some "https://board.example") true ≡ true
unfolding check_origin parse_origin origin_key decimal
header_parses = refl

check_origin_sound_example :
    (t : OriginTriple) × (parse_origin platform "https://board.example" ≡ some t)
    × IsListed platform (listed_origins policy) t
check_origin_sound_example =
    check_origin_sound platform settings policy "https://board.example" true settings_load refl
      header_parses

check_origin_complete_example :
    check_origin platform policy (some "https://board.example") true ≡ true
check_origin_complete_example =
    check_origin_complete platform settings policy "https://board.example" true settings_load refl

abbrev client : Client ℕ
client = record {
  connected = true;
  connection_lost = false;
  reconnect_attempt = 0;
  pending = [];
  settled = [];
  events = [];
  delays = [];
  toasts = no_toasts;
}

abbrev dropped : List (Action ℕ)
dropped =
    requests "a" "pane.list"
    ∷ requests "b" "pane.close"
    ∷ message (success "a" 1)
    ∷ closed
    ∷ opened
    ∷ message (success "b" 2)
    ∷ []

run-promises_example :
    promises "b" (run dropped client) ≡ promises "b" client + requested "b" dropped
run-promises_example = run-promises "b" dropped client (omega arith)

subscribed_by-is_sent_example :
    is_sent true "local" "pane.closed" (
      subscribed_by
        (str_eq "local")
        (record { host = "local"; kinds = "pane.created" ∷ "pane.closed" ∷ [] } ∷ [])
        Server.opened)
    ≡ true
subscribed_by-is_sent_example =
    subscribed_by-is_sent (str_eq "local") "local" "pane.closed"
      (record { host = "local"; kinds = "pane.created" ∷ "pane.closed" ∷ [] } ∷ [])
