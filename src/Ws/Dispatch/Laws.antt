-- ===== src/Ws/Dispatch/Laws.antt =====
-- The requests that `dispatch` of apps/bridge/src/ws/dispatch.ts refuses, and those that reach a host.
use kanhrd.Base.{
  String, ◌≡◌, refl, sym, ap, ◌∙◌, subst, Bool, true, false, not, ◌&&◌, ◌||◌, Option, none, some,
  List, [], ◌∷◌, if◌then◌else◌, str_eq, includes, length, All, arith, eq_iff, Bool-cases, ◌⊎◌, inl,
  inr, ◌≤◌, lookup,
}
use kanhrd.Ws.Dispatch.{
  field, is_truthy, is_defined, is_string, step, settled, Hosts, Outcome, reply_to, perform,
  dispatch_known, dispatch,
}
use kanhrd.Ws.Message.{
  Value, Params, Method, method_of, Shape, Step, refuse, answer, invoke, Failure, Reply, returned,
  thrown, Body, succeeded, refused, Request,
}

-- What a method asks of one field: a truthy value, any value, a string, a string that is not empty,
-- a string if there is one.
pub data Need : Type 0 where
  needs_truthy needs_defined needs_string needs_nonempty needs_optional_string : String → Need

abbrev pub met : Params → Need → Bool
met p (needs_truthy name) = is_truthy (field name p)
met p (needs_defined name) = is_defined (field name p)
met p (needs_string name) = is_string (field name p)
met p (needs_nonempty name) = is_string (field name p) && is_truthy (field name p)
met p (needs_optional_string name) = not (is_defined (field name p)) || is_string (field name p)

abbrev pub all_met : Params → List Need → Bool
all_met p [] = true
all_met p (n ∷ ns) = met p n && all_met p ns

-- The table of the methods that are served by one call; none for the others.
abbrev pub needs : Method → Option (List Need)
needs Method.pane_list = some []
needs Method.events_subscribe = some []
needs Method.pane_read = some (needs_truthy "pane_id" ∷ [])
needs Method.subscribe_output = some (needs_truthy "pane_id" ∷ [])
needs Method.send_keys = some (needs_truthy "pane_id" ∷ needs_truthy "keys" ∷ [])
needs Method.send_text = some (needs_truthy "pane_id" ∷ needs_defined "text" ∷ [])
needs Method.pane_split = some (needs_truthy "direction" ∷ [])
needs Method.pane_close = some (needs_truthy "pane_id" ∷ [])
needs Method.pane_move = some (needs_truthy "pane_id" ∷ needs_truthy "destination" ∷ [])
needs Method.pane_rename = some (needs_truthy "pane_id" ∷ [])
needs Method.tab_create = some []
needs Method.tab_rename = some (needs_truthy "tab_id" ∷ needs_defined "label" ∷ [])
needs Method.tab_close = some (needs_truthy "tab_id" ∷ [])
needs Method.tab_move = some (needs_truthy "tab_id" ∷ needs_defined "insert_index" ∷ [])
needs Method.workspace_create = some []
needs Method.workspace_rename = some (needs_truthy "workspace_id" ∷ needs_defined "label" ∷ [])
needs Method.workspace_close = some (needs_truthy "workspace_id" ∷ [])
needs Method.repo_status = some (needs_nonempty "pane_id" ∷ [])
needs Method.repo_tree = some (needs_nonempty "pane_id" ∷ needs_optional_string "path" ∷ [])
needs Method.file_read = some (needs_nonempty "pane_id" ∷ needs_string "path" ∷ [])
needs Method.repo_diff = some (needs_nonempty "pane_id" ∷ needs_string "path" ∷ [])
needs _ = none

abbrev pub is_call : Step → Bool
is_call (invoke c shape) = true
is_call _ = false

abbrev pub is_invalid : Step → Bool
is_invalid (refuse code message) = str_eq code "invalid_params"
is_invalid _ = false

-- Calls if the needs are met, and refuses as invalid if not.
record Routes (met_all : Bool) (s : Step) : Type 0 where
  calls : is_call s ≡ met_all
  refuses : is_invalid s ≡ not met_all

routes :
    (met_all : Bool) (s : Step)
    → is_call s ≡ met_all
    → is_invalid s ≡ not met_all
    → Routes met_all s
routes b s c r = record { calls = c; refuses = r }

-- `Routes` for the needs of a method that has any.
RoutesBy : Option (List Need) → Params → Step → Type 0
RoutesBy none p s = Unit
RoutesBy (some ns) p s = Routes (all_met p ns) s

step-RoutesBy : (m : Method) (p : Params) → RoutesBy (needs m) p (step m p)
unfolding step RoutesBy
step-RoutesBy Method.capabilities p = tt
step-RoutesBy Method.pane_list p = routes _ _ (ground arith) (ground arith)
step-RoutesBy Method.events_subscribe p = routes _ _ (ground arith) (ground arith)
step-RoutesBy Method.pane_read p = routes _ _ (ground arith) (ground arith)
step-RoutesBy Method.subscribe_output p = routes _ _ (ground arith) (ground arith)
step-RoutesBy Method.unsubscribe_output p = tt
step-RoutesBy Method.send_keys p = routes _ _ (ground arith) (ground arith)
step-RoutesBy Method.send_text p = routes _ _ (ground arith) (ground arith)
step-RoutesBy Method.pane_resize p = tt
step-RoutesBy Method.graphics_info p = tt
step-RoutesBy Method.graphics_stream p = tt
step-RoutesBy Method.pane_split p = routes _ _ (ground arith) (ground arith)
step-RoutesBy Method.pane_close p = routes _ _ (ground arith) (ground arith)
step-RoutesBy Method.pane_move p = routes _ _ (ground arith) (ground arith)
step-RoutesBy Method.pane_rename p = routes _ _ (ground arith) (ground arith)
step-RoutesBy Method.tab_create p = routes _ _ (ground arith) (ground arith)
step-RoutesBy Method.tab_rename p = routes _ _ (ground arith) (ground arith)
step-RoutesBy Method.tab_close p = routes _ _ (ground arith) (ground arith)
step-RoutesBy Method.tab_move p = routes _ _ (ground arith) (ground arith)
step-RoutesBy Method.workspace_create p = routes _ _ (ground arith) (ground arith)
step-RoutesBy Method.workspace_rename p = routes _ _ (ground arith) (ground arith)
step-RoutesBy Method.workspace_close p = routes _ _ (ground arith) (ground arith)
step-RoutesBy Method.repo_status p = routes _ _ (ground arith) (ground arith)
step-RoutesBy Method.repo_tree p = routes _ _ (ground arith) (ground arith)
step-RoutesBy Method.file_read p = routes _ _ (ground arith) (ground arith)
step-RoutesBy Method.repo_diff p = routes _ _ (ground arith) (ground arith)
step-RoutesBy (Method.unknown_method name) p = tt

abbrev pub is_invalid_body : Body → Bool
is_invalid_body (refused code message) = str_eq code "invalid_params"
is_invalid_body (succeeded d) = false

-- What is asked of a request whose method has needs `ns`: it is refused as invalid with no call made
-- if they are not met; if they are, one call is made.
pub record Guarded (met_all : Bool) (o : Outcome) : Type 0 where
  pub calls : length o.calls ≡ (if met_all then 1 else 0)
  pub refuses : (met_all || is_invalid_body o.response.body) ≡ true

perform-Guarded :
    (hosts : Hosts) (r : Request) (b : Bool) (s : Step) → Routes b s → Guarded b (perform hosts r s)
perform-Guarded hosts r b (refuse code message) h = record {
  calls = rw (sym h.calls) refl;
  refuses = ground (arith, h.refuses);
}
perform-Guarded hosts r b answer h = record {
  calls = rw (sym h.calls) refl;
  refuses = ground (arith, h.refuses);
}
perform-Guarded hosts r b (invoke call shape) h = record {
  calls = rw (sym h.calls) refl;
  refuses = ground (arith, h.calls);
}

served-Routes :
    (m : Method) (p : Params) (ns : List Need)
    → needs m ≡ some ns
    → Routes (all_met p ns) (step m p)
unfolding RoutesBy
served-Routes m p ns h = subst (λ o. RoutesBy o p (step m p)) h (step-RoutesBy m p)

not_capabilities :
    (name : String) (ns : List Need)
    → needs (method_of name) ≡ some ns
    → str_eq name "bridge.capabilities" ≡ false
unfolding method_of lookup
not_capabilities name ns h = elim (Bool-cases (str_eq name "bridge.capabilities")) [
  | inl e ↦ absurd (no_needs (ap (λ n. needs (method_of n)) (sym ((eq_iff name _).0 e)) ∙ h))
  | inr e ↦ e
]
  where
    no_needs : none ≡ some ns → ⊥
    no_needs e = ground arith

-- A request for a configured host, whose method is in the table of needs, makes one call to the host
-- if its parameters meet the needs of the method; if not, it is refused with `invalid_params` and
-- makes no call.
pub dispatch-Guarded :
    (hosts : Hosts) (r : Request) (ns : List Need)
    → includes r.host hosts.configured ≡ true
    → needs (method_of r.method) ≡ some ns
    → Guarded (all_met r.params ns) (dispatch hosts r)
unfolding dispatch dispatch_known
dispatch-Guarded hosts r ns known h =
    rw (not_capabilities r.method ns h, known)
      (perform-Guarded hosts r (all_met r.params ns) (step (method_of r.method) r.params)
        (served-Routes (method_of r.method) r.params ns h))

abbrev pub is_success : Body → Bool
is_success (succeeded d) = true
is_success (refused code message) = false

-- The response names the request and its host, and is a success only if each call that was made
-- returned.
pub record Answers (hosts : Hosts) (r : Request) (o : Outcome) : Type 0 where
  pub id : o.response.id ≡ r.id
  pub host : o.response.host ≡ r.host
  pub succeeds :
      (is_success o.response.body ≡ false)
      ⊎ All (λ call. (v : Value) × (hosts.run r.host call ≡ returned v)) o.calls
  pub at_most_one : length o.calls ≤ 1

settled-succeeds :
    (shape : Shape) (reply : Reply)
    → (is_success (settled shape reply) ≡ false) ⊎ ((v : Value) × (reply ≡ returned v))
settled-succeeds shape (returned v) = inr (v, refl)
settled-succeeds shape (thrown (Failure.repo_file_error code message)) = inl refl
settled-succeeds shape (thrown (Failure.host_unavailable_error code message)) = inl refl
settled-succeeds shape (thrown (Failure.herdr_request_error code message)) = inl refl
settled-succeeds shape (thrown (Failure.other_error message)) = inl refl

no_calls-Answers : (hosts : Hosts) (r : Request) (b : Body) → Answers hosts r (reply_to r [] b)
no_calls-Answers hosts r b = record {
  id = refl;
  host = refl;
  succeeds = inr tt;
  at_most_one = omega arith;
}

perform-Answers : (hosts : Hosts) (r : Request) (s : Step) → Answers hosts r (perform hosts r s)
perform-Answers hosts r (refuse code message) = no_calls-Answers hosts r _
perform-Answers hosts r answer = no_calls-Answers hosts r _
perform-Answers hosts r (invoke call shape) = record {
  id = refl;
  host = refl;
  succeeds = elim (settled-succeeds shape (hosts.run r.host call)) [
    | inl e ↦ inl e
    | inr v ↦ inr (v, tt)
  ];
  at_most_one = omega arith;
}

dispatch_known-Answers : (hosts : Hosts) (r : Request) → Answers hosts r (dispatch_known hosts r)
unfolding dispatch_known
dispatch_known-Answers hosts r = elim (Bool-cases (includes r.host hosts.configured)) [
  | inl e ↦ rw e (perform-Answers hosts r (step (method_of r.method) r.params))
  | inr e ↦ rw e (no_calls-Answers hosts r _)
]

-- For every request, the response carries its id and its host, at most one call is made, and the
-- response is a success only if that call returned: an exception never becomes a success.
pub dispatch-Answers : (hosts : Hosts) (r : Request) → Answers hosts r (dispatch hosts r)
unfolding dispatch
dispatch-Answers hosts r = elim (Bool-cases (str_eq r.method "bridge.capabilities")) [
  | inl e ↦ rw e (no_calls-Answers hosts r _)
  | inr e ↦ rw e (dispatch_known-Answers hosts r)
]
