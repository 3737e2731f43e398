-- ===== src/Broker.antt =====
-- src/broker/router.ts, src/broker/context.ts and src/broker/broker.ts: the handlers of methods and
-- events, and what becomes of a request or an event. A handler is a number; a handler that runs is a
-- task, and the settling of its promise is an input.
pub mod Answers
pub mod Listeners
pub mod Specified
pub mod Refines
use axtp_ts_runtime.Common.{
  ℕ, zero, suc, ◌+◌, List, [], ◌∷◌, ◌++◌, Option, none, some, Bool, true, false, not, ◌==◌, ◌&&◌,
  ◌||◌, if◌then◌else◌, get_elem?,
}
use axtp_ts_runtime.Model.ErrorCode
use axtp_ts_runtime.Model.Rpc.{Text, same_text, RpcMessage, response}
use axtp_ts_runtime.Model.Json.{JsonValue, text, object, no_fields, field, units}
use axtp_ts_runtime.JsonRpc.{Value}

-- A `Map` with texts as keys.
module _ {V : Type 0} where
  abbrev pub text_lookup : Text → List (Text × V) → Option V
  text_lookup key [] = none
  text_lookup key ((name, value) ∷ rest) =
      let later = text_lookup key rest in if same_text name key then some value else later

  abbrev pub text_insert : Text → V → List (Text × V) → List (Text × V)
  text_insert key new [] = (key, new) ∷ []
  text_insert key new ((name, value) ∷ rest) =
      let later = text_insert key new rest in
      if same_text name key then (name, new) ∷ rest else (name, value) ∷ later

  abbrev pub text_delete : Text → List (Text × V) → List (Text × V)
  text_delete key [] = []
  text_delete key ((name, value) ∷ rest) =
      let kept = text_delete key rest in if same_text name key then kept else (name, value) ∷ kept

-- A `Set` of handlers.
abbrev pub set_has : ℕ → List ℕ → Bool
set_has h [] = false
set_has h (x ∷ xs) = (x == h) || set_has h xs

abbrev pub set_add : List ℕ → ℕ → List ℕ
set_add xs h = if set_has h xs then xs else xs ++ (h ∷ [])

abbrev pub set_remove : ℕ → List ℕ → List ℕ
set_remove h [] = []
set_remove h (x ∷ xs) = let kept = set_remove h xs in if x == h then kept else x ∷ kept

abbrev pub or_empty : Option (List ℕ) → List ℕ
or_empty none = []
or_empty (some xs) = xs

-- HandlerRouter, with the global source as an argument.
pub record HandlerRouter : Type 0 where
  pub method_handlers : List (Text × ℕ)
  pub event_handlers : List (Text × List ℕ)

pub record GlobalHandlerSource : Type 0 where
  pub get_method : Text → Option ℕ
  pub get_event_listeners : Text → Option (List ℕ)

abbrev pub no_source : GlobalHandlerSource
no_source = record { get_method = λ name. none; get_event_listeners = λ name. none }

unfoldable pub set_method : Text → ℕ → HandlerRouter → HandlerRouter
set_method name handler r = record r {
  method_handlers = text_insert name handler r.method_handlers;
}

abbrev pub is_handler : ℕ → Option ℕ → Bool
is_handler handler none = false
is_handler handler (some held) = held == handler

-- The function that `setMethod` returns.
unfoldable pub unset_method : Text → ℕ → HandlerRouter → HandlerRouter
unset_method name handler r =
    if is_handler handler (text_lookup name r.method_handlers)
    then record r { method_handlers = text_delete name r.method_handlers }
    else r

-- `local ?? global`
abbrev pub or_global : Option ℕ → Option ℕ → Option ℕ
or_global none global = global
or_global (some handler) global = some handler

unfoldable pub get_method : GlobalHandlerSource → Text → HandlerRouter → Option ℕ
get_method source name r = or_global (text_lookup name r.method_handlers) (source.get_method name)

unfoldable pub add_event_listener : Text → ℕ → HandlerRouter → HandlerRouter
add_event_listener name handler r = record r {
  event_handlers =
      text_insert name (set_add (or_empty (text_lookup name r.event_handlers)) handler)
        r.event_handlers;
}

-- The function that `addEventListener` returns; the set stays, be it empty.
unfoldable pub remove_event_listener : Text → ℕ → HandlerRouter → HandlerRouter
remove_event_listener name handler r = elim (text_lookup name r.event_handlers) [
  | none ↦ r
  | some set ↦ record r {
    event_handlers = text_insert name (set_remove handler set) r.event_handlers;
  }
]

abbrev pub add_all : List ℕ → List ℕ → List ℕ
add_all merged [] = merged
add_all merged (h ∷ hs) = add_all (set_add merged h) hs

abbrev pub merge_handlers : Option (List ℕ) → Option (List ℕ) → List ℕ
merge_handlers none none = []
merge_handlers (some local) none = local
merge_handlers none (some global) = global
merge_handlers (some local) (some global) = add_all (add_all [] local) global

unfoldable pub get_event_handlers : GlobalHandlerSource → Text → HandlerRouter → List ℕ
get_event_handlers source name r =
    merge_handlers (text_lookup name r.event_handlers) (source.get_event_listeners name)

-- A request whose handler runs.
pub record Task : Type 0 where
  pub sid : Text
  pub request_id : ℕ

pub record BasicBroker : Type 0 where
  pub router : HandlerRouter
  pub unavailable_methods : List Text
  pub tasks : List Task

abbrev pub new_broker : BasicBroker
new_broker = record {
  router = record { method_handlers = []; event_handlers = [] };
  unavailable_methods = [];
  tasks = [];
}

pub data BrokerOutput : Type 0 where
  on_result : RpcMessage Value → BrokerOutput
  on_error : ℕ → BrokerOutput
  -- the handler, with the parameters or the data of an event
  runs : ℕ → Value → BrokerOutput
  notifies : ℕ → Value → BrokerOutput

-- A promise resolves with a value, or rejects: the code of an AxtpError, if it is one, and the text.
pub data TaskOutcome : Type 0 where
  resolves : Value → TaskOutcome
  rejects : Option ℕ → Text → TaskOutcome

abbrev pub text_member : Text → List Text → Bool
text_member name [] = false
text_member name (x ∷ xs) = same_text x name || text_member name xs

abbrev pub add_text : Text → List Text → List Text
add_text name xs = if text_member name xs then xs else xs ++ (name ∷ [])

abbrev pub remove_text : Text → List Text → List Text
remove_text name [] = []
remove_text name (x ∷ xs) =
    let kept = remove_text name xs in if same_text x name then kept else x ∷ kept

unfoldable pub set_method_unavailable : Text → BasicBroker → BasicBroker
set_method_unavailable name b = record b {
  unavailable_methods = add_text name b.unavailable_methods;
}

-- The function that `setMethodUnavailable` returns.
unfoldable pub set_method_available : Text → BasicBroker → BasicBroker
set_method_available name b = record b {
  unavailable_methods = remove_text name b.unavailable_methods;
}

-- `eventName.includes(".")`
abbrev pub is_qualified : Text → Bool
is_qualified [] = false
is_qualified (c ∷ cs) = (c == b'.') || is_qualified cs

abbrev pub code_of : Option ℕ → ℕ
code_of none = ErrorCode.rpc_execution_failed
code_of (some code) = code

abbrev pub message_object : Text → Value
message_object message = some (object (field (units "message") (text message) no_fields))

abbrev pub remove_at : List Task → ℕ → List Task
remove_at [] i = []
remove_at (t ∷ ts) zero = ts
remove_at (t ∷ ts) (suc i) = t ∷ remove_at ts i

-- `known_method` and `known_event` are whether a name is one of METHOD_REGISTRY or EVENT_REGISTRY.
module _ (source : GlobalHandlerSource) (known_method known_event : Text → Bool) where
  unfoldable pub dispatch_request :
      Text → ℕ → Text → Value → BasicBroker → BasicBroker × List BrokerOutput
  unfolding get_method
  dispatch_request sid request_id method params b = elim (get_method source method b.router) [
    | some handler ↦ (
      record b { tasks = record { sid = sid; request_id = request_id } ∷ b.tasks },
      runs handler params ∷ [],
    )
    | none ↦
        let code =
          if known_method method || text_member method b.unavailable_methods
          then ErrorCode.not_supported
          else ErrorCode.rpc_method_not_found in
        (b, on_result (response sid request_id code none) ∷ [])
  ]

  unfoldable pub answer_task : Task → TaskOutcome → List BrokerOutput
  answer_task t (resolves result) =
      on_result (response t.sid t.request_id ErrorCode.success result) ∷ []
  answer_task t (rejects code message) =
      on_error (code_of code)
      ∷ on_result (response t.sid t.request_id (code_of code) (message_object message))
      ∷ []

  -- The promise of the task at this place of the list settles.
  unfoldable pub settle_task : ℕ → TaskOutcome → BasicBroker → BasicBroker × List BrokerOutput
  unfolding answer_task
  settle_task i outcome b = elim (get_elem? b.tasks i) [
    | none ↦ (b, [])
    | some t ↦ (record b { tasks = remove_at b.tasks i }, answer_task t outcome)
  ]

  -- `throwing` says which handlers throw on this event.
  unfoldable pub notify_all : (ℕ → Bool) → Value → List ℕ → List BrokerOutput
  notify_all throwing value [] = []
  notify_all throwing value (h ∷ hs) =
      let rest = notify_all throwing value hs in
      if throwing h
      then notifies h value ∷ on_error ErrorCode.rpc_execution_failed ∷ rest
      else notifies h value ∷ rest

  unfoldable pub dispatch_event : (ℕ → Bool) → Text → Value → BasicBroker → List BrokerOutput
  unfolding get_event_handlers notify_all
  dispatch_event throwing name value b =
      if is_qualified name && not (known_event name)
      then []
      else notify_all throwing value (get_event_handlers source name b.router)
