-- ===== src/Client/State.antt =====
-- src/sdk/client.ts: the options and the state of a client, and what it does to its surroundings. A
-- promise that a caller waits on is a number. The endpoints are numbered as they are made.
use axtp_ts_runtime.Common.{
  ℕ, List, [], ◌++◌, Option, none, some, Bool, true, false, Result, returns, throws,
}
use axtp_ts_runtime.Model.ErrorCode
use axtp_ts_runtime.Model.Rpc.{Text}
use axtp_ts_runtime.JsonRpc.{Value}

pub data Overflow : Type 0 where
  drop_oldest drop_newest rejects_new : Overflow

pub data CallOfflinePolicy : Type 0 where
  fail_fast wait_ready queue : CallOfflinePolicy

pub data QueuedCallCoalescePrevious : Type 0 where
  resolve_with_next reject_previous drop_previous : QueuedCallCoalescePrevious

pub record CallOptions : Type 0 where
  pub timeout_ms : Option ℕ
  pub offline_policy : Option CallOfflinePolicy
  pub coalesce_key : Option Text
  pub coalesce_previous : Option QueuedCallCoalescePrevious

-- `reconnects` is whether the reconnect policy is enabled, `has_handshake_timeout` whether
-- handshakeTimeoutMs is given and finite, `queues_events` whether events.offline is "queue". A limit
-- or overflow that is not given has its default, 1000 and "reject".
pub record ClientOptions : Type 0 where
  pub reconnects : Bool
  pub has_handshake_timeout : Bool
  pub queues_events : Bool
  pub event_max_size : ℕ
  pub event_overflow : Overflow
  pub call_max_size : ℕ
  pub call_overflow : Overflow
  pub call_default : CallOptions
  pub call_methods : List (Text × CallOptions)

pub data ClientState : Type 0 where
  idle connecting ready reconnecting closed : ClientState

pub record QueuedEvent : Type 0 where
  pub event_name : Text
  pub payload : Value
  pub promise : ℕ

pub record QueuedCall : Type 0 where
  pub method : Text
  pub params : Value
  pub call_timeout : Option ℕ
  pub key : Option Text
  pub waiters : List ℕ

-- A call of callRaw that waits for a usable endpoint.
pub record WaitingCall : Type 0 where
  pub wait_method : Text
  pub wait_params : Value
  pub wait_timeout : Option ℕ
  pub wait_promise : ℕ

-- `in_flight` is the call that flushCallQueue awaits; flushingCallQueue is set while there is one.
-- `connect_resumes` holds from resolveReady to the moment that connect goes on after its `await`.
pub record Client : Type 0 where
  pub state : ClientState
  pub first_ready : Bool
  pub has_coordinator : Bool
  pub endpoint : Option ℕ
  pub endpoint_count : ℕ
  pub subscribed_events : List Text
  pub event_outbox : List QueuedEvent
  pub call_queue : List QueuedCall
  pub in_flight : Option QueuedCall
  pub waiting_calls : List WaitingCall
  pub handshake_timer : Option ℕ
  pub ready_wait : Bool
  pub connect_resumes : Bool

abbrev pub new_client : Client
new_client = record {
  state = idle;
  first_ready = true;
  has_coordinator = false;
  endpoint = none;
  endpoint_count = 0;
  subscribed_events = [];
  event_outbox = [];
  call_queue = [];
  in_flight = none;
  waiting_calls = [];
  handshake_timer = none;
  ready_wait = false;
  connect_resumes = false;
}

-- What a client emits on its event streams, calls on the transport, the endpoint and the coordinator,
-- and how it settles promises.
pub data ClientOutput : Type 0 where
  state_changes : ClientState → ClientOutput
  connects : ClientOutput
  disconnects : Bool → ClientOutput
  reconnects_after : ℕ → ClientOutput
  reconnect_fails : ClientOutput
  reports : ℕ → ClientOutput
  opens_transport : ClientOutput
  closes_transport : ClientOutput
  -- the endpoint, with its event masks
  starts_endpoint : ℕ → Option Text → ClientOutput
  -- the endpoint, and whether it is terminated
  closes_endpoint : ℕ → Bool → ClientOutput
  starts_coordinator : ClientOutput
  stops_coordinator : ClientOutput
  coordinator_succeeds : ClientOutput
  connect_returns : ClientOutput
  connect_throws : ℕ → ClientOutput
  -- the endpoint, with an event, or with a method, parameters and timeout
  sends_event : ℕ → Text → Value → ClientOutput
  sends_call : ℕ → Text → Value → Option ℕ → ClientOutput
  resolved : ℕ → Value → ClientOutput
  rejected : ℕ → ℕ → ClientOutput
  -- emitRaw throws in place of returning a promise: the code of an AxtpError, if it is one
  raised : ℕ → Option ℕ → ClientOutput
  -- the promise becomes that of a call of the endpoint
  handed : ℕ → ℕ → Text → Value → Option ℕ → ClientOutput

abbrev pub Step : Type 0
Step = Client × List ClientOutput

-- One call after the other.
infixl 4 ◌and_then◌
unfoldable pub ◌and_then◌ : Step → (Client → Step) → Step
s and_then f = let t = f s.0 in (t.0, s.1 ++ t.1)

abbrev pub same_state : ClientState → ClientState → Bool
same_state idle idle = true
same_state connecting connecting = true
same_state ready ready = true
same_state reconnecting reconnecting = true
same_state closed closed = true
same_state a b = false

abbrev pub is_closed : ClientState → Bool
is_closed state = same_state state closed

-- requireUsable
unfoldable pub require_usable_in : ClientState → Option ℕ → Result ℕ ℕ
require_usable_in closed endpoint = throws ErrorCode.transport_disconnected
require_usable_in reconnecting endpoint = throws ErrorCode.transport_disconnected
require_usable_in ready (some ep) = returns ep
require_usable_in ready none = throws ErrorCode.invalid_state
require_usable_in connecting endpoint = throws ErrorCode.invalid_state
require_usable_in idle endpoint = throws ErrorCode.invalid_state

unfoldable pub require_usable : Client → Result ℕ ℕ
unfolding require_usable_in
require_usable c = require_usable_in c.state c.endpoint
