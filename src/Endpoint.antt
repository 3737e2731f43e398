-- ===== src/Endpoint.antt =====
-- src/endpoint/endpoint.ts: an endpoint joins a core, a broker, a heartbeat and the streams of one
-- transport. What it emits, and what it calls on the transport, the handlers and the outgoing stream,
-- is the list of its outputs, in order. The event streams emit nothing once they are closed.
pub mod Lifecycle
pub mod Steps
pub mod Safety
use axtp_ts_runtime.Common.{
  ℕ, ◌*◌, max, List, [], ◌∷◌, ◌++◌, map, Option, none, some, Bool, true, false, not, ◌==◌,
  if◌then◌else◌,
}
use axtp_ts_runtime.Model.ErrorCode
use axtp_ts_runtime.Model.Rpc.{
  Text, RpcMessage, hello, identify, identified, reidentify, event, request, response,
}
use axtp_ts_runtime.JsonRpc.{Value}
use axtp_ts_runtime.Profile.{
  TransportProfile, KeepaliveMode, control_heartbeat, native_keepalive, no_keepalive,
  keepalive_mode, supports_control, supports_stream,
}
use axtp_ts_runtime.Control.Session.{PhysicalRole, client, server}
use axtp_ts_runtime.Core.{
  Core, CoreEvent, CoreOutput, rpc_request, rpc_event, stream_data, link_ready, link_open_rejected,
  link_closing, handshake_ready, handshake_error, heartbeat_ack, error, sends, rpc, stream,
}
use axtp_ts_runtime.Core as Core
use axtp_ts_runtime.Core.Gate.{CoreInput, core_step}
use axtp_ts_runtime.Broker.{
  BasicBroker, new_broker, GlobalHandlerSource, BrokerOutput, on_result, on_error, runs, notifies,
  TaskOutcome, dispatch_request, dispatch_event, settle_task,
}
use axtp_ts_runtime.Heartbeat.{Heartbeat, HeartbeatOutput, on_tick, on_timeout, new_heartbeat}
use axtp_ts_runtime.Heartbeat as Heartbeat
use axtp_ts_runtime.StreamManager.{
  StreamManager, StreamOutput, sends_stream, new_stream_data, abort_streams,
}
use axtp_ts_runtime.StreamManager.Calls.{new_manager}

pub data EndpointLifecycle : Type 0 where
  idle connecting ready closed : EndpointLifecycle

-- `has_terminate` and `has_keepalive` are what the transport can do.
pub record Endpoint : Type 0 where
  pub core : Core
  pub broker : BasicBroker
  pub physical_role : PhysicalRole
  pub profile : TransportProfile
  pub lifecycle : EndpointLifecycle
  pub heartbeat : Option Heartbeat
  pub streams : StreamManager
  pub has_terminate : Bool
  pub has_keepalive : Bool

-- The options of the endpoint's core hold its role and the profile of its transport.
unfoldable pub new_endpoint : Core.CoreOptions → Bool → Bool → Endpoint
new_endpoint opts has_terminate has_keepalive = record {
  core = Core.new_core opts;
  broker = new_broker;
  physical_role = opts.physical_role;
  profile = opts.profile;
  lifecycle = idle;
  heartbeat = none;
  streams = new_manager;
  has_terminate = has_terminate;
  has_keepalive = has_keepalive;
}

pub data EndpointOutput : Type 0 where
  of_core : CoreOutput → EndpointOutput
  of_handler : BrokerOutput → EndpointOutput
  of_stream : StreamOutput → EndpointOutput
  emits_ready : EndpointOutput
  emits_close : Bool → EndpointOutput
  emits_error : ℕ → EndpointOutput
  emits_handshake_error : ℕ → EndpointOutput
  closes_transport terminates_transport sends_keepalive : EndpointOutput

abbrev pub is_closed : EndpointLifecycle → Bool
is_closed closed = true
is_closed _ = false

abbrev pub is_ready : EndpointLifecycle → Bool
is_ready ready = true
is_ready _ = false

abbrev pub is_idle : EndpointLifecycle → Bool
is_idle idle = true
is_idle _ = false

abbrev pub on_core : Endpoint → Core × List CoreOutput → Endpoint × List EndpointOutput
on_core e (core, outputs) = (record e { core = core }, map of_core outputs)

-- The sink of the broker.
abbrev pub broker_output : BrokerOutput → EndpointOutput
broker_output (on_result msg) = of_core (sends (rpc msg))
broker_output (on_error code) = emits_error code
broker_output (runs handler params) = of_handler (runs handler params)
broker_output (notifies handler value) = of_handler (notifies handler value)

-- What the manager of the streams does; what it sends goes to the core.
abbrev pub stream_output : StreamOutput → EndpointOutput
stream_output (sends_stream payload) = of_core (sends (stream payload))
stream_output output = of_stream output

abbrev pub on_streams :
    Endpoint → StreamManager × List StreamOutput → Endpoint × List EndpointOutput
on_streams e (streams, outputs) = (record e { streams = streams }, map stream_output outputs)

abbrev pub on_broker : Endpoint → BasicBroker × List BrokerOutput → Endpoint × List EndpointOutput
on_broker e (broker, outputs) = (record e { broker = broker }, map broker_output outputs)

unfoldable pub start : Endpoint → Endpoint × List EndpointOutput
start e =
    let connected = record e { lifecycle = connecting } in
    if not (is_idle e.lifecycle)
    then (e, [])
    else if supports_control e.profile
    then (elim e.physical_role [
      | client ↦ on_core connected (Core.send_control_open e.core)
      | server ↦ (connected, [])
    ])
    else on_core connected (Core.mark_link_ready e.core)

abbrev pub transport_end : Bool → Bool → EndpointOutput
transport_end terminate has_terminate =
    if terminate
    then (if has_terminate then terminates_transport else closes_transport)
    else closes_transport

-- An endpoint that is not closed yet closes.
unfoldable pub shut : Bool → Bool → Endpoint → Endpoint × List EndpointOutput
shut remote terminate e =
    let (core, rejected) = Core.reject_all_pending ErrorCode.transport_disconnected e.core in
    let (streams, calls) = abort_streams e.streams in
    (
      record e { lifecycle = closed; heartbeat = none; core = core; streams = streams },
      transport_end terminate e.has_terminate
          ∷ emits_close remote
          ∷ (map of_core rejected ++ map stream_output calls),
    )

unfoldable pub close : Bool → Bool → Endpoint → Endpoint × List EndpointOutput
unfolding shut
close remote terminate e = if is_closed e.lifecycle then (e, []) else shut remote terminate e

abbrev running_heartbeat : ℕ → ℕ → KeepaliveMode → Option Heartbeat → Option Heartbeat
running_heartbeat interval_ms now mode (some heartbeat) = some heartbeat
running_heartbeat interval_ms now no_keepalive none = none
running_heartbeat interval_ms now _ none =
    some (Heartbeat.start now (new_heartbeat interval_ms (max (interval_ms * 2) 10000)))

unfoldable pub start_heartbeat : ℕ → ℕ → Endpoint → Endpoint
start_heartbeat interval_ms now e = record e {
  heartbeat = running_heartbeat interval_ms now (keepalive_mode e.profile) e.heartbeat;
}

abbrev pub reset_heartbeat : ℕ → Option Heartbeat → Option Heartbeat
reset_heartbeat now none = none
reset_heartbeat now (some h) = some (Heartbeat.reset now h)

-- The code that a call on an endpoint that is not ready throws.
unfoldable pub require_ready : EndpointLifecycle → Option ℕ
require_ready closed = some ErrorCode.transport_disconnected
require_ready ready = none
require_ready _ = some ErrorCode.invalid_state

-- What an outgoing probe is.
abbrev pub probe : KeepaliveMode → Endpoint → Endpoint × List EndpointOutput
probe control_heartbeat e = on_core e (Core.send_heartbeat e.core)
probe _ e = (e, if e.has_keepalive then sends_keepalive ∷ [] else [])

module _ (random : ℕ → ℕ) (source : GlobalHandlerSource) (known_method known_event : Text → Bool)
    (throwing : ℕ → Bool) where
  unfoldable pub dispatch_message : RpcMessage Value → Endpoint → Endpoint × List EndpointOutput
  dispatch_message (request sid id method params) e =
      on_broker e (dispatch_request source known_method known_event sid id method params e.broker)
  dispatch_message (event sid name value) e =
      on_broker e
        (e.broker, dispatch_event source known_method known_event throwing name value e.broker)
  dispatch_message msg e = (e, [])

  -- onCoreEvent on an endpoint that is not closed.
  unfoldable pub take_event : CoreEvent → ℕ → Endpoint → Endpoint × List EndpointOutput
  unfolding close start_heartbeat dispatch_message
  take_event (link_ready interval_ms) now e = (start_heartbeat interval_ms now e, [])
  take_event (handshake_ready sid) now e =
      if is_ready e.lifecycle then (e, []) else (record e { lifecycle = ready }, emits_ready ∷ [])
  take_event (rpc_request msg) now e = dispatch_message msg e
  take_event (rpc_event msg) now e = dispatch_message msg e
  take_event (stream_data msg) now e = on_streams e (new_stream_data msg e.streams)
  take_event (link_open_rejected code) now e = close true false e
  take_event link_closing now e = close true false e
  take_event (handshake_error code) now e =
      let (e', outputs) = close false true e in
      (e', emits_handshake_error code ∷ emits_error code ∷ outputs)
  take_event (error code) now e = (e, emits_error code ∷ [])
  take_event heartbeat_ack now e = (record e { heartbeat = reset_heartbeat now e.heartbeat }, [])

  unfoldable pub on_core_event : CoreEvent → ℕ → Endpoint → Endpoint × List EndpointOutput
  unfolding take_event
  on_core_event ev now e = if is_closed e.lifecycle then (e, []) else take_event ev now e
