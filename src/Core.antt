-- ===== src/Core.antt =====
-- src/core/core.ts and src/core/events.ts: the engine of one connection, which joins the link's
-- session, the handshake, the gate and the pending calls. What a call enqueues, writes to the
-- outgoing stream, settles or sets on the adapter is the list of its outputs, in order.
pub mod Link
pub mod Gate
pub mod Start
pub mod Calls
pub mod Delivery
use axtp_ts_runtime.Common.{
  ℕ, ◌+◌, List, [], ◌∷◌, ◌++◌, map, Option, none, some, Bool, true, false, not, ◌==◌, if◌then◌else◌,
  Result, returns, throws,
}
use axtp_ts_runtime.Model.ErrorCode
use axtp_ts_runtime.Model.Rpc.{
  Text, same_text, RpcMessage, hello, identify, identified, reidentify, event, request, response,
}
use axtp_ts_runtime.Control.Codec.{encode_heartbeat, encode_heartbeat_ack}
use axtp_ts_runtime.Control.Session.{
  PhysicalRole, ControlSession, SessionOutput, on_link_ready, on_open_rejected, on_send_bytes,
  on_heartbeat, on_heartbeat_ack, on_closing, on_error, default_open_params, new_session,
  alloc_control_id, handle_control_body,
}
use axtp_ts_runtime.Control.Session as Session
use axtp_ts_runtime.StreamCodec.{StreamPayload}
use axtp_ts_runtime.JsonRpc.{Value, or_object}
use axtp_ts_runtime.Handshake.{
  GateState, link_connected, framing_ready, app_ready, closing, LogicalRole, client, server,
  InboundDisposition, handshake, business, respond_open_required, drops, classify_inbound,
  Handshake, HandshakeResult, new_handshake, start_hello, handle,
}
use axtp_ts_runtime.Handshake as Negotiation
use axtp_ts_runtime.Pending.{PendingCalls, Settled, new_calls}
use axtp_ts_runtime.Pending as Pending
use axtp_ts_runtime.Profile.{TransportProfile, supports_control}

pub data CoreEvent : Type 0 where
  rpc_request : RpcMessage Value → CoreEvent
  rpc_event : RpcMessage Value → CoreEvent
  stream_data : StreamPayload → CoreEvent
  link_ready : ℕ → CoreEvent
  link_open_rejected : ℕ → CoreEvent
  link_closing : CoreEvent
  handshake_ready : Text → CoreEvent
  handshake_error : ℕ → CoreEvent
  heartbeat_ack : CoreEvent
  error : ℕ → CoreEvent

pub data OutboundMessage : Type 0 where
  rpc : RpcMessage Value → OutboundMessage
  control_body : List ℕ → OutboundMessage
  stream : StreamPayload → OutboundMessage

pub data CoreOutput : Type 0 where
  enqueues : CoreEvent → CoreOutput
  sends : OutboundMessage → CoreOutput
  settles : Settled (RpcMessage Value) → CoreOutput
  sets_max_frame_size : ℕ → CoreOutput

-- `draws` counts the calls that may have drawn from `Math.random()`. A link without CONTROL has no
-- control session.
pub record Core : Type 0 where
  pub control : Option ControlSession
  pub handshake : Handshake
  pub pending : PendingCalls
  pub gate : GateState
  pub logical_role : LogicalRole
  pub heartbeat_interval_ms : ℕ
  pub draws : ℕ

pub record CoreOptions : Type 0 where
  pub profile : TransportProfile
  pub physical_role : PhysicalRole
  pub logical_role : LogicalRole
  pub max_frame_size : ℕ
  pub heartbeat_interval_ms : ℕ
  pub handshake_seed : ℕ
  pub event_masks : Option Text

unfoldable pub new_core : CoreOptions → Core
unfolding supports_control
new_core opts = record {
  control =
      if supports_control opts.profile
      then some (
          new_session opts.physical_role
            (default_open_params opts.max_frame_size opts.heartbeat_interval_ms))
      else none;
  handshake = new_handshake opts.logical_role opts.handshake_seed opts.event_masks;
  pending = new_calls;
  gate = link_connected;
  logical_role = opts.logical_role;
  heartbeat_interval_ms = opts.heartbeat_interval_ms;
  draws = 0;
}

abbrev pub is_app_ready : GateState → Bool
is_app_ready app_ready = true
is_app_ready _ = false

abbrev pub limit_output : Option ℕ → List CoreOutput
limit_output none = []
limit_output (some size) = sets_max_frame_size size ∷ []

abbrev pub hello_output : LogicalRole → List CoreOutput
hello_output server = sends (rpc start_hello) ∷ []
hello_output client = []

-- onLinkReadyInternal on this gate.
unfoldable pub link_ready_at : GateState → Option ℕ → ℕ → Core → Core × List CoreOutput
link_ready_at link_connected max_frame_size heartbeat_interval_ms c = (
  record c { gate = framing_ready; handshake = Negotiation.on_link_ready c.handshake },
  limit_output max_frame_size
      ++ (hello_output c.logical_role ++ (enqueues (link_ready heartbeat_interval_ms) ∷ [])),
)
link_ready_at _ max_frame_size heartbeat_interval_ms c = (c, [])

unfoldable pub on_link_ready_internal : Option ℕ → ℕ → Core → Core × List CoreOutput
unfolding link_ready_at
on_link_ready_internal max_frame_size heartbeat_interval_ms c =
    link_ready_at c.gate max_frame_size heartbeat_interval_ms c

unfoldable pub mark_link_ready : Core → Core × List CoreOutput
unfolding on_link_ready_internal
mark_link_ready c = elim c.control [
  | some session ↦ (c, [])
  | none ↦ on_link_ready_internal none c.heartbeat_interval_ms c
]

-- The callbacks of the control session.
unfoldable pub on_session_output : SessionOutput → Core → Core × List CoreOutput
unfolding on_link_ready_internal
on_session_output (on_send_bytes body) c = (c, sends (control_body body) ∷ [])
on_session_output (on_link_ready neg) c =
    on_link_ready_internal (some neg.max_frame_size) neg.heartbeat_interval_ms c
on_session_output (on_open_rejected code) c = (c, enqueues (link_open_rejected code) ∷ [])
on_session_output (on_heartbeat id) c = (c, sends (control_body (encode_heartbeat_ack id)) ∷ [])
on_session_output (on_heartbeat_ack id) c = (c, enqueues heartbeat_ack ∷ [])
on_session_output (on_closing id) c = (c, enqueues link_closing ∷ [])
on_session_output (on_error code) c = (c, enqueues (error code) ∷ [])

unfoldable pub on_session_outputs : List SessionOutput → Core → Core × List CoreOutput
unfolding on_session_output
on_session_outputs [] c = (c, [])
on_session_outputs (output ∷ rest) c =
    let (c', outputs) = on_session_output output c in
    let (c'', more) = on_session_outputs rest c' in (c'', outputs ++ more)

-- A call on the control session, if there is one.
unfoldable pub with_control :
    (ControlSession → ControlSession × List SessionOutput) → Core → Core × List CoreOutput
unfolding on_session_outputs
with_control f c = elim c.control [
  | none ↦ (c, [])
  | some session ↦
      let (session', outputs) = f session in
      on_session_outputs outputs (record c { control = some session' })
]

unfoldable pub on_control : List ℕ → Core → Core × List CoreOutput
unfolding with_control
on_control body c = with_control (handle_control_body body) c

unfoldable pub send_control_open : Core → Core × List CoreOutput
unfolding with_control
send_control_open c = with_control Session.send_open c

unfoldable pub send_close : Core → Core × List CoreOutput
unfolding with_control
send_close c = with_control Session.send_close c

unfoldable pub send_heartbeat : Core → Core × List CoreOutput
unfolding alloc_control_id
send_heartbeat c = elim c.control [
  | none ↦ (c, [])
  | some session ↦
      let (id, session') = alloc_control_id session in
      (record c { control = some session' }, sends (control_body (encode_heartbeat id)) ∷ [])
]

-- The outputs of a handled handshake message, with the gate.
abbrev pub reply_output : Option (RpcMessage Value) → List CoreOutput
reply_output none = []
reply_output (some msg) = sends (rpc msg) ∷ []

abbrev pub ready_output : Bool → Text → List CoreOutput
ready_output false sid = []
ready_output true sid = enqueues (handshake_ready sid) ∷ []

abbrev pub error_output : Option ℕ → List CoreOutput
error_output none = []
error_output (some code) = enqueues (handshake_error code) ∷ []

unfoldable pub after_handshake : Core → Handshake × HandshakeResult Value → Core × List CoreOutput
after_handshake c (h, r) = (
  record c {
    handshake = h;
    gate = if r.became_ready then app_ready else c.gate;
    draws = c.draws + 1;
  },
  reply_output r.outbound ++ (ready_output r.became_ready h.sid ++ error_output r.error),
)

abbrev pub sid_of : RpcMessage Value → Text
sid_of (hello sid version) = sid
sid_of (identify sid seed masks) = sid
sid_of (identified sid) = sid
sid_of (reidentify sid masks) = sid
sid_of (event sid name value) = sid
sid_of (request sid id method params) = sid
sid_of (response sid id status result) = sid

-- A call on the pending calls.
abbrev pub with_pending :
    Core → PendingCalls × List (Settled (RpcMessage Value)) → Core × List CoreOutput
with_pending c (pending, settled) = (record c { pending = pending }, map settles settled)

-- The `switch` of dispatchBusiness, behind the test of the sid.
unfoldable pub business_of : RpcMessage Value → Core → Core × List CoreOutput
business_of (request sid id method params) c =
    (c, enqueues (rpc_request (request sid id method params)) ∷ [])
business_of (event sid name value) c = (c, enqueues (rpc_event (event sid name value)) ∷ [])
business_of (response sid id status result) c =
    with_pending c (Pending.resolve id (response sid id status result) c.pending)
business_of msg c = (c, [])

unfoldable pub dispatch_business : RpcMessage Value → Core → Core × List CoreOutput
unfolding business_of
dispatch_business msg c =
    if not (same_text (sid_of msg) c.handshake.sid)
    then (c, enqueues (error ErrorCode.rpc_payload_invalid) ∷ [])
    else business_of msg c

-- The answer to a message that comes before the session is ready.
unfoldable pub open_required : RpcMessage Value → Core → Core × List CoreOutput
open_required (request sid id method params) c =
    (c, sends (rpc (response c.handshake.sid id ErrorCode.control_open_required none)) ∷ [])
open_required msg c = (c, [])

-- `random` is what `Math.random()` gives, as the handshake uses it, by the draw.
module _ (random : ℕ → ℕ) where
  unfoldable pub handle_handshake : RpcMessage Value → Core → Core × List CoreOutput
  unfolding after_handshake
  handle_handshake msg c = after_handshake c (handle (random c.draws) msg c.handshake)

  unfoldable pub handle_as : InboundDisposition → RpcMessage Value → Core → Core × List CoreOutput
  unfolding handle_handshake dispatch_business open_required
  handle_as handshake msg c = handle_handshake msg c
  handle_as business msg c = dispatch_business msg c
  handle_as respond_open_required msg c = open_required msg c
  handle_as drops msg c = (c, [])

  unfoldable pub handle_rpc : RpcMessage Value → Core → Core × List CoreOutput
  unfolding handle_as
  handle_rpc msg c = handle_as (classify_inbound c.gate msg) msg c

unfoldable pub handle_stream : StreamPayload → Core → Core × List CoreOutput
handle_stream msg c =
    if not (is_app_ready c.gate) then (c, []) else (c, enqueues (stream_data msg) ∷ [])

abbrev pub send_rpc : RpcMessage Value → Core → Core × List CoreOutput
send_rpc msg c = (c, sends (rpc msg) ∷ [])

-- A write to the outgoing stream throws never, so that the request stays pending.
unfoldable pub call : Text → Value → Core → Core × List CoreOutput
call method params c =
    let id = c.pending.next_request_id in
    let (c', settled) = with_pending c (Pending.request true c.pending) in
    (c', sends (rpc (request c.handshake.sid id method params)) ∷ settled)

-- What the promise of `call` makes of the response that settles it.
unfoldable pub call_result : RpcMessage Value → Result ℕ Value
call_result (response sid id status result) =
    if not (status == ErrorCode.success) then throws status else returns (or_object result)
call_result msg = returns (or_object none)

unfoldable pub emit : Text → Value → Core → Core × List CoreOutput
emit name payload c = send_rpc (event c.handshake.sid name payload) c

unfoldable pub send_stream : StreamPayload → Core → Core × List CoreOutput
send_stream msg c = (c, sends (stream msg) ∷ [])

unfoldable pub reject_all_pending : ℕ → Core → Core × List CoreOutput
reject_all_pending code c = with_pending c (Pending.reject_all code c.pending)
