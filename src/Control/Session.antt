-- ===== src/Control/Session.antt =====
-- src/core/controlSession.ts: the state machine of the link (OPEN, ACCEPT, CLOSE, CLOSE_ACK). What
-- the callbacks are called with is the list of outputs, in order.
pub mod Agreement
pub mod Server
pub mod Client
use axtp_ts_runtime.Common.{
  ℕ, ◌+◌, ◌%◌, ◌^◌, min, List, [], ◌∷◌, Option, none, some, Bool, true, false, not, ◌||◌, ◌==◌, ltb,
  if◌then◌else◌, Result, returns, throws,
}
use axtp_ts_runtime.Io.Reader.{Exn}
use axtp_ts_runtime.Model.ErrorCode
use axtp_ts_runtime.Model.ControlOpcode
use axtp_ts_runtime.Control.Codec.{
  PartialParams, ControlPayload, clamp_heartbeat_interval, encode_open, encode_accept,
  encode_rejected_accept, encode_close, encode_close_ack, decode_control,
}

pub data PhysicalRole : Type 0 where
  client server : PhysicalRole

pub data ControlLinkState : Type 0 where
  idle opening opened closing closed : ControlLinkState

pub record NegotiationParams : Type 0 where
  pub max_frame_size : ℕ
  pub supported_payload_types : ℕ
  pub supported_rpc_encodings : Option ℕ
  pub heartbeat_interval_ms : ℕ
  pub ack_mode : ℕ
  pub selected_rpc_encoding : Option ℕ

-- The parameters as encodeControl takes them.
abbrev pub to_partial : NegotiationParams → PartialParams
to_partial p = record {
  max_frame_size = some p.max_frame_size;
  supported_payload_types = some p.supported_payload_types;
  supported_rpc_encodings = p.supported_rpc_encodings;
  heartbeat_interval_ms = some p.heartbeat_interval_ms;
  ack_mode = some p.ack_mode;
  selected_rpc_encoding = p.selected_rpc_encoding;
}

unfoldable pub default_open_params : ℕ → ℕ → NegotiationParams
unfolding clamp_heartbeat_interval
default_open_params max_frame_size heartbeat_interval_ms = record {
  max_frame_size = max_frame_size;
  supported_payload_types = 0x07;
  supported_rpc_encodings = some 0x01;
  heartbeat_interval_ms = clamp_heartbeat_interval heartbeat_interval_ms;
  ack_mode = 0x00;
  selected_rpc_encoding = none;
}

pub record NegotiatedLink : Type 0 where
  pub max_frame_size : ℕ
  pub heartbeat_interval_ms : ℕ
  pub selected_rpc_encoding : ℕ
  pub accepted : Bool

pub record ControlSession : Type 0 where
  pub physical_role : PhysicalRole
  pub link_state : ControlLinkState
  pub next_control_id : ℕ
  pub pending_open_id : Option ℕ
  pub negotiated : Option NegotiatedLink
  pub local_params : NegotiationParams

abbrev pub new_session : PhysicalRole → NegotiationParams → ControlSession
new_session role local_params = record {
  physical_role = role;
  link_state = idle;
  next_control_id = 1;
  pending_open_id = none;
  negotiated = none;
  local_params = local_params;
}

-- One constructor for each callback.
pub data SessionOutput : Type 0 where
  on_link_ready : NegotiatedLink → SessionOutput
  on_open_rejected : ℕ → SessionOutput
  on_send_bytes : List ℕ → SessionOutput
  on_heartbeat : ℕ → SessionOutput
  on_heartbeat_ack : ℕ → SessionOutput
  on_closing : ℕ → SessionOutput
  on_error : ℕ → SessionOutput

unfoldable pub alloc_control_id : ControlSession → ℕ × ControlSession
alloc_control_id s =
    (s.next_control_id, record s { next_control_id = (s.next_control_id + 1) % 2 ^ 16 })

unfoldable pub send_open : ControlSession → ControlSession × List SessionOutput
unfolding alloc_control_id
send_open s =
    let (control_id, s') = alloc_control_id s in
    (
      record s' { pending_open_id = some control_id; link_state = opening },
      on_send_bytes (encode_open control_id (to_partial s'.local_params)) ∷ [],
    )

unfoldable pub send_close : ControlSession → ControlSession × List SessionOutput
unfolding alloc_control_id
send_close s =
    let (control_id, s') = alloc_control_id s in
    (record s' { link_state = closing }, on_send_bytes (encode_close control_id) ∷ [])

abbrev missing : Option ℕ → Bool
missing none = true
missing (some v) = false

-- `a ?? b`
abbrev pub or_else : Option ℕ → ℕ → ℕ
or_else none d = d
or_else (some v) d = v

-- `12B header + 2B CRC + 1B payload`, the source's kMinFrameSize.
abbrev pub min_frame_size : ℕ
min_frame_size = 15

-- The test of an OPEN: a required parameter is missing, the limit is too small, or bit 0 (JSON)
-- of the encodings is not set.
unfoldable pub must_reject : PartialParams → Bool
must_reject tlv =
    missing tlv.max_frame_size
    || (missing tlv.heartbeat_interval_ms
        || (missing tlv.supported_payload_types
            || (missing tlv.supported_rpc_encodings
                || (missing tlv.ack_mode
                    || (ltb (or_else tlv.max_frame_size 0) min_frame_size
                        || (or_else tlv.supported_rpc_encodings 0 % 2 == 0))))))

-- handleOpen on a server whose link is not closing or closed.
unfoldable pub answer_open :
    ℕ → PartialParams → ControlSession → ControlSession × List SessionOutput
unfolding must_reject
answer_open control_id tlv s =
    let max_frame_size =
      min s.local_params.max_frame_size
        (or_else tlv.max_frame_size s.local_params.max_frame_size) in
    let heartbeat_interval_ms =
      clamp_heartbeat_interval
        (or_else tlv.heartbeat_interval_ms s.local_params.heartbeat_interval_ms) in
    let accept_params : NegotiationParams = record {
      max_frame_size = max_frame_size;
      supported_payload_types = s.local_params.supported_payload_types;
      supported_rpc_encodings = none;
      heartbeat_interval_ms = heartbeat_interval_ms;
      ack_mode = s.local_params.ack_mode;
      selected_rpc_encoding = some 1;
    } in
    let negotiated : NegotiatedLink = record {
      max_frame_size = max_frame_size;
      heartbeat_interval_ms = heartbeat_interval_ms;
      selected_rpc_encoding = 1;
      accepted = true;
    } in
    if must_reject tlv
    then (
      s,
      on_send_bytes (encode_rejected_accept control_id ErrorCode.control_negotiation_failed) ∷ [],
    )
    else (
      record s { link_state = opened; negotiated = some negotiated },
      on_send_bytes (encode_accept control_id (to_partial accept_params))
          ∷ on_link_ready negotiated
          ∷ [],
    )

-- The guards of handleOpen, on the role and the link's state.
unfoldable pub open_guarded :
    PhysicalRole
    → ControlLinkState
    → ℕ
    → PartialParams
    → ControlSession
    → ControlSession × List SessionOutput
open_guarded client state control_id tlv s = (s, [])
open_guarded server closed control_id tlv s = (s, [])
open_guarded server closing control_id tlv s = (s, [])
open_guarded server idle control_id tlv s = answer_open control_id tlv s
open_guarded server opening control_id tlv s = answer_open control_id tlv s
open_guarded server opened control_id tlv s = answer_open control_id tlv s

unfoldable pub handle_open :
    ℕ → PartialParams → ControlSession → ControlSession × List SessionOutput
unfolding open_guarded answer_open
handle_open control_id tlv s = open_guarded s.physical_role s.link_state control_id tlv s

-- handleAccept on a client that waits for this id.
unfoldable pub take_accept :
    ℕ → PartialParams → ControlSession → ControlSession × List SessionOutput
take_accept status_code tlv s =
    let rejected : NegotiatedLink = record {
      max_frame_size = 0;
      heartbeat_interval_ms = 0;
      selected_rpc_encoding = 0;
      accepted = false;
    } in
    let negotiated : NegotiatedLink = record {
      max_frame_size = or_else tlv.max_frame_size s.local_params.max_frame_size;
      heartbeat_interval_ms =
          or_else tlv.heartbeat_interval_ms s.local_params.heartbeat_interval_ms;
      selected_rpc_encoding = or_else tlv.selected_rpc_encoding 1;
      accepted = true;
    } in
    if not (status_code == ErrorCode.success)
    then (
      record s { pending_open_id = none; negotiated = some rejected },
      on_open_rejected status_code ∷ [],
    )
    else (
      record s { pending_open_id = none; link_state = opened; negotiated = some negotiated },
      on_link_ready negotiated ∷ [],
    )

unfoldable pub handle_accept :
    ℕ → ℕ → PartialParams → ControlSession → ControlSession × List SessionOutput
unfolding take_accept
handle_accept control_id status_code tlv s = elim s.physical_role [
  | server ↦ (s, [])
  | client ↦ elim s.pending_open_id [
    | none ↦ (s, [])
    | some pending ↦ if not (control_id == pending) then (s, []) else take_accept status_code tlv s
  ]
]

unfoldable pub handle_close : ℕ → ControlSession → ControlSession × List SessionOutput
handle_close control_id s = (
  record s { link_state = closed },
  on_send_bytes (encode_close_ack control_id) ∷ on_closing control_id ∷ [],
)

-- The `switch` on the opcode; another opcode changes nothing.
unfoldable pub dispatch : ControlPayload → ControlSession → ControlSession × List SessionOutput
unfolding handle_open handle_accept handle_close
dispatch p s =
    if p.opcode == ControlOpcode.open_link
    then handle_open p.control_id p.tlv s
    else if p.opcode == ControlOpcode.accept
    then handle_accept p.control_id p.status_code p.tlv s
    else if p.opcode == ControlOpcode.heartbeat
    then (s, on_heartbeat p.control_id ∷ [])
    else if p.opcode == ControlOpcode.heartbeat_ack
    then (s, on_heartbeat_ack p.control_id ∷ [])
    else if p.opcode == ControlOpcode.close
    then handle_close p.control_id s
    else if p.opcode == ControlOpcode.close_ack
    then (record s { link_state = closed }, [])
    else (s, [])

-- The part of handleControlBody behind the `try`.
unfoldable pub handle_decoded :
    Result Exn ControlPayload → ControlSession → ControlSession × List SessionOutput
unfolding dispatch
handle_decoded (throws e) s = (s, on_error ErrorCode.control_payload_invalid ∷ [])
handle_decoded (returns p) s = dispatch p s

unfoldable pub handle_control_body : List ℕ → ControlSession → ControlSession × List SessionOutput
unfolding handle_decoded
handle_control_body body s = handle_decoded (decode_control body) s
