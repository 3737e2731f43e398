-- ===== src/Control/Session/Agreement.antt =====
-- The two ends of a link agree on what the OPEN and its ACCEPT settled.
use axtp_ts_runtime.Common.{
  ℕ, ◌%◌, ◌^◌, ◌≤◌, ◌<◌, min, List, [], ◌∷◌, none, some, true, false, returns, ◌≡◌, ◌≢◌, refl, sym,
  ap, ◌∙◌, subst, arith, eq→==,
}
use axtp_ts_runtime.Model.ControlOpcode
use axtp_ts_runtime.Control.Codec.{
  PartialParams, ControlPayload, clamp_heartbeat_interval, encode_open, encode_accept,
  decode_control,
}
use axtp_ts_runtime.Control.Codec.Tlv.{byte, Fits}
use axtp_ts_runtime.Control.Codec.RoundTrip.{
  FitWire, control_payload, decode_control-encode_control,
}
use axtp_ts_runtime.Control.Session.{
  open_guarded, idle, client, server, closing, closed, opened, opening, NegotiationParams,
  to_partial, NegotiatedLink, ControlSession, ControlLinkState, on_send_bytes, on_link_ready,
  send_open, handle_control_body, handle_decoded, dispatch, handle_open, handle_accept, answer_open,
  take_accept, must_reject,
}

-- Parameters of a client that a server accepts, and that the wire holds.
pub record CanOpen (p : NegotiationParams) : Type 0 where
  pub frame_min : 15 ≤ p.max_frame_size
  pub frame_word : p.max_frame_size < 2 ^ 16
  pub types_byte : p.supported_payload_types < 256
  pub encodings : ℕ
  pub encodings_there : p.supported_rpc_encodings ≡ some encodings
  pub encodings_byte : encodings < 256
  pub encodings_json : encodings % 2 ≡ 1
  pub heartbeat_word : p.heartbeat_interval_ms < 2 ^ 16
  pub ack_byte : p.ack_mode < 256
  pub selected_fits : Fits byte p.selected_rpc_encoding

pub clamp-bounds :
    (ms : ℕ) → (500 ≤ clamp_heartbeat_interval ms) × (clamp_heartbeat_interval ms ≤ 60000)
unfolding clamp_heartbeat_interval
clamp-bounds ms = omega arith

-- What the two ends settle on.
abbrev pub settled : NegotiationParams → NegotiationParams → NegotiatedLink
settled c s = record {
  max_frame_size = min s.max_frame_size c.max_frame_size;
  heartbeat_interval_ms = clamp_heartbeat_interval c.heartbeat_interval_ms;
  selected_rpc_encoding = 1;
  accepted = true;
}

abbrev pub accept_params : NegotiationParams → NegotiationParams → NegotiationParams
accept_params c s = record {
  max_frame_size = min s.max_frame_size c.max_frame_size;
  supported_payload_types = s.supported_payload_types;
  supported_rpc_encodings = none;
  heartbeat_interval_ms = clamp_heartbeat_interval c.heartbeat_interval_ms;
  ack_mode = s.ack_mode;
  selected_rpc_encoding = some 1;
}

open-FitWire : (p : NegotiationParams) → CanOpen p → FitWire (to_partial p)
open-FitWire p h = record {
  max_frame_size = h.frame_word;
  supported_payload_types = h.types_byte;
  supported_rpc_encodings = subst (Fits byte) (sym h.encodings_there) h.encodings_byte;
  heartbeat_interval_ms = h.heartbeat_word;
  ack_mode = h.ack_byte;
  selected_rpc_encoding = h.selected_fits;
}

accept-FitWire :
    (c s : NegotiationParams)
    → CanOpen c
    → s.supported_payload_types < 256
    → s.ack_mode < 256
    → FitWire (to_partial (accept_params c s))
accept-FitWire c s h types ack = record {
  max_frame_size = omega (arith, h.frame_word);
  supported_payload_types = types;
  supported_rpc_encodings = tt;
  heartbeat_interval_ms = omega (arith, (clamp-bounds c.heartbeat_interval_ms).1);
  ack_mode = ack;
  selected_rpc_encoding = omega arith;
}

accepted : (p : NegotiationParams) → CanOpen p → must_reject (to_partial p) ≡ false
unfolding must_reject
accepted p h = rw h.encodings_there (ground (arith, h.frame_min, h.encodings_json))

answer_open-accepts :
    (control_id : ℕ) (c : NegotiationParams) (s : ControlSession)
    → CanOpen c
    → answer_open control_id (to_partial c) s ≡ (
      record s { link_state = opened; negotiated = some (settled c s.local_params) },
      on_send_bytes (encode_accept control_id (to_partial (accept_params c s.local_params)))
          ∷ on_link_ready (settled c s.local_params)
          ∷ [],
    )
unfolding answer_open
answer_open-accepts control_id c s h = rw (accepted c h) refl

handle_open-server :
    (control_id : ℕ) (tlv : PartialParams) (s : ControlSession)
    → s.physical_role ≡ server
    → s.link_state ≢ closed
    → s.link_state ≢ closing
    → handle_open control_id tlv s ≡ answer_open control_id tlv s
unfolding handle_open
handle_open-server control_id tlv s role not_closed not_closing =
    ap (λ x. open_guarded x s.link_state control_id tlv s) role
    ∙ go s.link_state not_closed not_closing
  where
    go :
        (x : ControlLinkState)
        → x ≢ closed
        → x ≢ closing
        → open_guarded server x control_id tlv s ≡ answer_open control_id tlv s
    go idle h k = refl
    go opening h k = refl
    go opened h k = refl
    go closing h k = absurd (k refl)
    go closed h k = absurd (h refl)

pub handle_accept-client :
    (control_id status : ℕ) (tlv : PartialParams) (s : ControlSession)
    → s.physical_role ≡ client
    → s.pending_open_id ≡ some control_id
    → handle_accept control_id status tlv s ≡ take_accept status tlv s
unfolding handle_accept
handle_accept-client control_id status tlv s role pending =
    rw role (rw pending (rw (eq→== control_id control_id refl) refl))

decode_open :
    (id : ℕ) (p : PartialParams)
    → id < 2 ^ 16
    → FitWire p
    → decode_control (encode_open id p) ≡ returns (control_payload ControlOpcode.open_link id 0 p)
unfolding encode_open
decode_open id p h fit =
    decode_control-encode_control ControlOpcode.open_link id 0 p (omega arith) h (omega arith) fit

pub decode_accept :
    (id : ℕ) (p : PartialParams)
    → id < 2 ^ 16
    → FitWire p
    → decode_control (encode_accept id p) ≡ returns (control_payload ControlOpcode.accept id 0 p)
unfolding encode_accept
decode_accept id p h fit =
    decode_control-encode_control ControlOpcode.accept id 0 p (omega arith) h (omega arith) fit

-- The session behind the decoder.
pub handle-decoded :
    (body : List ℕ) (p : ControlPayload) (s : ControlSession)
    → decode_control body ≡ returns p
    → handle_control_body body s ≡ dispatch p s
unfolding handle_control_body handle_decoded
handle-decoded body p s e = rw e refl

-- A client opens the link, and a server whose link is not closed or closing handles the bytes: it
-- answers with bytes from which the client, too, opens the link, and both report the same
-- parameters: the smaller of the two frame limits, the client's heartbeat interval brought between
-- 500 and 60000, and JSON. The client's parameters are accepted ones that fit their fields, and
-- its next id and the server's payload types and ACK mode fit theirs.
pub open_agrees :
    (c s : ControlSession)
    → c.physical_role ≡ client
    → CanOpen c.local_params
    → c.next_control_id < 2 ^ 16
    → s.physical_role ≡ server
    → s.link_state ≢ closed
    → s.link_state ≢ closing
    → s.local_params.supported_payload_types < 256
    → s.local_params.ack_mode < 256
    → let id = c.next_control_id in
      let link = settled c.local_params s.local_params in
      let request = encode_open id (to_partial c.local_params) in
      let reply = encode_accept id (to_partial (accept_params c.local_params s.local_params)) in
      let c' = (send_open c).0 in
      ((send_open c).1 ≡ on_send_bytes request ∷ [])
      × (handle_control_body request s ≡ (
        record s { link_state = opened; negotiated = some link },
        on_send_bytes reply ∷ on_link_ready link ∷ [],
      ))
      × (handle_control_body reply c' ≡ (
        record c' { pending_open_id = none; link_state = opened; negotiated = some link },
        on_link_ready link ∷ [],
      ))
unfolding send_open dispatch take_accept
open_agrees c s client_role can_open id_word server_role not_closed not_closing types ack =
    let id = c.next_control_id in
    let p = to_partial c.local_params in
    let q = to_partial (accept_params c.local_params s.local_params) in
    let c' = (send_open c).0 in
    let request : decode_control (encode_open id p)
        ≡ returns (control_payload ControlOpcode.open_link id 0 p) =
      decode_open id p id_word (open-FitWire c.local_params can_open) in
    let reply : decode_control (encode_accept id q)
        ≡ returns (control_payload ControlOpcode.accept id 0 q) =
      decode_accept id q id_word
        (accept-FitWire c.local_params s.local_params can_open types ack) in
    (
      refl,
      handle-decoded (encode_open id p) _ s request
          ∙ handle_open-server id p s server_role not_closed not_closing
          ∙ answer_open-accepts id c.local_params s can_open,
      handle-decoded (encode_accept id q) _ c' reply
          ∙ handle_accept-client id 0 q c' client_role refl,
    )
