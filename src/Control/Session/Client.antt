-- ===== src/Control/Session/Client.antt =====
-- What a client makes of an ACCEPT that comes late.
use axtp_ts_runtime.Common.{ℕ, ◌^◌, ◌<◌, List, some, true, ◌≡◌, ap, ◌∙◌, arith}
use axtp_ts_runtime.Model.ControlOpcode
use axtp_ts_runtime.Control.Codec.{PartialParams, no_params, encode_accept, encode_close}
use axtp_ts_runtime.Control.Codec.RoundTrip.{FitWire, decode_control-encode_control}
use axtp_ts_runtime.Control.Session.{
  SessionOutput, client, opened, closed, NegotiatedLink, ControlSession, handle_control_body,
  dispatch, take_accept, handle_close, or_else,
}
use axtp_ts_runtime.Control.Session.Agreement.{handle-decoded, handle_accept-client, decode_accept}

no_params-FitWire : FitWire no_params
no_params-FitWire = record {
  max_frame_size = tt;
  supported_payload_types = tt;
  supported_rpc_encodings = tt;
  heartbeat_interval_ms = tt;
  ack_mode = tt;
  selected_rpc_encoding = tt;
}

after_close :
    (id : ℕ) (c : ControlSession)
    → id < 2 ^ 16
    → (handle_control_body (encode_close id) c).0 ≡ (handle_close id c).0
unfolding encode_close dispatch
after_close id c h =
    ap (λ (p : ControlSession × List SessionOutput). p.0)
      (handle-decoded (encode_close id) _ c (
        decode_control-encode_control ControlOpcode.close id 0 no_params (omega arith) h
          (omega arith) no_params-FitWire))

-- A client that waits for an ACCEPT and gets a CLOSE first, which closes its link, opens the link
-- again when the ACCEPT comes in after it, with the frame limit and the heartbeat interval that the
-- ACCEPT names, whatever these are, its own standing in for one that it does not name. The ids and
-- the parameters of the ACCEPT fit their fields.
pub close_then_accept :
    (c : ControlSession) (open_id close_id : ℕ) (p : PartialParams)
    → c.physical_role ≡ client
    → c.pending_open_id ≡ some open_id
    → open_id < 2 ^ 16
    → close_id < 2 ^ 16
    → FitWire p
    → let c₁ = (handle_control_body (encode_close close_id) c).0 in
      let c₂ = (handle_control_body (encode_accept open_id p) c₁).0 in
      let link : NegotiatedLink = record {
        max_frame_size = or_else p.max_frame_size c.local_params.max_frame_size;
        heartbeat_interval_ms =
            or_else p.heartbeat_interval_ms c.local_params.heartbeat_interval_ms;
        selected_rpc_encoding = or_else p.selected_rpc_encoding 1;
        accepted = true;
      } in
      (c₁.link_state ≡ closed) × (c₂.link_state ≡ opened) × (c₂.negotiated ≡ some link)
unfolding handle_close dispatch take_accept
close_then_accept c open_id close_id p role pending h k fit =
    let c₁ = (handle_close close_id c).0 in
    let shut = after_close close_id c k in
    let taken =
      handle-decoded (encode_accept open_id p) _ c₁ (decode_accept open_id p h fit)
      ∙ handle_accept-client open_id 0 p c₁ role pending in
    let whole =
      ap (λ x. (handle_control_body (encode_accept open_id p) x).0) shut
      ∙ ap (λ (q : ControlSession × List SessionOutput). q.0) taken in
    (ap (λ x. x.link_state) shut, ap (λ x. x.link_state) whole, ap (λ x. x.negotiated) whole)
