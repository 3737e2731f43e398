-- ===== src/Tests/ControlLink.antt =====
-- The control codec and session of protocol/codec/control.ts and core/controlSession.ts at
-- concrete inputs.
use axtp_ts_runtime.Common.{ℕ, List, [], ◌∷◌, some, none, true, returns, ◌≡◌, refl, arith}
use axtp_ts_runtime.Io.Reader.{
  read_u8, read_u8_strict, read_u16, read_u16_strict, read_bytes, byte_at, remaining, is_empty,
}
use axtp_ts_runtime.Control.Codec.{
  PartialParams, no_params, encode_control, decode_control, read_params, read_tlv, set_param,
  encode_open, encode_accept, encode_close,
}
use axtp_ts_runtime.Control.Codec.RoundTrip.{
  FitWire, control_payload, decode_control-encode_control,
}
use axtp_ts_runtime.Control.Session.{
  client, server, closed, opened, NegotiationParams, to_partial, NegotiatedLink, ControlSession,
  new_session, on_send_bytes, on_link_ready, send_open, handle_control_body,
}
use axtp_ts_runtime.Control.Session.Agreement.{CanOpen, settled, accept_params, open_agrees}
use axtp_ts_runtime.Control.Session.Server.{
  handle_bodies, IsSafeServer, handle_bodies-IsSafeServer, handle_bodies-closed,
}
use axtp_ts_runtime.Control.Session.Client.{close_then_accept}

abbrev params : ℕ → ℕ → NegotiationParams
params max_frame_size heartbeat_interval_ms = record {
  max_frame_size = max_frame_size;
  supported_payload_types = 7;
  supported_rpc_encodings = some 1;
  heartbeat_interval_ms = heartbeat_interval_ms;
  ack_mode = 0;
  selected_rpc_encoding = none;
}

abbrev open_bytes : List ℕ
open_bytes =
    1 ∷ 0 ∷ 1 ∷ 0 ∷ 0 ∷ 4 ∷ 2 ∷ 4 ∷ 0 ∷ 7 ∷ 1 ∷ 7 ∷ 8 ∷ 1 ∷ 1 ∷ 0x0a ∷ 2 ∷ 0 ∷ 0x64 ∷ 0x0b ∷ 1 ∷ 0
    ∷ []

run_open : encode_open 1 (to_partial (params 1024 100)) ≡ open_bytes
unfolding encode_open encode_control
run_open = refl

-- A TLV with an extended length, one of an unknown width and one with an unknown tag are skipped.
run_skip :
    decode_control (
      4 ∷ 0 ∷ 9 ∷ 0 ∷ 0 ∷ 4 ∷ 0xff ∷ 0 ∷ 2 ∷ 5 ∷ 5 ∷ 4 ∷ 3 ∷ 1 ∷ 1 ∷ 1 ∷ 0x63 ∷ 1 ∷ 1 ∷ 4 ∷ 1 ∷ 20
      ∷ [])
    ≡ returns (record {
      opcode = 4;
      control_id = 9;
      status_code = 0;
      body = 4 ∷ 0xff ∷ 0 ∷ 2 ∷ 5 ∷ 5 ∷ 4 ∷ 3 ∷ 1 ∷ 1 ∷ 1 ∷ 0x63 ∷ 1 ∷ 1 ∷ 4 ∷ 1 ∷ 20 ∷ [];
      tlv = record no_params { max_frame_size = some 20 };
    })
unfolding decode_control read_params read_tlv set_param read_u8 read_u8_strict read_u16
    read_u16_strict read_bytes byte_at remaining is_empty
run_skip = refl

params-FitWire : FitWire (to_partial (params 1024 100))
params-FitWire = omega arith

decode_control-encode_control_example :
    decode_control (encode_control 1 1 0 (to_partial (params 1024 100)))
    ≡ returns (control_payload 1 1 0 (to_partial (params 1024 100)))
decode_control-encode_control_example =
    decode_control-encode_control 1 1 0 (to_partial (params 1024 100)) (omega arith) (omega arith)
      (omega arith) params-FitWire

abbrev client_session : ControlSession
client_session = new_session client (params 1024 100)

abbrev server_session : ControlSession
server_session = new_session server (params 4096 1000)

client-CanOpen : CanOpen (params 1024 100)
client-CanOpen = record {
  frame_min = omega arith;
  frame_word = omega arith;
  types_byte = omega arith;
  encodings = 1;
  encodings_there = refl;
  encodings_byte = omega arith;
  encodings_json = refl;
  heartbeat_word = omega arith;
  ack_byte = omega arith;
  selected_fits = tt;
}

abbrev link : NegotiatedLink
link = settled (params 1024 100) (params 4096 1000)

open_agrees_example :
    let request = encode_open 1 (to_partial (params 1024 100)) in
    let reply = encode_accept 1 (to_partial (accept_params (params 1024 100) (params 4096 1000))) in
    let c' = (send_open client_session).0 in
    ((send_open client_session).1 ≡ on_send_bytes request ∷ [])
    × (handle_control_body request server_session ≡ (
      record server_session { link_state = opened; negotiated = some link },
      on_send_bytes reply ∷ on_link_ready link ∷ [],
    ))
    × (handle_control_body reply c' ≡ (
      record c' { pending_open_id = none; link_state = opened; negotiated = some link },
      on_link_ready link ∷ [],
    ))
open_agrees_example =
    open_agrees client_session server_session refl client-CanOpen (omega arith) refl (λ e. cc e)
      (λ e. cc e) (omega arith) (omega arith)

server-IsSafeServer : IsSafeServer 4096 server_session
server-IsSafeServer = record { role = refl; limit = refl; link = λ e. cc e }

handle_bodies-IsSafeServer_example :
    IsSafeServer 4096 (handle_bodies (open_bytes ∷ [] ∷ []) server_session)
handle_bodies-IsSafeServer_example =
    handle_bodies-IsSafeServer 4096 (open_bytes ∷ [] ∷ []) server_session server-IsSafeServer

abbrev closed_server : ControlSession
closed_server = record server_session { link_state = closed }

handle_bodies-closed_example : (handle_bodies (open_bytes ∷ []) closed_server).link_state ≡ closed
handle_bodies-closed_example = handle_bodies-closed (open_bytes ∷ []) closed_server refl refl

abbrev waiting_client : ControlSession
waiting_client = record client_session { pending_open_id = some 1 }

abbrev no_frames : PartialParams
no_frames = record no_params { max_frame_size = some 0; heartbeat_interval_ms = some 0 }

no_frames-FitWire : FitWire no_frames
no_frames-FitWire = omega arith

close_then_accept_example :
    let c₁ = (handle_control_body (encode_close 2) waiting_client).0 in
    let c₂ = (handle_control_body (encode_accept 1 no_frames) c₁).0 in
    let zero_link : NegotiatedLink = record {
      max_frame_size = 0;
      heartbeat_interval_ms = 0;
      selected_rpc_encoding = 1;
      accepted = true;
    } in
    (c₁.link_state ≡ closed) × (c₂.link_state ≡ opened) × (c₂.negotiated ≡ some zero_link)
close_then_accept_example =
    close_then_accept waiting_client 1 2 no_frames refl refl (omega arith) (omega arith)
      no_frames-FitWire
