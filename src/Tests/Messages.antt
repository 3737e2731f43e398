-- ===== src/Tests/Messages.antt =====
-- jsonRpc.ts, the wire adapters and the core on them at concrete inputs. The platform of these runs
-- prints every value as `{}` and parses every text as one envelope.
use axtp_ts_runtime.Common.{
  ℕ, List, [], ◌∷◌, ◌++◌, take, drop, none, some, returns, length, ◌≡◌, refl, arith,
}
use axtp_ts_runtime.Model.{PayloadType, Frame}
use axtp_ts_runtime.Model.Rpc.{Text, RpcMessage, request}
use axtp_ts_runtime.Model.Json.{JsonPlatform}
use axtp_ts_runtime.Frame.{encode}
use axtp_ts_runtime.Frame.Fragmenter.{fragment}
use axtp_ts_runtime.Frame.Reassembler.Completion.{joined}
use axtp_ts_runtime.StreamCodec.{StreamPayload, encode_stream}
use axtp_ts_runtime.StreamCodec.Laws.{IsStreamPayload}
use axtp_ts_runtime.JsonRpc.{Value, or_object, decode_json_rpc, encode_json_rpc, to_envelope}
use axtp_ts_runtime.JsonRpc.RoundTrip.{received, decode_json_rpc-encode_json_rpc}
use axtp_ts_runtime.Control.Session as Session
use axtp_ts_runtime.Handshake.{app_ready, server, new_handshake}
use axtp_ts_runtime.Profile.{framed_binary_profile}
use axtp_ts_runtime.Wire.{
  FramedWireAdapter, WireSink, new_framed, frame_payload, encode_rpc, encode_stream_payload,
  dispatch_payload,
}
use axtp_ts_runtime.Wire.Span.{AreIn}
use axtp_ts_runtime.Wire.Pieces.{bytes_of, feed_all}
use axtp_ts_runtime.Wire.Delivery.{idle, feed_all-frame_payload}
use axtp_ts_runtime.Wire.Messages.{feed_all-encode_rpc}
use axtp_ts_runtime.Core.{Core, new_core, enqueues, rpc_request}
use axtp_ts_runtime.Core.Link.{wire_sink}
use axtp_ts_runtime.Core.Delivery.{feed_all-request}

abbrev session : Text
session = b'a' ∷ []

abbrev a_request : RpcMessage Value
a_request = request session 7 (b'm' ∷ []) none

abbrev platform : JsonPlatform
platform = record {
  parse = λ bytes. some (to_envelope a_request);
  stringify = λ v. 0x7b ∷ 0x7d ∷ [];
  to_uint32 = λ bits. 0;
}

decode_json_rpc-encode_json_rpc_example :
    decode_json_rpc platform (encode_json_rpc platform a_request) ≡ some (received a_request)
decode_json_rpc-encode_json_rpc_example =
    decode_json_rpc-encode_json_rpc platform a_request refl (omega arith)

-- A sink that counts its calls.
abbrev counting : WireSink (FramedWireAdapter × ℕ)
counting = record {
  on_control = λ body s. (s.0, 1);
  on_rpc = λ msg s. (s.0, 2);
  on_stream = λ msg s. (s.0, 3);
  on_error = λ code s. (s.0, 4);
}

-- A sender that leaves 3 bytes for a payload, and a receiver.
abbrev narrow : FramedWireAdapter
narrow = new_framed 17

abbrev wide : FramedWireAdapter
wide = new_framed 4096

abbrev part : PayloadType → ℕ → ℕ → List ℕ → Frame
part type index count payload = record {
  header = record {
    version = 1;
    payload_type = type;
    payload_length = length payload;
    source_id = 0;
    destination_id = 0;
    message_id = 1;
    frame_index = index;
    frame_count = count;
  };
  payload = payload;
  crc16 = 0;
}

abbrev chunks : List (List ℕ)
chunks =
    encode (part PayloadType.control 0 2 (1 ∷ 2 ∷ 3 ∷ []))
    ∷ encode (part PayloadType.control 1 2 (4 ∷ 5 ∷ []))
    ∷ []

run_frame_payload :
    (frame_payload PayloadType.control (1 ∷ 2 ∷ 3 ∷ 4 ∷ 5 ∷ []) narrow).0 ≡ returns chunks
unfolding frame_payload fragment
run_frame_payload = refl

-- The same bytes, cut inside the second frame; the last piece comes in four seconds later.
abbrev pieces : List (ℕ × List ℕ)
pieces = (5, take 20 (joined chunks)) ∷ (4005, drop 20 (joined chunks)) ∷ []

pieces-joined : bytes_of pieces ≡ joined chunks
unfolding encode
pieces-joined = refl

feed_all-frame_payload_example :
    feed_all platform counting pieces [] (idle wide, 0)
    ≡ returns (
      [],
      dispatch_payload platform counting PayloadType.control
          (1 ∷ 2 ∷ 3 ∷ 4 ∷ 5 ∷ [])
          (idle wide, 0),
    )
feed_all-frame_payload_example =
    feed_all-frame_payload platform counting 5 narrow PayloadType.control (1 ∷ 2 ∷ 3 ∷ 4 ∷ 5 ∷ [])
      chunks pieces wide 0 (omega arith) (omega arith) (omega arith) run_frame_payload pieces-joined
      (omega arith) (omega arith) (omega arith)

abbrev rpc_chunks : List (List ℕ)
rpc_chunks = encode (part PayloadType.rpc 0 1 (1 ∷ 0x7b ∷ 0x7d ∷ [])) ∷ []

abbrev rpc_pieces : List (ℕ × List ℕ)
rpc_pieces = (5, joined rpc_chunks) ∷ []

rpc_pieces-AreIn : AreIn 5 wide.reassembler.assembly_timeout_ms rpc_pieces
rpc_pieces-AreIn = omega arith

rpc_pieces-joined : bytes_of rpc_pieces ≡ joined rpc_chunks
unfolding encode
rpc_pieces-joined = refl

run_encode_rpc : (encode_rpc platform a_request narrow).0 ≡ returns rpc_chunks
unfolding encode_rpc encode_json_rpc fragment
run_encode_rpc = refl

feed_all-encode_rpc_example :
    feed_all platform counting rpc_pieces [] (idle wide, 0)
    ≡ returns ([], counting.on_rpc (received a_request) (idle wide, 0))
feed_all-encode_rpc_example =
    feed_all-encode_rpc platform counting 5 narrow rpc_chunks rpc_pieces wide 0 (omega arith)
      (omega arith) (omega arith) (omega arith) rpc_pieces-joined rpc_pieces-AreIn a_request
      run_encode_rpc (unfold encode_json_rpc in omega arith) refl (omega arith)

abbrev a_payload : StreamPayload
a_payload = record { stream_id = 1; seq_id = 2; cursor = 3; bytes = 9 ∷ [] }

a_payload-IsStreamPayload : IsStreamPayload a_payload
a_payload-IsStreamPayload = omega arith

abbrev stream_chunks : List (List ℕ)
stream_chunks = encode (part PayloadType.stream 0 1 (encode_stream a_payload)) ∷ []

run_encode_stream_payload : (encode_stream_payload a_payload wide).0 ≡ returns stream_chunks
unfolding encode_stream_payload encode_stream fragment
run_encode_stream_payload = refl

abbrev a_core : Core
a_core = new_core (record {
  profile = framed_binary_profile none;
  physical_role = Session.server;
  logical_role = server;
  max_frame_size = 4096;
  heartbeat_interval_ms = 1000;
  handshake_seed = 7;
  event_masks = none;
})

-- A core with the session of the request.
abbrev session_core : Core
session_core = record a_core { handshake = record (new_handshake server 7 none) { sid = session } }

feed_all-request_example :
    feed_all platform
      (wire_sink (λ n. 1))
      rpc_pieces
      []
      (idle wide, (record session_core { gate = app_ready }, []))
    ≡ returns (
      [],
      (
        idle wide,
        (
          record session_core { gate = app_ready },
          [] ++ (enqueues (rpc_request (request session 7 (b'm' ∷ []) (or_object none))) ∷ []),
        ),
      ),
    )
feed_all-request_example =
    feed_all-request (λ n. 1) platform 5 narrow rpc_chunks rpc_pieces wide session_core []
      (omega arith) (omega arith) (omega arith) (omega arith) rpc_pieces-joined rpc_pieces-AreIn 7
      (b'm' ∷ []) none run_encode_rpc (unfold encode_json_rpc in omega arith) refl (omega arith)
