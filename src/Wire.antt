-- ===== src/Wire.antt =====
-- src/protocol/codec/payload.ts and src/core/wire/: the adapters between the bytes of a link and its
-- messages. The sink of a feed is a function on the adapter and on the state `T` behind it, since a
-- callback may change the frame limit.
pub mod Span
pub mod Pieces
pub mod Delivery
pub mod Messages
use axtp_ts_runtime.Common.{
  ℕ, ◌*◌, List, [], ◌∷◌, Option, none, some, ◌==◌, if◌then◌else◌, not, map, Result, returns, throws,
}
use axtp_ts_runtime.Io.Reader.{Exn}
use axtp_ts_runtime.Model.{PayloadType, Frame, Message}
use axtp_ts_runtime.Model.ErrorCode
use axtp_ts_runtime.Model.Rpc.{RpcMessage}
use axtp_ts_runtime.Model.Json.{JsonPlatform}
use axtp_ts_runtime.Frame.{encode}
use axtp_ts_runtime.Frame.Decoder.{Sink, on_bytes}
use axtp_ts_runtime.Frame.Fragmenter.{MessageFragmenter, FragmentError, new_fragmenter, fragment}
use axtp_ts_runtime.Frame.Fragmenter as Fragmenter
use axtp_ts_runtime.Frame.Reassembler.{
  MessageReassembler, new_reassembler, Output, on_message, on_error, on_frame,
}
use axtp_ts_runtime.StreamCodec.{StreamPayload, encode_stream, decode_stream}
use axtp_ts_runtime.JsonRpc.{Value, decode_json_rpc, encode_json_rpc}

-- RpcEncoding.Json
abbrev pub json_encoding : ℕ
json_encoding = 0x01

pub data DecodedRpc : Type 0 where
  nothing : DecodedRpc
  decoded : RpcMessage Value → DecodedRpc
  failed : ℕ → DecodedRpc

unfoldable pub decode_rpc_payload : JsonPlatform → List ℕ → DecodedRpc
decode_rpc_payload json [] = nothing
decode_rpc_payload json (rpc_encoding ∷ rest) =
    if not (rpc_encoding == json_encoding)
    then failed ErrorCode.rpc_encoding_unsupported
    else elim (decode_json_rpc json rest) [
      | none ↦ failed ErrorCode.rpc_payload_invalid
      | some payload ↦ decoded payload
    ]

-- The decoder is its limit; its buffer stands beside the adapter, where no callback sees it.
pub record FramedWireAdapter : Type 0 where
  pub max_frame_size : ℕ
  pub reassembler : MessageReassembler
  pub fragmenter : MessageFragmenter

abbrev pub new_framed : ℕ → FramedWireAdapter
new_framed max_frame_size = record {
  max_frame_size = max_frame_size;
  reassembler = new_reassembler (max_frame_size * 256);
  fragmenter = new_fragmenter max_frame_size;
}

unfoldable pub set_max_frame_size : ℕ → FramedWireAdapter → FramedWireAdapter
unfolding Fragmenter.set_max_frame_size
set_max_frame_size size w = record w {
  max_frame_size = size;
  fragmenter = Fragmenter.set_max_frame_size size w.fragmenter;
}

-- WireSink
pub record WireSink (S : Type 0) : Type 0 where
  pub on_control : List ℕ → S → S
  pub on_rpc : RpcMessage Value → S → S
  pub on_stream : StreamPayload → S → S
  pub on_error : ℕ → S → S

module _ {S : Type 0} (json : JsonPlatform) (sink : WireSink S) where
  unfoldable pub dispatch_rpc : DecodedRpc → S → S
  dispatch_rpc nothing s = s
  dispatch_rpc (decoded payload) s = sink.on_rpc payload s
  dispatch_rpc (failed code) s = sink.on_error code s

  -- decodeStream throws on no input.
  unfoldable pub dispatch_stream : Result Exn (Option StreamPayload) → S → S
  dispatch_stream (returns none) s = s
  dispatch_stream (returns (some sp)) s = sink.on_stream sp s
  dispatch_stream (throws e) s = s

  unfoldable pub dispatch_payload : PayloadType → List ℕ → S → S
  unfolding dispatch_rpc dispatch_stream
  dispatch_payload PayloadType.control body s = sink.on_control body s
  dispatch_payload PayloadType.rpc body s = dispatch_rpc (decode_rpc_payload json body) s
  dispatch_payload PayloadType.stream body s = dispatch_stream (decode_stream body) s

  -- The callbacks of the reassembler.
  unfoldable pub hand_over : List Output → S → S
  unfolding dispatch_payload
  hand_over [] s = s
  hand_over (on_message m ∷ rest) s = hand_over rest (dispatch_payload m.payload_type m.body s)
  hand_over (on_error code ∷ rest) s = hand_over rest (sink.on_error code s)

module _ {T : Type 0} (json : JsonPlatform) (sink : WireSink (FramedWireAdapter × T))
    (now : ℕ) where
  unfoldable pub take_frame : Frame → FramedWireAdapter × T → FramedWireAdapter × T
  take_frame frame (w, t) =
      let (reassembler, outputs) = on_frame now frame w.reassembler in
      hand_over json sink outputs (record w { reassembler = reassembler }, t)

  -- The callbacks of the decoder.
  abbrev pub decoder_sink : Sink (FramedWireAdapter × T)
  decoder_sink = record {
    max_frame_size = λ s. s.0.max_frame_size;
    on_frame = take_frame;
    on_error = sink.on_error;
  }

  -- `now` is what the clock shows during the call, which does not wait.
  unfoldable pub feed_bytes :
      List ℕ → List ℕ → FramedWireAdapter × T → Result Exn (List ℕ × (FramedWireAdapter × T))
  feed_bytes buffer bytes s = on_bytes decoder_sink buffer bytes s

abbrev encoded : Result FragmentError (List Frame) → Result FragmentError (List (List ℕ))
encoded (throws e) = throws e
encoded (returns frames) = returns (map encode frames)

unfoldable pub frame_payload :
    PayloadType
    → List ℕ
    → FramedWireAdapter
    → Result FragmentError (List (List ℕ)) × FramedWireAdapter
frame_payload type body w =
    let message : Message = record { message_id = 0; payload_type = type; body = body } in
    let (frames, fragmenter) = fragment w.fragmenter message in
    (encoded frames, record w { fragmenter = fragmenter })

unfoldable pub encode_rpc :
    JsonPlatform
    → RpcMessage Value
    → FramedWireAdapter
    → Result FragmentError (List (List ℕ)) × FramedWireAdapter
unfolding frame_payload
encode_rpc json msg w = frame_payload PayloadType.rpc (json_encoding ∷ encode_json_rpc json msg) w

unfoldable pub encode_control_body :
    List ℕ → FramedWireAdapter → Result FragmentError (List (List ℕ)) × FramedWireAdapter
unfolding frame_payload
encode_control_body body w = frame_payload PayloadType.control body w

unfoldable pub encode_stream_payload :
    StreamPayload → FramedWireAdapter → Result FragmentError (List (List ℕ)) × FramedWireAdapter
unfolding frame_payload
encode_stream_payload msg w = frame_payload PayloadType.stream (encode_stream msg) w

-- UnframedWireAdapter
unfoldable pub feed_unframed : {S : Type 0} → JsonPlatform → WireSink S → List ℕ → S → S
feed_unframed json sink bytes s = elim (decode_json_rpc json bytes) [
  | none ↦ sink.on_error ErrorCode.rpc_payload_invalid s
  | some payload ↦ sink.on_rpc payload s
]

unfoldable pub encode_unframed : JsonPlatform → RpcMessage Value → List (List ℕ)
encode_unframed json msg = encode_json_rpc json msg ∷ []
