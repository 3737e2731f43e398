-- ===== src/Wire/Messages.antt =====
-- RPC and STREAM messages from one adapter to the other.
use axtp_ts_runtime.Common.{
  ℕ, suc, ◌+◌, ◌≤◌, ◌<◌, ◌^◌, List, [], ◌∷◌, length, returns, ◌≡◌, refl, ap, ◌∙◌,
}
use axtp_ts_runtime.Model.{PayloadType}
use axtp_ts_runtime.Model.Rpc.{RpcMessage}
use axtp_ts_runtime.Model.Json.{JsonPlatform, Survives}
use axtp_ts_runtime.Frame.Reassembler.Completion.{joined}
use axtp_ts_runtime.StreamCodec.{StreamPayload, encode_stream}
use axtp_ts_runtime.StreamCodec.Laws.{IsStreamPayload, decode_stream-encode_stream}
use axtp_ts_runtime.JsonRpc.{Value, encode_json_rpc, to_envelope}
use axtp_ts_runtime.JsonRpc.RoundTrip.{received, HasJsonNumbers, decode_json_rpc-encode_json_rpc}
use axtp_ts_runtime.Wire.{
  FramedWireAdapter, WireSink, decoded, decode_rpc_payload, dispatch_rpc, dispatch_stream,
  dispatch_payload, json_encoding, encode_rpc, encode_stream_payload, feed_unframed,
}
use axtp_ts_runtime.Wire.Span.{AreIn}
use axtp_ts_runtime.Wire.Pieces.{bytes_of, feed_all}
use axtp_ts_runtime.Wire.Delivery.{idle, feed_all-frame_payload}

pub decode_rpc_payload-json :
    (json : JsonPlatform) (msg : RpcMessage Value)
    → Survives json (to_envelope msg)
    → HasJsonNumbers msg
    → decode_rpc_payload json (json_encoding ∷ encode_json_rpc json msg) ≡ decoded (received msg)
unfolding decode_rpc_payload
decode_rpc_payload-json json msg law numbers =
    rw (decode_json_rpc-encode_json_rpc json msg law numbers) refl

-- On an unframed link, a message with ids and a status in range, whose envelope survives printing
-- and parsing, calls the sink once, with the message up to what the source leaves out.
pub feed_unframed-encode_json_rpc :
    {S : Type 0} (json : JsonPlatform) (sink : WireSink S) (msg : RpcMessage Value) (s : S)
    → Survives json (to_envelope msg)
    → HasJsonNumbers msg
    → feed_unframed json sink (encode_json_rpc json msg) s ≡ sink.on_rpc (received msg) s
unfolding feed_unframed
feed_unframed-encode_json_rpc json sink msg s law numbers =
    rw (decode_json_rpc-encode_json_rpc json msg law numbers, feed_unframed) refl

module _ {T : Type 0} (json : JsonPlatform) (sink : WireSink (FramedWireAdapter × T)) (start : ℕ)
    (w : FramedWireAdapter) (chunks : List (List ℕ)) (pieces : List (ℕ × List ℕ))
    (a : FramedWireAdapter) (t : T) (id_word : w.fragmenter.next_message_id < 2 ^ 16)
    (limit_min : 14 ≤ w.fragmenter.max_frame_size)
    (limit_word : w.fragmenter.max_frame_size < 2 ^ 16 + 14)
    (limits : w.fragmenter.max_frame_size ≤ a.max_frame_size)
    (same : bytes_of pieces ≡ joined chunks)
    (inside : AreIn start a.reassembler.assembly_timeout_ms pieces) where
  -- An RPC message that one adapter encodes, with ids and a status in range and an envelope that
  -- survives printing and parsing, reaches the sink of another with no message under way: however
  -- its bytes are cut, if the pieces come in within the assembly timeout, the sink is called once,
  -- with the message up to what the source leaves out. The frame limit and id of the sender are in
  -- range, and the limits of the other let it in.
  pub feed_all-encode_rpc :
      (msg : RpcMessage Value)
      → (encode_rpc json msg w).0 ≡ returns chunks
      → suc (length (encode_json_rpc json msg)) ≤ a.reassembler.max_message_size
      → Survives json (to_envelope msg)
      → HasJsonNumbers msg
      → feed_all json sink pieces [] (idle a, t)
        ≡ returns ([], sink.on_rpc (received msg) (idle a, t))
  unfolding encode_rpc dispatch_payload
  feed_all-encode_rpc msg framed room law numbers =
      feed_all-frame_payload json sink start w PayloadType.rpc
        (json_encoding ∷ encode_json_rpc json msg) chunks pieces a t id_word limit_min limit_word
        framed same inside limits room
      ∙ ap (λ d. returns ([], dispatch_rpc json sink d (idle a, t)))
          (decode_rpc_payload-json json msg law numbers)

  -- A STREAM payload whose fields fit the wire, encoded by one adapter, reaches the sink of another
  -- as it was, once, however its bytes are cut, under the same conditions.
  pub feed_all-encode_stream_payload :
      (msg : StreamPayload)
      → IsStreamPayload msg
      → (encode_stream_payload msg w).0 ≡ returns chunks
      → length (encode_stream msg) ≤ a.reassembler.max_message_size
      → feed_all json sink pieces [] (idle a, t) ≡ returns ([], sink.on_stream msg (idle a, t))
  unfolding encode_stream_payload dispatch_payload
  feed_all-encode_stream_payload msg fits framed room =
      feed_all-frame_payload json sink start w PayloadType.stream (encode_stream msg) chunks pieces
        a t id_word limit_min limit_word framed same inside limits room
      ∙ ap (λ d. returns ([], dispatch_stream json sink d (idle a, t)))
          (decode_stream-encode_stream msg fits)
