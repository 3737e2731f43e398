-- ===== src/Core/Delivery.antt =====
-- A call across a framed link, in bytes.
use axtp_ts_runtime.Common.{
  ℕ, suc, ◌+◌, ◌≤◌, ◌<◌, ◌^◌, List, [], ◌∷◌, ◌++◌, length, returns, ◌≡◌, refl, ap, ◌∙◌,
}
use axtp_ts_runtime.Model.Rpc.{Text, request, same_text_self}
use axtp_ts_runtime.Model.Json.{JsonPlatform, Survives}
use axtp_ts_runtime.Frame.Reassembler.Completion.{joined}
use axtp_ts_runtime.JsonRpc.{Value, or_object, encode_json_rpc, to_envelope}
use axtp_ts_runtime.JsonRpc.RoundTrip.{HasJsonNumbers}
use axtp_ts_runtime.Handshake.{app_ready, classify_inbound}
use axtp_ts_runtime.Wire.{FramedWireAdapter, encode_rpc}
use axtp_ts_runtime.Wire.Span.{AreIn}
use axtp_ts_runtime.Wire.Pieces.{bytes_of, feed_all}
use axtp_ts_runtime.Wire.Delivery.{idle}
use axtp_ts_runtime.Wire.Messages.{feed_all-encode_rpc}
use axtp_ts_runtime.Core.{
  Core, CoreOutput, enqueues, rpc_request, handle_rpc, handle_as, dispatch_business, business_of,
}
use axtp_ts_runtime.Core.Link.{linked, adjust, wire_sink}

module _ (random : ℕ → ℕ) (json : JsonPlatform) (start : ℕ) (w : FramedWireAdapter)
    (chunks : List (List ℕ)) (pieces : List (ℕ × List ℕ)) (a : FramedWireAdapter) (c : Core)
    (log : List CoreOutput) (id_word : w.fragmenter.next_message_id < 2 ^ 16)
    (limit_min : 14 ≤ w.fragmenter.max_frame_size)
    (limit_word : w.fragmenter.max_frame_size < 2 ^ 16 + 14)
    (limits : w.fragmenter.max_frame_size ≤ a.max_frame_size)
    (same : bytes_of pieces ≡ joined chunks)
    (inside : AreIn start a.reassembler.assembly_timeout_ms pieces) where
  handle_request :
      (id : ℕ) (method : Text) (params : Value)
      → handle_rpc random (request c.handshake.sid id method params) (record c { gate = app_ready })
        ≡ (
          record c { gate = app_ready },
          enqueues (rpc_request (request c.handshake.sid id method params)) ∷ [],
        )
  unfolding handle_rpc handle_as classify_inbound dispatch_business business_of
  handle_request id method params = rw (same_text_self c.handshake.sid) refl

  -- A request of the session that one end encodes, with an id in range and an envelope that survives
  -- printing and parsing, comes out of a ready core at the other end as the request, with missing
  -- parameters made an empty object: however its bytes are cut, if the pieces come in within the
  -- assembly timeout, this is the one thing the core does, and no state changes. The frames and the body are within the limits of both ends, and the other
  -- end has no message under way.
  pub feed_all-request :
      (id : ℕ) (method : Text) (params : Value)
      → (encode_rpc json (request c.handshake.sid id method params) w).0 ≡ returns chunks
      → suc (length (encode_json_rpc json (request c.handshake.sid id method params)))
        ≤ a.reassembler.max_message_size
      → Survives json (to_envelope (request c.handshake.sid id method params))
      → HasJsonNumbers (request c.handshake.sid id method params)
      → feed_all json (wire_sink random) pieces [] (idle a, (record c { gate = app_ready }, log))
        ≡ returns (
          [],
          (
            idle a,
            (
              record c { gate = app_ready },
              log
                  ++ (enqueues (rpc_request (request c.handshake.sid id method (or_object params)))
                      ∷ []),
            ),
          ),
        )
  unfolding linked adjust
  feed_all-request id method params framed room law numbers =
      let msg = request c.handshake.sid id method params in
      feed_all-encode_rpc json (wire_sink random) start w chunks pieces a
        (record c { gate = app_ready }, log) id_word limit_min limit_word limits same inside msg
        framed room law numbers
      ∙ ap (λ (x : Core × List CoreOutput). returns ([], (adjust x.1 (idle a), (x.0, log ++ x.1))))
          (handle_request id method (or_object params))
