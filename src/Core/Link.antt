-- ===== src/Core/Link.antt =====
-- src/core/core.ts: the wire sink and the outgoing stream of a core, on the adapter of its link.
use axtp_ts_runtime.Common.{ℕ, List, [], ◌∷◌, ◌++◌, Result, returns, throws}
use axtp_ts_runtime.Io.Reader.{Exn}
use axtp_ts_runtime.Model.Json.{JsonPlatform}
use axtp_ts_runtime.Frame.Fragmenter.{FragmentError}
use axtp_ts_runtime.Wire.{
  FramedWireAdapter, WireSink, set_max_frame_size, feed_bytes, feed_unframed, encode_rpc,
  encode_control_body, encode_stream_payload, encode_unframed,
}
use axtp_ts_runtime.Core.{
  Core, CoreOutput, OutboundMessage, enqueues, sends, settles, sets_max_frame_size, error, rpc,
  control_body, stream, on_control, handle_rpc, handle_stream,
}

-- A core and its outputs up to now.
abbrev pub Logged : Type 0
Logged = Core × List CoreOutput

-- What the outputs do to the adapter: `this.framed?.setMaxFrameSize(maxFrameSize)`.
unfoldable pub adjust : List CoreOutput → FramedWireAdapter → FramedWireAdapter
adjust [] w = w
adjust (sets_max_frame_size size ∷ rest) w = adjust rest (set_max_frame_size size w)
adjust (enqueues event ∷ rest) w = adjust rest w
adjust (sends msg ∷ rest) w = adjust rest w
adjust (settles settled ∷ rest) w = adjust rest w

abbrev pub Linked : Type 0
Linked = FramedWireAdapter × Logged

-- An operation of the core, on the link.
unfoldable pub linked : (Core → Core × List CoreOutput) → Linked → Linked
unfolding adjust
linked f (w, (c, log)) = let (c', outputs) = f c in (adjust outputs w, (c', log ++ outputs))

unfoldable pub logged : (Core → Core × List CoreOutput) → Logged → Logged
logged f (c, log) = let (c', outputs) = f c in (c', log ++ outputs)

module _ (random : ℕ → ℕ) where
  abbrev pub wire_sink : WireSink Linked
  wire_sink = record {
    on_control = λ body. linked (on_control body);
    on_rpc = λ msg. linked (handle_rpc random msg);
    on_stream = λ msg. linked (handle_stream msg);
    on_error = λ code. linked (λ c. (c, enqueues (error code) ∷ []));
  }

  -- An unframed link calls neither `onControl` nor `onStream`.
  abbrev pub unframed_sink : WireSink Logged
  unframed_sink = record {
    on_control = λ body. logged (on_control body);
    on_rpc = λ msg. logged (handle_rpc random msg);
    on_stream = λ msg. logged (handle_stream msg);
    on_error = λ code. logged (λ c. (c, enqueues (error code) ∷ []));
  }

  unfoldable pub route_bytes :
      JsonPlatform → ℕ → List ℕ → List ℕ → Linked → Result Exn (List ℕ × Linked)
  route_bytes json now buffer bytes s = feed_bytes json wire_sink now buffer bytes s

  unfoldable pub route_unframed : JsonPlatform → List ℕ → Logged → Logged
  route_unframed json bytes s = feed_unframed json unframed_sink bytes s

pub data EncodeError : Type 0 where
  fragment_fails : FragmentError → EncodeError
  not_supported : EncodeError

abbrev as_encode_error : {A : Type 0} → Result FragmentError A → Result EncodeError A
as_encode_error (returns a) = returns a
as_encode_error (throws e) = throws (fragment_fails e)

abbrev beside :
    Result FragmentError (List (List ℕ)) × FramedWireAdapter
    → Result EncodeError (List (List ℕ)) × FramedWireAdapter
beside (chunks, w) = (as_encode_error chunks, w)

-- encodeOut of a framed link and of an unframed one.
unfoldable pub encode_out :
    JsonPlatform
    → OutboundMessage
    → FramedWireAdapter
    → Result EncodeError (List (List ℕ)) × FramedWireAdapter
encode_out json (rpc msg) w = beside (encode_rpc json msg w)
encode_out json (control_body body) w = beside (encode_control_body body w)
encode_out json (stream msg) w = beside (encode_stream_payload msg w)

unfoldable pub encode_out_unframed :
    JsonPlatform → OutboundMessage → Result EncodeError (List (List ℕ))
encode_out_unframed json (rpc msg) = returns (encode_unframed json msg)
encode_out_unframed json (control_body body) = throws not_supported
encode_out_unframed json (stream msg) = throws not_supported
