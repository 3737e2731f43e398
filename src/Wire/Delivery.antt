-- ===== src/Wire/Delivery.antt =====
-- A message framed by one adapter reaches the sink of another, however its bytes are cut.
use axtp_ts_runtime.Common.{
  ℕ, ◌+◌, ◌≤◌, ◌<◌, ◌^◌, List, [], ◌∷◌, ◌++◌, length, length-append, map, All, Result, returns,
  throws, ◌≡◌, refl, sym, ap, ◌∙◌, subst, arith,
}
use axtp_ts_runtime.Model.{PayloadType, Frame, Message}
use axtp_ts_runtime.Model.Json.{JsonPlatform}
use axtp_ts_runtime.Frame.{encode}
use axtp_ts_runtime.Frame.Decoder.Delivery.{encode_all}
use axtp_ts_runtime.Frame.Decoder.RoundTrip.{IsSendable, length-encode}
use axtp_ts_runtime.Frame.Fragmenter.{FragmentError, fragment}
use axtp_ts_runtime.Frame.Fragmenter.Laws.{AreParts, Fragmented, fragment-Fragmented}
use axtp_ts_runtime.Frame.Reassembler.{on_message}
use axtp_ts_runtime.Frame.Reassembler.Completion.{joined}
use axtp_ts_runtime.Frame.Reassembler.Completion.Runs.{
  frames_of, Timely, Completes, fragment-Completes,
}
use axtp_ts_runtime.Wire.Span.{IsIn, AreIn, Awaits, Completes-Awaits}
use axtp_ts_runtime.Wire.Pieces.{bytes_of, feed_all, feed_all-Awaits}
use axtp_ts_runtime.Wire.{FramedWireAdapter, WireSink, dispatch_payload, frame_payload, encoded}

-- An adapter with no message under way.
abbrev pub idle : FramedWireAdapter → FramedWireAdapter
idle a = record a { reassembler = record a.reassembler { assemblies = [] } }

widen :
    (limit wider : ℕ) (frame : Frame)
    → limit ≤ wider
    → IsSendable limit frame
    → IsSendable wider frame
widen limit wider frame h v = omega arith

parts-IsSendable :
    (message : Message) (id count limit wider i : ℕ) (frames : List Frame)
    → limit ≤ wider
    → AreParts message id count limit i frames
    → All (IsSendable wider) frames
parts-IsSendable message id count limit wider i [] h parts = tt
parts-IsSendable message id count limit wider i (frame ∷ frames) h parts = (
  widen limit wider frame h parts.4,
  parts-IsSendable message id count limit wider (i + 1) frames h parts.5,
)

joined-encode : (frames : List Frame) → joined (map encode frames) ≡ encode_all frames
joined-encode [] = refl
joined-encode (frame ∷ frames) = ap (λ l. encode frame ++ l) (joined-encode frames)

-- However the frames of the message come in within the timeout, they complete it.
parts-Awaits :
    (start : ℕ) (w : FramedWireAdapter) (message : Message) (frames : List Frame)
    (a : FramedWireAdapter)
    → length message.body ≤ a.reassembler.max_message_size
    → Fragmented w.fragmenter message (returns frames)
    → Awaits start a.reassembler.assembly_timeout_ms
        (
          (idle a).reassembler,
          on_message (record message { message_id = w.fragmenter.next_message_id }) ∷ [],
        )
        frames
        (idle a).reassembler
parts-Awaits start w message frames a room parts =
    Completes-Awaits start a.reassembler.assembly_timeout_ms _ frames (idle a).reassembler
      λ stamped same inside. completes stamped same inside
  where
    timely :
        (now : ℕ) (rest : List (ℕ × Frame))
        → IsIn start a.reassembler.assembly_timeout_ms now
        → AreIn start a.reassembler.assembly_timeout_ms rest
        → Timely now a.reassembler.assembly_timeout_ms rest
    timely now [] first inside = tt
    timely now ((then, frame) ∷ rest) first inside =
        (omega (arith, first, inside.0), timely now rest first inside.1)

    completes :
        (stamped : List (ℕ × Frame))
        → frames_of stamped ≡ frames
        → AreIn start a.reassembler.assembly_timeout_ms stamped
        → Completes stamped (idle a).reassembler (
          (idle a).reassembler,
          on_message (record message { message_id = w.fragmenter.next_message_id }) ∷ [],
        )
    completes [] same inside =
        let none_left : frames ≡ [] = sym same in
        let some_frames : 0 < length frames = parts.2 in
        absurd (omega (arith, some_frames, ap length none_left))
    completes ((now, frame) ∷ rest) same inside =
        fragment-Completes w.fragmenter message now frame rest a.reassembler
          (subst (λ l. Fragmented w.fragmenter message (returns l)) (sym same) parts)
          (timely now rest inside.0 inside.1) room

module _ {T : Type 0} (json : JsonPlatform) (sink : WireSink (FramedWireAdapter × T))
    (start : ℕ) where
  some_bytes : (frames : List Frame) → 0 < length frames → 0 < length (encode_all frames)
  some_bytes [] h = absurd (omega arith)
  some_bytes (frame ∷ frames) h =
      omega (arith, length-encode frame, length-append (encode frame) (encode_all frames))

  all_arrives :
      (w : FramedWireAdapter) (type : PayloadType) (body : List ℕ)
      (cut : Result FragmentError (List Frame)) (chunks : List (List ℕ))
      (pieces : List (ℕ × List ℕ)) (a : FramedWireAdapter) (t : T)
      → encoded cut ≡ returns chunks
      → bytes_of pieces ≡ joined chunks
      → AreIn start a.reassembler.assembly_timeout_ms pieces
      → w.fragmenter.max_frame_size ≤ a.max_frame_size
      → length body ≤ a.reassembler.max_message_size
      → Fragmented w.fragmenter (record { message_id = 0; payload_type = type; body = body }) cut
      → feed_all json sink pieces [] (idle a, t)
        ≡ returns ([], dispatch_payload json sink type body (idle a, t))
  all_arrives w type body (throws e) chunks pieces a t framed same inside limits room parts =
      absurd (cc framed)
  all_arrives w type body (returns frames) chunks pieces a t framed same inside limits room parts =
      let message : Message = record { message_id = 0; payload_type = type; body = body } in
      let chunks_eq : map encode frames ≡ chunks = cc framed in
      let bytes_eq : bytes_of pieces ≡ encode_all frames =
        same ∙ ap joined (sym chunks_eq) ∙ joined-encode frames in
      feed_all-Awaits json sink start a.reassembler.assembly_timeout_ms (idle a) t
        (record message { message_id = w.fragmenter.next_message_id }) (idle a).reassembler pieces
        [] frames (idle a).reassembler inside
        (omega (arith, some_bytes frames parts.2, ap length bytes_eq)) bytes_eq
        (parts-Awaits start w message frames a room parts)
        (parts-IsSendable message w.fragmenter.next_message_id (length frames)
          w.fragmenter.max_frame_size a.max_frame_size 0 frames limits parts.0)

  -- The chunks into which one adapter frames a payload, with its id and frame limit in range, are
  -- concatenated and cut in any other way; the pieces are fed one by one, each at a time of its own,
  -- which does not change during the feed, none later than the assembly timeout after a start that
  -- none precedes, to an adapter with an empty buffer and no message under way, whose limits let the
  -- frames and the body in. They cause exactly one dispatch, of the payload's type and whole body,
  -- and no error, and leave the buffer empty.
  pub feed_all-frame_payload :
      (w : FramedWireAdapter) (type : PayloadType) (body : List ℕ) (chunks : List (List ℕ))
      (pieces : List (ℕ × List ℕ)) (a : FramedWireAdapter) (t : T)
      → w.fragmenter.next_message_id < 2 ^ 16
      → 14 ≤ w.fragmenter.max_frame_size
      → w.fragmenter.max_frame_size < 2 ^ 16 + 14
      → (frame_payload type body w).0 ≡ returns chunks
      → bytes_of pieces ≡ joined chunks
      → AreIn start a.reassembler.assembly_timeout_ms pieces
      → w.fragmenter.max_frame_size ≤ a.max_frame_size
      → length body ≤ a.reassembler.max_message_size
      → feed_all json sink pieces [] (idle a, t)
        ≡ returns ([], dispatch_payload json sink type body (idle a, t))
  unfolding frame_payload
  feed_all-frame_payload w type body chunks pieces a t id_word limit_min limit_word framed same
        inside limits room =
      let message : Message = record { message_id = 0; payload_type = type; body = body } in
      all_arrives w type body (fragment w.fragmenter message).0 chunks pieces a t framed same inside
        limits room (fragment-Fragmented w.fragmenter message id_word limit_min limit_word)
