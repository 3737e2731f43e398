-- ===== src/Wire/Pieces.antt =====
-- The frames of a message, fed to an adapter in pieces of bytes, each at a time of its own.
use mathlib.Core.List.{append-nil, append_assoc}
use axtp_ts_runtime.Common.{
  ℕ, zero, suc, ◌<◌, List, [], ◌∷◌, ◌++◌, length, All, Result, returns, ◌>>=◌, ◌≡◌, refl, ap, ◌∙◌,
  arith,
}
use axtp_ts_runtime.Io.Reader.{Exn}
use axtp_ts_runtime.Model.{Frame, Message}
use axtp_ts_runtime.Model.Json.{JsonPlatform}
use axtp_ts_runtime.Frame.Decoder.{resync_to_magic, parse_frame, waits, emits, parse_loop, on_bytes}
use axtp_ts_runtime.Frame.Decoder.Chunking.{
  Round, shrinks, round, is_waiting, is_rejecting, is_emitting, round_of, round-append, loop_waits,
  loop_emits,
}
use axtp_ts_runtime.Frame.Decoder.Resync.{length-resync_le}
use axtp_ts_runtime.Frame.Decoder.Stability.{extend}
use axtp_ts_runtime.Frame.Decoder.Delivery.{encode-stays, encode_all, loop_nothing, round-encode}
use axtp_ts_runtime.Frame.Decoder.RoundTrip.{IsSendable, with_crc}
use axtp_ts_runtime.Frame.Reassembler.{MessageReassembler, Output, on_message, on_frame}
use axtp_ts_runtime.Frame.Reassembler.Completion.Runs.{on_frame-with_crc}
use axtp_ts_runtime.Wire.Span.{IsIn, AreIn, Awaits}
use axtp_ts_runtime.Wire.{
  FramedWireAdapter, WireSink, dispatch_payload, hand_over, take_frame, decoder_sink, feed_bytes,
}

abbrev pub bytes_of : List (ℕ × List ℕ) → List ℕ
bytes_of [] = []
bytes_of ((now, piece) ∷ rest) = piece ++ bytes_of rest

module _ {T : Type 0} (json : JsonPlatform) (sink : WireSink (FramedWireAdapter × T)) where
  -- The pieces, each fed at its time.
  abbrev pub feed_all :
      List (ℕ × List ℕ)
      → List ℕ
      → FramedWireAdapter × T
      → Result Exn (List ℕ × (FramedWireAdapter × T))
  feed_all [] buffer s = returns (buffer, s)
  feed_all ((now, piece) ∷ pieces) buffer s =
      feed_bytes json sink now buffer piece s >>= λ (rest, s'). feed_all pieces rest s'

module _ {T : Type 0} (json : JsonPlatform) (sink : WireSink (FramedWireAdapter × T))
    (start timeout : ℕ) (w : FramedWireAdapter) (t : T) (m : Message)
    (last : MessageReassembler) where
  abbrev at : MessageReassembler → FramedWireAdapter × T
  at r = (record w { reassembler = r }, t)

  abbrev done : List ℕ × (FramedWireAdapter × T)
  done = ([], dispatch_payload json sink m.payload_type m.body (at last))

  abbrev outcome : MessageReassembler × List Output
  outcome = (last, on_message m ∷ [])

  -- Bytes before `q` were fed: some of the frames are still to come, or all of them are through.
  data Fed (q : List ℕ) (result : Result Exn (List ℕ × (FramedWireAdapter × T))) : Type 0 where
    is_short :
        (b : List ℕ) (frames : List Frame) (r : MessageReassembler)
        → 0 < length q
        → result ≡ returns (b, at r)
        → b ++ q ≡ encode_all frames
        → Awaits start timeout outcome frames r
        → All (IsSendable w.max_frame_size) frames
        → Fed q result
    is_whole : q ≡ [] → result ≡ returns done → Fed q result

  Fed-path :
      (q : List ℕ) (x y : Result Exn (List ℕ × (FramedWireAdapter × T))) → x ≡ y → Fed q y → Fed q x
  Fed-path q x y e (is_short b frames r pos is same later ok) =
      is_short b frames r pos (e ∙ is) same later ok
  Fed-path q x y e (is_whole none_left is) = is_whole none_left (e ∙ is)

  take_frame_eq :
      (now : ℕ) (frame : Frame) (r r' : MessageReassembler) (outputs : List Output)
      → on_frame now frame r ≡ (r', outputs)
      → take_frame json sink now (with_crc frame) (at r) ≡ hand_over json sink outputs (at r')
  unfolding take_frame
  take_frame_eq now frame r r' outputs e = rw (on_frame-with_crc now frame r, e) refl

  empty_parts : (xs ys : List ℕ) → xs ++ ys ≡ [] → (xs ≡ []) × (ys ≡ [])
  empty_parts [] ys e = (refl, e)
  empty_parts (x ∷ xs) ys e = absurd (cc e)

  round_whole :
      (now : ℕ) (xs q : List ℕ) (frame : Frame) (frames : List Frame) (r : MessageReassembler)
      → xs ++ q ≡ encode_all (frame ∷ frames)
      → IsSendable w.max_frame_size frame
      → round_of (decoder_sink json sink now) (xs ++ q) (at r)
        ≡ emits (with_crc frame) (encode_all frames)
  round_whole now xs q frame frames r same ok =
      ap (λ l. parse_frame w.max_frame_size (resync_to_magic l)) same
      ∙ round-encode (decoder_sink json sink now) [] frame (encode_all frames) (at r) tt ok

  -- The decoder waits within a frame, so more bytes are to come.
  waiting :
      (now : ℕ) (xs q : List ℕ) (frame : Frame) (frames : List Frame) (r : MessageReassembler)
      → round_of (decoder_sink json sink now) xs (at r) ≡ waits
      → xs ++ q ≡ encode_all (frame ∷ frames)
      → IsSendable w.max_frame_size frame
      → 0 < length q
  waiting now xs [] frame frames r e same ok =
      let whole = round_whole now xs [] frame frames r same ok in
      let e' : round_of (decoder_sink json sink now) (xs ++ []) (at r) ≡ waits =
        ap (λ l. round_of (decoder_sink json sink now) l (at r)) (append-nil xs) ∙ e in
      absurd (cc (whole, e'))
  waiting now xs (x ∷ q) frame frames r e same ok = omega arith

  feed_prefix :
      (now fuel : ℕ) (xs q : List ℕ) (frames : List Frame) (r : MessageReassembler)
      → IsIn start timeout now
      → length xs < fuel
      → xs ++ q ≡ encode_all frames
      → Awaits start timeout outcome frames r
      → All (IsSendable w.max_frame_size) frames
      → Fed q (parse_loop (decoder_sink json sink now) fuel xs (at r))
  unfolding hand_over
  feed_prefix now zero xs q frames r inside enough same waits_for ok = elim enough [ ]
  feed_prefix now (suc fuel) xs q [] r inside enough same waits_for ok = absurd waits_for
  feed_prefix now (suc fuel) xs q (frame ∷ frames) r inside enough same waits_for ok =
      by_round (round w.max_frame_size (resync_to_magic xs))
        (λ rest next more r'. feed_prefix now fuel rest q (next ∷ more) r' inside)
    where
      GoesOn : Type 0
      GoesOn =
          (rest : List ℕ) (next : Frame) (more : List Frame) (r' : MessageReassembler)
          → length rest < fuel
          → rest ++ q ≡ encode_all (next ∷ more)
          → Awaits start timeout outcome (next ∷ more) r'
          → All (IsSendable w.max_frame_size) (next ∷ more)
          → Fed q (parse_loop (decoder_sink json sink now) fuel rest (at r'))

      taken :
          (f : Frame) (rest : List ℕ)
          → round_of (decoder_sink json sink now) xs (at r) ≡ emits f rest
          → (f ≡ with_crc frame) × (rest ++ q ≡ encode_all frames)
      taken f rest e =
          let whole = round_whole now xs q frame frames r same ok.0 in
          let more =
            round-append (decoder_sink json sink now) xs q (at r) (λ p. absurd (cc (p, e)))
            ∙ ap (λ p. extend p q) e in
          (cc (whole, more), cc (whole, more))

      by_frames :
          (frames : List Frame) (rest : List ℕ)
          → length rest < fuel
          → rest ++ q ≡ encode_all frames
          → Awaits start timeout outcome (frame ∷ frames) r
          → All (IsSendable w.max_frame_size) frames
          → GoesOn
          → Fed q (
              parse_loop
                (decoder_sink json sink now)
                fuel
                rest
                (take_frame json sink now (with_crc frame) (at r)))
      by_frames [] rest less left waits_for ok goes_on =
          let gone = empty_parts rest q left in
          is_whole gone.1 (
            rw (gone.0, take_frame_eq now frame r last (on_message m ∷ []) (waits_for now inside))
              (loop_nothing (decoder_sink json sink now) fuel _))
      by_frames (next ∷ more) rest less left waits_for ok goes_on =
          let (silent, later) = waits_for now inside in
          let r' : MessageReassembler = (on_frame now frame r).0 in
          rw (take_frame_eq now frame r r' [] (ap (λ l. (r', l)) silent))
            (goes_on rest next more r' less left later ok)

      by_round :
          Round (parse_frame w.max_frame_size (resync_to_magic xs))
          → GoesOn
          → Fed q (parse_loop (decoder_sink json sink now) (suc fuel) xs (at r))
      by_round (is_waiting e) goes_on =
          is_short xs (frame ∷ frames) r (waiting now xs q frame frames r e same ok.0)
            (loop_waits (decoder_sink json sink now) fuel xs (at r) e
              ∙ ap (λ b. returns (b, at r)) (encode-stays xs q frame (encode_all frames) same))
            same waits_for ok
      by_round (is_rejecting code rest e) goes_on = absurd (
          cc (
            round_whole now xs q frame frames r same ok.0,
            round-append (decoder_sink json sink now) xs q (at r) (λ p. absurd (cc (p, e)))
                ∙ ap (λ p. extend p q) e,
          ))
      by_round (is_emitting f rest e) goes_on =
          let (one, left) = taken f rest e in
          let shorter = shrinks w.max_frame_size xs _ e in
          Fed-path q _ _ (loop_emits (decoder_sink json sink now) fuel xs (at r) f rest e) (
            rw one (
              by_frames frames rest (omega (arith, shorter, length-resync_le xs)) left waits_for
                ok.1 goes_on))

  feed_all_nothing :
      (pieces : List (ℕ × List ℕ)) (s : FramedWireAdapter × T)
      → bytes_of pieces ≡ []
      → feed_all json sink pieces [] s ≡ returns ([], s)
  unfolding feed_bytes on_bytes
  feed_all_nothing [] s none_left = refl
  feed_all_nothing ((now, piece) ∷ pieces) s none_left =
      let gone = empty_parts piece (bytes_of pieces) none_left in
      rw gone.0
        (rw (loop_nothing (decoder_sink json sink now) 1 s) (feed_all_nothing pieces s gone.1))

  pub feed_all-Awaits :
      (pieces : List (ℕ × List ℕ)) (buffer : List ℕ) (frames : List Frame) (r : MessageReassembler)
      → AreIn start timeout pieces
      → 0 < length (bytes_of pieces)
      → buffer ++ bytes_of pieces ≡ encode_all frames
      → Awaits start timeout outcome frames r
      → All (IsSendable w.max_frame_size) frames
      → feed_all json sink pieces buffer (at r) ≡ returns done
  unfolding feed_bytes on_bytes
  feed_all-Awaits [] buffer frames r inside more same waits_for ok = absurd (omega arith)
  feed_all-Awaits ((now, piece) ∷ pieces) buffer frames r inside more same waits_for ok =
      let all = buffer ++ piece in
      by_fed
        (feed_prefix now (suc (length all)) all (bytes_of pieces) frames r inside.0 (omega arith)
          (append_assoc buffer piece (bytes_of pieces) ∙ same) waits_for ok)
        (λ b frames' r'. feed_all-Awaits pieces b frames' r' inside.1)
    where
      by_fed :
          Fed (bytes_of pieces) (
            parse_loop
              (decoder_sink json sink now)
              (suc (length (buffer ++ piece)))
              (buffer ++ piece)
              (at r))
          → ((b : List ℕ) (frames' : List Frame) (r' : MessageReassembler)
              → 0 < length (bytes_of pieces)
              → b ++ bytes_of pieces ≡ encode_all frames'
              → Awaits start timeout outcome frames' r'
              → All (IsSendable w.max_frame_size) frames'
              → feed_all json sink pieces b (at r') ≡ returns done)
          → feed_all json sink ((now, piece) ∷ pieces) buffer (at r) ≡ returns done
      by_fed (is_short b frames' r' pos is left later ok') goes_on =
          rw is (goes_on b frames' r' pos left later ok')
      by_fed (is_whole gone is) goes_on = rw is (feed_all_nothing pieces done.1 gone)
