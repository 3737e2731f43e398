-- ===== src/Frame/Decoder/Delivery.antt =====
-- A run of encoded frames reaches the sink frame by frame.
use axtp_ts_runtime.Common.{
  ℕ, zero, suc, ◌<◌, List, [], ◌∷◌, ◌++◌, length, returns, ◌≡◌, ◌≢◌, refl, sym, ap, ◌∙◌, arith,
  length-append, All,
}
use axtp_ts_runtime.Model.{Frame}
use axtp_ts_runtime.Frame.{magic_0, magic_1, encode}
use axtp_ts_runtime.Frame.Decoder.{resync_to_magic, parse_frame, Sink, parse_loop, on_bytes, emits}
use axtp_ts_runtime.Frame.Decoder.Resync.{resync_noise, resync_magic}
use axtp_ts_runtime.Frame.Decoder.RoundTrip.{
  IsSendable, encode-bytes, length-encode, parse_frame-encode, with_crc,
}

abbrev pub encode_all : List Frame → List ℕ
encode_all [] = []
encode_all (frame ∷ frames) = encode frame ++ encode_all frames

magic_stays : (xs q rest : List ℕ) → xs ++ q ≡ magic_0 ∷ magic_1 ∷ rest → resync_to_magic xs ≡ xs
unfolding resync_to_magic
magic_stays [] q rest same = refl
magic_stays (x ∷ []) q rest same = let first : x ≡ magic_0 = cc same in rw first refl
magic_stays (x ∷ y ∷ xs) q rest same =
    let first : x ≡ magic_0 = cc same in
    let second : y ≡ magic_1 = cc same in rw (first, second) refl

-- A start of an encoded frame is no noise.
pub encode-stays :
    (xs q : List ℕ) (frame : Frame) (rest : List ℕ)
    → xs ++ q ≡ encode frame ++ rest
    → resync_to_magic xs ≡ xs
encode-stays xs q frame rest same =
    magic_stays xs q _ (same ∙ ap (λ l. l ++ rest) (encode-bytes frame))

pub loop_nothing :
    {S : Type 0} (sink : Sink S) (fuel : ℕ) (s : S) → parse_loop sink fuel [] s ≡ returns ([], s)
unfolding parse_loop resync_to_magic parse_frame
loop_nothing sink zero s = refl
loop_nothing sink (suc fuel) s = refl

module _ {S : Type 0} (sink : Sink S) where
  -- The frames handed over one by one.
  abbrev pub deliver : List Frame → S → S
  deliver [] s = s
  deliver (frame ∷ frames) s = deliver frames (sink.on_frame (with_crc frame) s)

  -- Each frame is within the limit that is in force when its turn comes.
  abbrev pub AreSendable : List Frame → S → Type 0
  AreSendable [] s = Unit {0}
  AreSendable (frame ∷ frames) s =
      IsSendable (sink.max_frame_size s) frame
      × AreSendable frames (sink.on_frame (with_crc frame) s)

  -- The round that finds an encoded frame behind the noise.
  pub round-encode :
      (noise : List ℕ) (frame : Frame) (rest : List ℕ) (s : S)
      → All (λ b. b ≢ magic_0) noise
      → IsSendable (sink.max_frame_size s) frame
      → parse_frame (sink.max_frame_size s) (resync_to_magic (noise ++ (encode frame ++ rest)))
        ≡ emits (with_crc frame) rest
  round-encode noise frame rest s quiet v =
      let found : resync_to_magic (noise ++ (encode frame ++ rest)) ≡ encode frame ++ rest =
        resync_noise noise (encode frame ++ rest) quiet
        ∙ ap (λ l. resync_to_magic (l ++ rest)) (encode-bytes frame)
        ∙ resync_magic _
        ∙ ap (λ l. l ++ rest) (sym (encode-bytes frame)) in
      ap (parse_frame (sink.max_frame_size s)) found
      ∙ parse_frame-encode (sink.max_frame_size s) frame rest v

  loop_frame :
      (fuel : ℕ) (noise : List ℕ) (frame : Frame) (rest : List ℕ) (s : S)
      → All (λ b. b ≢ magic_0) noise
      → IsSendable (sink.max_frame_size s) frame
      → parse_loop sink (suc fuel) (noise ++ (encode frame ++ rest)) s
        ≡ parse_loop sink fuel rest (sink.on_frame (with_crc frame) s)
  loop_frame fuel noise frame rest s quiet v =
      unfold parse_loop in rw (round-encode noise frame rest s quiet v, parse_loop)

  loop_frames :
      (fuel : ℕ) (frames : List Frame) (s : S)
      → length (encode_all frames) < fuel
      → AreSendable frames s
      → parse_loop sink fuel (encode_all frames) s ≡ returns ([], deliver frames s)
  loop_frames zero frames s h v = elim h [ ]
  loop_frames (suc fuel) [] s h v = unfold parse_loop resync_to_magic parse_frame in refl
  loop_frames (suc fuel) (frame ∷ frames) s h v =
      loop_frame fuel [] frame (encode_all frames) s tt v.0
      ∙ loop_frames fuel frames (sink.on_frame (with_crc frame) s)
          (omega (arith, length-append (encode frame) (encode_all frames), length-encode frame)) v.1

  -- A decoder with an empty buffer that is fed noise with no first magic byte, and then encoded
  -- frames, each within the limit of its turn, hands over exactly these frames in order, each with
  -- the checksum of the wire, reports no error, and is left with an empty buffer.
  pub on_bytes-encode_all :
      (noise : List ℕ) (frame : Frame) (frames : List Frame) (s : S)
      → All (λ b. b ≢ magic_0) noise
      → AreSendable (frame ∷ frames) s
      → on_bytes sink [] (noise ++ encode_all (frame ∷ frames)) s
        ≡ returns ([], deliver (frame ∷ frames) s)
  unfolding on_bytes
  on_bytes-encode_all noise frame frames s quiet v =
      let rest = encode_all frames in
      loop_frame (length (noise ++ (encode frame ++ rest))) noise frame rest s quiet v.0
      ∙ loop_frames _ frames (sink.on_frame (with_crc frame) s)
          (omega (
            arith,
            length-append noise (encode frame ++ rest),
            length-append (encode frame) rest,
            length-encode frame,
          ))
          v.1
