-- ===== src/Frame/Decoder/Invariant.antt =====
-- The rule for what stands behind the decoder: an invariant of the sink that each genuine frame
-- and each error report keeps is kept by any input.
use axtp_ts_runtime.Common.{
  ℕ, zero, suc, ◌+◌, ◌-◌, List, ◌∷◌, ◌++◌, length, take, drop, Result, returns, throws, ◌≡◌, refl,
  sym, ap, ◌∙◌, subst, arith, ◌⊎◌, inl, inr, ltb, ltb→le, length-take, Bool-cases, All-append,
  All-append_right, All-drop,
}
use axtp_ts_runtime.Io.Writer.{IsByte, AreBytes}
use axtp_ts_runtime.Io.Reader.{Exn}
use axtp_ts_runtime.Model.{FrameHeader, Frame}
use axtp_ts_runtime.Frame.{encode, magic_0, magic_1}
use axtp_ts_runtime.Frame.Decoder.{
  resync_to_magic, Parsed, rejects, emits, check_header, check_crc, parse_body, parse_checked,
  parse_frame, Sink, parse_loop, on_bytes,
}
use axtp_ts_runtime.Frame.Decoder.Resync.{resync_suffix, resync_found}
use axtp_ts_runtime.Frame.Decoder.RoundTrip.{IsSendable, frame_crc}
use axtp_ts_runtime.Frame.Decoder.Stability.{read_header_total, read_crc_total}
use axtp_ts_runtime.Frame.Decoder.Chunking.{
  is_waiting, is_rejecting, is_emitting, round, not_waiting_long, loop_waits, loop_rejects,
  loop_emits,
}
use axtp_ts_runtime.Frame.Decoder.Characterisation.{parse_frame_iff}

-- A refused round drops one byte.
abbrev DropsOne : List ℕ → Parsed → Type 0
DropsOne buffer (rejects code rest) = rest ≡ drop 1 buffer
DropsOne buffer p = Unit {0}

parse_checked-DropsOne :
    (c : ℕ ⊎ FrameHeader) (buffer : List ℕ) → DropsOne buffer (parse_checked c buffer)
unfolding parse_checked parse_body check_crc
parse_checked-DropsOne (inl code) buffer = refl
parse_checked-DropsOne (inr h) buffer =
    elim (Bool-cases (ltb (length buffer) (12 + h.payload_length + 2))) [
      | inl short ↦ rw short tt
      | inr long ↦
          let total : ℕ = 12 + h.payload_length + 2 in
          let (crc, r, e) =
            read_crc_total (total - 2) (take total buffer)
              (omega (arith, length-take total buffer, ltb→le (length buffer) total long)) in
          ground (arith, long, e)
    ]

parse_frame-DropsOne : (m : ℕ) (buffer : List ℕ) → DropsOne buffer (parse_frame m buffer)
unfolding parse_frame
parse_frame-DropsOne m buffer = elim (Bool-cases (ltb (length buffer) 14)) [
  | inl short ↦ rw short tt
  | inr enough ↦
      let (h, r, e) = read_header_total buffer (ltb→le (length buffer) 14 enough) in
      rw (enough, e, parse_frame) (parse_checked-DropsOne (check_header m h) buffer)
]

module _ {S : Type 0} (sink : Sink S) (P : S → Type 0)
    (keep_frame : (s : S) (frame : Frame)
      → P s
      → IsSendable (sink.max_frame_size s) frame
      → frame.crc16 ≡ frame_crc frame
      → P (sink.on_frame frame s))
    (keep_error : (s : S) (code : ℕ) → P s → P (sink.on_error code s)) where
  -- The code returned, with bytes in the buffer and the invariant of the sink.
  abbrev pub Keeps : Result Exn (List ℕ × S) → Type 0
  Keeps (returns (buffer, s)) = AreBytes buffer × P s
  Keeps (throws e) = ⊥

  bytes_left : (buffer : List ℕ) → AreBytes buffer → AreBytes (resync_to_magic buffer)
  bytes_left buffer ok =
      let (skipped, e) = resync_suffix buffer in
      All-append_right IsByte skipped (resync_to_magic buffer) (subst AreBytes e ok)

  -- A frame that comes out of a buffer of bytes is genuine, and bytes are left.
  genuine :
      (m : ℕ) (buffer : List ℕ) (frame : Frame) (rest : List ℕ)
      → AreBytes buffer
      → parse_frame m (resync_to_magic buffer) ≡ emits frame rest
      → IsSendable m frame × (frame.crc16 ≡ frame_crc frame) × AreBytes rest
  genuine m buffer frame rest ok e =
      let long = not_waiting_long m (resync_to_magic buffer) (rw e (λ p. cc)) in
      let (tail, found) = resync_found buffer (omega arith) in
      let ok' : AreBytes (magic_0 ∷ magic_1 ∷ tail) = subst AreBytes found (bytes_left buffer ok) in
      let (v, crc_ok, same) =
        (parse_frame_iff m tail frame rest ok'.1.1).0 (ap (parse_frame m) (sym found) ∙ e) in
      (v, crc_ok, All-append_right IsByte (encode frame) rest (subst AreBytes same ok'))

  refused :
      (m : ℕ) (buffer : List ℕ) (code : ℕ) (rest : List ℕ)
      → AreBytes buffer
      → parse_frame m (resync_to_magic buffer) ≡ rejects code rest
      → AreBytes rest
  refused m buffer code rest ok e =
      let one : rest ≡ drop 1 (resync_to_magic buffer) =
        subst (DropsOne (resync_to_magic buffer)) e
          (parse_frame-DropsOne m (resync_to_magic buffer)) in
      subst AreBytes (sym one) (All-drop IsByte 1 (resync_to_magic buffer) (bytes_left buffer ok))

  parse_loop-Keeps :
      (fuel : ℕ) (buffer : List ℕ) (s : S)
      → AreBytes buffer
      → P s
      → Keeps (parse_loop sink fuel buffer s)
  parse_loop-Keeps zero buffer s ok p = unfold parse_loop in (ok, p)
  parse_loop-Keeps (suc fuel) buffer s ok p = elim (round (sink.max_frame_size s) _) [
    | is_waiting e ↦ rw (loop_waits sink fuel buffer s e) (bytes_left buffer ok, p)
    | is_rejecting code rest e ↦ rw (loop_rejects sink fuel buffer s code rest e) (
        parse_loop-Keeps fuel rest (sink.on_error code s)
          (refused (sink.max_frame_size s) buffer code rest ok e) (keep_error s code p))
    | is_emitting frame rest e ↦
        let (v, crc_ok, left) = genuine (sink.max_frame_size s) buffer frame rest ok e in
        rw (loop_emits sink fuel buffer s frame rest e)
          (parse_loop-Keeps fuel rest (sink.on_frame frame s) left (keep_frame s frame p v crc_ok))
  ]

  -- Whatever bytes arrive, `on_bytes` returns, keeps bytes in its buffer, and keeps every invariant
  -- of the sink that is kept by frames within the limits with a correct checksum and by errors.
  pub on_bytes-Keeps :
      (buffer bytes : List ℕ) (s : S)
      → AreBytes buffer
      → AreBytes bytes
      → P s
      → Keeps (on_bytes sink buffer bytes s)
  unfolding on_bytes
  on_bytes-Keeps buffer bytes s ok ok' p =
      parse_loop-Keeps _ (buffer ++ bytes) s (All-append IsByte buffer bytes ok ok') p
