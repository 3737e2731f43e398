-- ===== src/Frame/Decoder/Characterisation.antt =====
-- Which buffers the decoder takes for a frame: the encodings of frames within the limits, followed
-- by anything. `Soundness` has the inversions of the parts of a round.
use mathlib.Core.List.{append_assoc}
use axtp_ts_runtime.Common.{
  ℕ, ◌+◌, ◌-◌, ◌≤◌, List, [], ◌∷◌, ◌++◌, length, take, drop, ◌≡◌, ◌↔◌, refl, sym, ap, ◌∙◌, subst,
  arith, ◌⊎◌, inl, inr, ltb, ltb→le, Bool-cases, length-take, length-drop, take-append-drop,
  take-add, take-take_le, length-eq-zero, All-take, All-drop,
}
use axtp_ts_runtime.Io.Writer.{IsByte, AreBytes, u16_bytes}
use axtp_ts_runtime.Io.Reader.{new_reader}
use axtp_ts_runtime.Io.Reader.Laws.{unread}
use axtp_ts_runtime.Io.Reader.Inversion.{read_u16_strict-Wrote}
use axtp_ts_runtime.Io.Crc.{crc16}
use axtp_ts_runtime.Model.{FrameHeader, Frame}
use axtp_ts_runtime.Frame.{encode, magic_0, magic_1}
use axtp_ts_runtime.Frame.Decoder.{
  HeaderFields, check_header, emits, check_crc, parse_body, parse_checked, parse_frame,
}
use axtp_ts_runtime.Frame.Decoder.RoundTrip.{
  IsSendable, header_bytes, frame_crc, encode-bytes, parse_frame-encode,
}
use axtp_ts_runtime.Frame.Decoder.Stability.{read_header_total}
use axtp_ts_runtime.Frame.Decoder.Soundness.{
  field_bytes, InRange, Passed, read_header_inv, check_header_inv, check_crc_inv,
}

-- A buffer that begins with the header of `frame`, then its payload and its checksum.
module _ (m : ℕ) (b : List ℕ) (frame : Frame) (h : HeaderFields) (total : ℕ)
    (passed : Passed m h frame.header) (range : InRange h)
    (total_eq : total ≡ 12 + frame.header.payload_length + 2) (enough : total ≤ length b)
    (head : take 12 b ≡ magic_0 ∷ magic_1 ∷ field_bytes h)
    (body : frame.payload ≡ take frame.header.payload_length (drop 12 (take total b)))
    (crc_ok : frame.crc16 ≡ crc16 (take (total - 2) (take total b)))
    (crc_bytes : drop (total - 2) (take total b) ≡ u16_bytes frame.crc16) where
  payload_length : length frame.payload ≡ frame.header.payload_length
  payload_length =
      ap length body
      ∙ omega (
        arith,
        length-take frame.header.payload_length (drop 12 (take total b)),
        length-drop 12 (take total b),
        length-take total b,
      )

  header_same : header_bytes frame ≡ magic_0 ∷ magic_1 ∷ field_bytes h
  header_same = cc (
    payload_length, passed.version_same, passed.type_code, passed.length_same, passed.source_same,
    passed.destination_same, passed.message_same, passed.index_same, passed.count_same,
  )

  covered : take (total - 2) (take total b) ≡ header_bytes frame ++ frame.payload
  covered =
      ap (λ n. take n (take total b)) size
      ∙ take-add 12 frame.header.payload_length (take total b)
      ∙ ap (λ l. l ++ take frame.header.payload_length (drop 12 (take total b)))
          (take-take_le 12 total b (omega arith) ∙ head ∙ sym header_same)
      ∙ ap (λ l. header_bytes frame ++ l) (sym body)
    where
      size : total - 2 ≡ 12 + frame.header.payload_length
      size = omega arith

  crc_same : frame.crc16 ≡ frame_crc frame
  crc_same = crc_ok ∙ ap crc16 covered

  segment : take total b ≡ encode frame
  segment =
      sym (take-append-drop (total - 2) (take total b))
      ∙ ap (λ l. l ++ drop (total - 2) (take total b)) covered
      ∙ ap (λ l. (header_bytes frame ++ frame.payload) ++ l) (crc_bytes ∙ ap u16_bytes crc_same)
      ∙ append_assoc (header_bytes frame) frame.payload (u16_bytes (frame_crc frame))
      ∙ sym (encode-bytes frame)

  sendable : IsSendable m frame
  sendable = record {
    version_one = omega (arith, passed.version_one, passed.version_same);
    length_agrees = sym payload_length;
    length_fits = omega (arith, payload_length, passed.length_same, range.length_word);
    source_byte = omega (arith, passed.source_same, range.source_byte);
    destination_byte = omega (arith, passed.destination_same, range.destination_byte);
    message_word = omega (arith, passed.message_same, range.message_word);
    index_below = omega (arith, passed.index_same, passed.count_same, passed.index_below);
    count_byte = omega (arith, passed.count_same, range.count_byte);
    within_limit = omega (arith, payload_length, passed.length_same, passed.within_limit);
  }

-- What it takes for a frame to come out of a buffer.
abbrev pub IsEncoded : ℕ → List ℕ → Frame → List ℕ → Type 0
IsEncoded m buffer frame rest =
    IsSendable m frame × (frame.crc16 ≡ frame_crc frame) × (buffer ≡ encode frame ++ rest)

parse_body_inv :
    (m : ℕ) (tail rest : List ℕ) (h : HeaderFields) (header : FrameHeader) (frame : Frame)
    → AreBytes tail
    → InRange h
    → Passed m h header
    → take 12 (magic_0 ∷ magic_1 ∷ tail) ≡ magic_0 ∷ magic_1 ∷ field_bytes h
    → parse_body header (magic_0 ∷ magic_1 ∷ tail) ≡ emits frame rest
    → IsEncoded m (magic_0 ∷ magic_1 ∷ tail) frame rest
unfolding parse_body
parse_body_inv m tail rest h header frame ok range passed head e =
    let b = magic_0 ∷ magic_1 ∷ tail in
    let total : ℕ = 12 + header.payload_length + 2 in
    elim (Bool-cases (ltb (length b) total)) [
      | inl short ↦ absurd (ground (arith, short))
      | inr long ↦
          let enough : total ≤ length b = ltb→le (length b) total long in
          let found : check_crc header total (take total b) b ≡ emits frame rest =
            rw (long, parse_body) at e in
          let (r, got, crc_ok, same, body, left) =
            check_crc_inv header total (take total b) b found in
          let passed' : Passed m h frame.header = subst (Passed m h) (sym same) passed in
          let lengths : header.payload_length ≡ frame.header.payload_length =
            ap (λ (x : FrameHeader). x.payload_length) (sym same) in
          let all_bytes : AreBytes (drop (total - 2) (take total b)) =
            All-drop IsByte (total - 2) (take total b)
              (All-take IsByte total b (omega arith, (omega arith, ok))) in
          let (wrote, ok', fits) =
            read_u16_strict-Wrote (new_reader _) frame.crc16 r all_bytes got in
          let nothing : unread r ≡ [] = length-eq-zero (unread r) (
            omega (
              arith,
              ap length wrote,
              length-drop (total - 2) (take total b),
              length-take total b,
            )) in
          let crc_bytes : drop (total - 2) (take total b) ≡ u16_bytes frame.crc16 =
            wrote ∙ ap (λ l. u16_bytes frame.crc16 ++ l) nothing in
          let body' : frame.payload ≡ take frame.header.payload_length (drop 12 (take total b)) =
            body ∙ ap (λ n. take n (drop 12 (take total b))) lengths in
          let total_eq : total ≡ 12 + frame.header.payload_length + 2 = omega arith in
          (
            sendable m b frame h total passed' range total_eq enough head body' crc_ok crc_bytes,
            crc_same m b frame h total passed' range total_eq enough head body' crc_ok crc_bytes,
            sym (take-append-drop total b)
                ∙ ap (λ l. l ++ drop total b)
                    (segment m b frame h total passed' range total_eq enough head body' crc_ok
                      crc_bytes)
                ∙ ap (λ l. encode frame ++ l) (sym left),
          )
    ]

parse_checked_inv :
    (m : ℕ) (tail rest : List ℕ) (h : HeaderFields) (frame : Frame)
    → AreBytes tail
    → InRange h
    → take 12 (magic_0 ∷ magic_1 ∷ tail) ≡ magic_0 ∷ magic_1 ∷ field_bytes h
    → (c : ℕ ⊎ FrameHeader) → check_header m h ≡ c
    → parse_checked c (magic_0 ∷ magic_1 ∷ tail) ≡ emits frame rest
    → IsEncoded m (magic_0 ∷ magic_1 ∷ tail) frame rest
unfolding parse_checked
parse_checked_inv m tail rest h frame ok range head (inl code) e found = absurd (cc found)
parse_checked_inv m tail rest h frame ok range head (inr header) e found =
    parse_body_inv m tail rest h header frame ok range (check_header_inv m h e) head found

parse_frame_inv :
    (m : ℕ) (tail : List ℕ) (frame : Frame) (rest : List ℕ)
    → AreBytes tail
    → parse_frame m (magic_0 ∷ magic_1 ∷ tail) ≡ emits frame rest
    → IsEncoded m (magic_0 ∷ magic_1 ∷ tail) frame rest
unfolding parse_frame
parse_frame_inv m tail frame rest ok e =
    let b = magic_0 ∷ magic_1 ∷ tail in
    elim (Bool-cases (ltb (length b) 14)) [
      | inl short ↦ absurd (cc (rw (short, parse_frame) at e))
      | inr enough ↦
          let long : 14 ≤ length b = ltb→le (length b) 14 enough in
          let (h, r, got) = read_header_total b long in
          let (fields, range) =
            read_header_inv (take 10 tail) (new_reader (take 12 b)) (All-take IsByte 10 tail ok)
              refl got in
          let nothing : unread r ≡ [] =
            length-eq-zero (unread r) (omega (arith, ap length fields, length-take 10 tail)) in
          let head : take 12 b ≡ magic_0 ∷ magic_1 ∷ field_bytes h =
            ap (λ l. magic_0 ∷ magic_1 ∷ l) (fields ∙ ap (λ l. field_bytes h ++ l) nothing) in
          parse_checked_inv m tail rest h frame ok range head (check_header m h) refl
            (rw (enough, got, parse_frame) at e)
    ]

-- On a buffer of bytes that begins with the magic, the decoder with this limit emits a frame, and
-- leaves `rest`, exactly when the buffer is the encoding of that frame followed by `rest`, the frame
-- is within the limits that the encoder's fields and the decoder's checks set, and its checksum is
-- the one of its encoding.
pub parse_frame_iff :
    (m : ℕ) (tail : List ℕ) (frame : Frame) (rest : List ℕ)
    → AreBytes tail
    → (parse_frame m (magic_0 ∷ magic_1 ∷ tail) ≡ emits frame rest)
      ↔ IsEncoded m (magic_0 ∷ magic_1 ∷ tail) frame rest
parse_frame_iff m tail frame rest ok = (
  parse_frame_inv m tail frame rest ok,
  λ (v, crc_ok, e).
      ap (parse_frame m) e
      ∙ parse_frame-encode m frame rest v
      ∙ ap (λ c. emits (record frame { crc16 = c }) rest) (sym crc_ok),
)
