-- ===== src/Frame/Decoder/Soundness.antt =====
-- Every frame that the decoder emits is, byte for byte, the encoding of a frame within the limits.
use axtp_ts_runtime.Common.{
  ℕ, ◌+◌, ◌-◌, ◌^◌, ◌≤◌, ◌<◌, List, ◌∷◌, ◌++◌, some, take, drop, Result, returns, throws, ◌≡◌, refl,
  sym, subst, arith, inl, inr, Option-cases,
}
use axtp_ts_runtime.Io.Writer.{AreBytes, u8_bytes, u16_bytes}
use axtp_ts_runtime.Io.Reader.{
  Exn, ByteReader, new_reader, read_u8, read_u8_strict, read_u16_strict,
}
use axtp_ts_runtime.Io.Reader.Laws.{unread}
use axtp_ts_runtime.Io.Reader.Inversion.{
  >>=-elim, returns-injective, read_u8-unread, read_u8_strict-Wrote, read_u16_strict-Wrote,
}
use axtp_ts_runtime.Io.Crc.{crc16}
use axtp_ts_runtime.Model.{PayloadType, payload_type_code, FrameHeader, Frame}
use axtp_ts_runtime.Frame.{to_payload_type, magic_0, magic_1}
use axtp_ts_runtime.Frame.Decoder.{HeaderFields, read_header, check_header, emits, check_crc}

-- The bytes behind the magic that the fields stand for.
abbrev pub field_bytes : HeaderFields → List ℕ
field_bytes h =
    u8_bytes h.version
    ++ (u8_bytes h.payload_type
        ++ (u16_bytes h.payload_length
            ++ (u8_bytes h.source_id
                ++ (u8_bytes h.destination_id
                    ++ (u16_bytes h.message_id
                        ++ (u8_bytes h.frame_index ++ u8_bytes h.frame_count))))))

pub record InRange (h : HeaderFields) : Type 0 where
  pub length_word : h.payload_length < 2 ^ 16
  pub source_byte : h.source_id < 256
  pub destination_byte : h.destination_id < 256
  pub message_word : h.message_id < 2 ^ 16
  pub count_byte : h.frame_count < 256

pub read_header_inv :
    (bytes : List ℕ) (r : ByteReader) {h : HeaderFields} {r' : ByteReader}
    → AreBytes bytes
    → unread r ≡ magic_0 ∷ magic_1 ∷ bytes
    → read_header r ≡ returns (h, r')
    → (bytes ≡ field_bytes h ++ unread r') × InRange h
unfolding read_header
read_header_inv bytes r {h} {r'} ok u e = >>=-elim read_u8 _ e λ m₀ r₀ e₀ n₀.
    >>=-elim read_u8 _ n₀ λ m₁ r₁ e₁ n₁. >>=-elim read_u8_strict _ n₁ λ version r₂ e₂ n₂.
      >>=-elim read_u8_strict _ n₂ λ payload_type r₃ e₃ n₃.
        >>=-elim read_u16_strict _ n₃ λ payload_length r₄ e₄ n₄.
          >>=-elim read_u8_strict _ n₄ λ source_id r₅ e₅ n₅.
            >>=-elim read_u8_strict _ n₅ λ destination_id r₆ e₆ n₆.
              >>=-elim read_u16_strict _ n₆ λ message_id r₇ e₇ n₇.
                >>=-elim read_u8_strict _ n₇ λ frame_index r₈ e₈ n₈.
                  >>=-elim read_u8_strict _ n₈ λ frame_count r₉ e₉ n₉.
                    let start : unread r₁ ≡ bytes =
                      read_u8-unread magic_1 bytes r₀
                        (read_u8-unread magic_0 (magic_1 ∷ bytes) r u e₀) e₁ in
                    let (w₂, ok₂, in₂) =
                      read_u8_strict-Wrote r₁ version r₂ (subst AreBytes (sym start) ok) e₂ in
                    let (w₃, ok₃, in₃) = read_u8_strict-Wrote r₂ payload_type r₃ ok₂ e₃ in
                    let (w₄, ok₄, in₄) = read_u16_strict-Wrote r₃ payload_length r₄ ok₃ e₄ in
                    let (w₅, ok₅, in₅) = read_u8_strict-Wrote r₄ source_id r₅ ok₄ e₅ in
                    let (w₆, ok₆, in₆) = read_u8_strict-Wrote r₅ destination_id r₆ ok₅ e₆ in
                    let (w₇, ok₇, in₇) = read_u16_strict-Wrote r₆ message_id r₇ ok₆ e₇ in
                    let (w₈, ok₈, in₈) = read_u8_strict-Wrote r₇ frame_index r₈ ok₇ e₈ in
                    let (w₉, ok₉, in₉) = read_u8_strict-Wrote r₈ frame_count r₉ ok₈ e₉ in
                    subst
                      (λ (p : HeaderFields × ByteReader).
                        (bytes ≡ field_bytes p.0 ++ unread p.1) × InRange p.0)
                      (returns-injective n₉)
                      (
                        cc (start, w₂, w₃, w₄, w₅, w₆, w₇, w₈, w₉),
                        record {
                          length_word = in₄;
                          source_byte = in₅;
                          destination_byte = in₆;
                          message_word = in₇;
                          count_byte = in₉;
                        },
                      )

to_payload_type_inv :
    (value : ℕ) (t : PayloadType) → to_payload_type value ≡ some t → value ≡ payload_type_code t
unfolding to_payload_type payload_type_code
to_payload_type_inv value PayloadType.control e = ground arith
to_payload_type_inv value PayloadType.rpc e = ground arith
to_payload_type_inv value PayloadType.stream e = ground arith

-- The header that passed, field by field.
pub record Passed (max_frame_size : ℕ) (h : HeaderFields) (header : FrameHeader) : Type 0 where
  pub version_one : h.version ≡ 1
  pub version_same : header.version ≡ h.version
  pub type_code : h.payload_type ≡ payload_type_code header.payload_type
  pub length_same : header.payload_length ≡ h.payload_length
  pub source_same : header.source_id ≡ h.source_id
  pub destination_same : header.destination_id ≡ h.destination_id
  pub message_same : header.message_id ≡ h.message_id
  pub index_same : header.frame_index ≡ h.frame_index
  pub count_same : header.frame_count ≡ h.frame_count
  pub index_below : h.frame_index < h.frame_count
  pub within_limit : h.payload_length + 14 ≤ max_frame_size

pub check_header_inv :
    (max_frame_size : ℕ) (h : HeaderFields) {header : FrameHeader}
    → check_header max_frame_size h ≡ inr header
    → Passed max_frame_size h header
unfolding check_header
check_header_inv m h {header} e = elim (Option-cases (to_payload_type h.payload_type)) [
  | inl unknown ↦ absurd (ground (arith, unknown))
  | inr (t, known) ↦
      let code = to_payload_type_inv h.payload_type t known in ground (arith, known, code)
]

pub check_crc_inv :
    (header : FrameHeader) (total : ℕ) (frame_bytes buffer : List ℕ) {frame : Frame} {rest : List ℕ}
    → check_crc header total frame_bytes buffer ≡ emits frame rest
    → (r : ByteReader) × (read_u16_strict (new_reader (drop (total - 2) frame_bytes))
        ≡ returns (frame.crc16, r))
      × (frame.crc16 ≡ crc16 (take (total - 2) frame_bytes))
      × (frame.header ≡ header)
      × (frame.payload ≡ take header.payload_length (drop 12 frame_bytes))
      × (rest ≡ drop total buffer)
unfolding check_crc
check_crc_inv header total frame_bytes buffer {frame} {rest} e =
    go (read_u16_strict (new_reader (drop (total - 2) frame_bytes))) refl
  where
    go :
        (x : Result Exn (ℕ × ByteReader))
        → read_u16_strict (new_reader (drop (total - 2) frame_bytes)) ≡ x
        → (r : ByteReader) × (read_u16_strict (new_reader (drop (total - 2) frame_bytes))
            ≡ returns (frame.crc16, r))
          × (frame.crc16 ≡ crc16 (take (total - 2) frame_bytes))
          × (frame.header ≡ header)
          × (frame.payload ≡ take header.payload_length (drop 12 frame_bytes))
          × (rest ≡ drop total buffer)
    go (throws x) p = absurd (ground (arith, p))
    go (returns (crc, r)) p = (
      r,
      ground (arith, p),
      ground (arith, p),
      ground (arith, p),
      ground (arith, p),
      ground (arith, p),
    )
