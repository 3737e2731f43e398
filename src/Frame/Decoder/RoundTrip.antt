-- ===== src/Frame/Decoder/RoundTrip.antt =====
-- The decoder reads back what FrameEncoder wrote.
use axtp_ts_runtime.Common.{
  ℕ, ◌+◌, ◌-◌, ◌^◌, ◌≤◌, ◌<◌, List, [], ◌∷◌, ◌++◌, some, length, take, drop, returns, ◌≡◌, refl, ap,
  ◌∙◌, arith, length-append, le→ltb, inr, take-append_eq, drop-append_eq,
}
use axtp_ts_runtime.Io.Writer.{u8_bytes, u16_bytes}
use axtp_ts_runtime.Io.Reader.{ByteReader, new_reader, read_u16_strict}
use axtp_ts_runtime.Io.Reader.Laws.{
  Reads, >>=-Reads, pure-Reads, read_u8-Reads, read_u8_strict-Reads, read_u16_strict-Reads,
}
use axtp_ts_runtime.Io.Crc.{crc16, crc16-lt}
use axtp_ts_runtime.Model.{PayloadType, payload_type_code, Frame}
use axtp_ts_runtime.Frame.{axtp_version_1, to_payload_type, encode}
use axtp_ts_runtime.Frame.Decoder.Resync.{resync_magic}
use axtp_ts_runtime.Frame.Decoder.{
  resync_to_magic, HeaderFields, read_header, check_header, emits, check_crc, parse_body,
  parse_checked, parse_frame,
}

-- What a frame has to be to pass the checks of a decoder with this limit.
pub record IsSendable (max_frame_size : ℕ) (frame : Frame) : Type 0 where
  pub version_one : frame.header.version ≡ axtp_version_1
  pub length_agrees : frame.header.payload_length ≡ length frame.payload
  pub length_fits : length frame.payload < 2 ^ 16
  pub source_byte : frame.header.source_id < 256
  pub destination_byte : frame.header.destination_id < 256
  pub message_word : frame.header.message_id < 2 ^ 16
  pub index_below : frame.header.frame_index < frame.header.frame_count
  pub count_byte : frame.header.frame_count < 256
  pub within_limit : length frame.payload + 14 ≤ max_frame_size

abbrev pub header_bytes : Frame → List ℕ
header_bytes frame =
    0x41
    ∷ 0x58
    ∷ (u8_bytes h.version
        ++ (u8_bytes (payload_type_code h.payload_type)
            ++ (u16_bytes (length frame.payload)
                ++ (u8_bytes h.source_id
                    ++ (u8_bytes h.destination_id
                        ++ (u16_bytes h.message_id
                            ++ (u8_bytes h.frame_index ++ u8_bytes h.frame_count)))))))
  where
    open frame use {header as h}

-- The checksum that the encoder computes.
abbrev pub frame_crc : Frame → ℕ
frame_crc frame = crc16 (header_bytes frame ++ frame.payload)

pub encode-bytes :
    (frame : Frame)
    → encode frame ≡ header_bytes frame ++ (frame.payload ++ u16_bytes (frame_crc frame))
unfolding encode
encode-bytes frame = refl

payload_type_code-lt : (t : PayloadType) → payload_type_code t < 256
unfolding payload_type_code
payload_type_code-lt PayloadType.control = omega arith
payload_type_code-lt PayloadType.rpc = omega arith
payload_type_code-lt PayloadType.stream = omega arith

pub to_payload_type-code : (t : PayloadType) → to_payload_type (payload_type_code t) ≡ some t
unfolding to_payload_type payload_type_code
to_payload_type-code PayloadType.control = refl
to_payload_type-code PayloadType.rpc = refl
to_payload_type-code PayloadType.stream = refl

abbrev fields_of : Frame → HeaderFields
fields_of frame = record {
  version = frame.header.version;
  payload_type = payload_type_code frame.header.payload_type;
  payload_length = length frame.payload;
  source_id = frame.header.source_id;
  destination_id = frame.header.destination_id;
  message_id = frame.header.message_id;
  frame_index = frame.header.frame_index;
  frame_count = frame.header.frame_count;
}

read_header-Reads :
    (max_frame_size : ℕ) (frame : Frame)
    → IsSendable max_frame_size frame
    → Reads read_header (header_bytes frame) (fields_of frame)
unfolding read_header
read_header-Reads m frame v =
    let h = frame.header in
    let b₉ = u8_bytes h.frame_count in
    let b₈ = u8_bytes h.frame_index ++ b₉ in
    let b₇ = u16_bytes h.message_id ++ b₈ in
    let b₆ = u8_bytes h.destination_id ++ b₇ in
    let b₅ = u8_bytes h.source_id ++ b₆ in
    let b₄ = u16_bytes (length frame.payload) ++ b₅ in
    let b₃ = u8_bytes (payload_type_code h.payload_type) ++ b₄ in
    let b₂ = u8_bytes h.version ++ b₃ in
    >>=-Reads _ _ (0x41 ∷ []) (0x58 ∷ b₂) _ _ (read_u8-Reads 0x41) (
      >>=-Reads _ _ (0x58 ∷ []) b₂ _ _ (read_u8-Reads 0x58) (
        >>=-Reads _ _ (u8_bytes h.version) b₃ _ _ (read_u8_strict-Reads h.version (omega arith)) (
          >>=-Reads _ _ (u8_bytes (payload_type_code h.payload_type)) b₄ _ _
            (read_u8_strict-Reads _ (payload_type_code-lt h.payload_type))
            (>>=-Reads _ _ (u16_bytes (length frame.payload)) b₅ _ _
              (read_u16_strict-Reads _ v.length_fits)
              (>>=-Reads _ _ (u8_bytes h.source_id) b₆ _ _ (read_u8_strict-Reads _ v.source_byte) (
                >>=-Reads _ _ (u8_bytes h.destination_id) b₇ _ _
                  (read_u8_strict-Reads _ v.destination_byte)
                  (>>=-Reads _ _ (u16_bytes h.message_id) b₈ _ _
                    (read_u16_strict-Reads _ v.message_word)
                    (>>=-Reads _ _ (u8_bytes h.frame_index) b₉ _ _
                      (read_u8_strict-Reads h.frame_index (omega arith))
                      (>>=-Reads _ _ (u8_bytes h.frame_count) [] _ _
                        (read_u8_strict-Reads h.frame_count v.count_byte)
                        (pure-Reads (fields_of frame)))))))))))

check_header_sendable :
    (max_frame_size : ℕ) (frame : Frame)
    → IsSendable max_frame_size frame
    → check_header max_frame_size (fields_of frame) ≡ inr frame.header
unfolding check_header
check_header_sendable m frame v = ground (arith, to_payload_type-code frame.header.payload_type)

-- The frame as the decoder emits it: with the checksum that stood on the wire.
abbrev pub with_crc : Frame → Frame
with_crc frame = record frame { crc16 = frame_crc frame }

pub length-encode : (frame : Frame) → length (encode frame) ≡ 14 + length frame.payload
length-encode frame =
    rw (encode-bytes frame)
      (omega (arith, length-append frame.payload (u16_bytes (frame_crc frame))))

crc-Reads :
    (frame : Frame)
    → (r : ByteReader) × (read_u16_strict (new_reader (u16_bytes (frame_crc frame)))
        ≡ returns (frame_crc frame, r))
crc-Reads frame =
    let (r, e, u) =
      read_u16_strict-Reads (frame_crc frame) (crc16-lt _)
        (new_reader (u16_bytes (frame_crc frame))) [] refl in
    (r, e)

check_crc-encode :
    (frame : Frame) (total : ℕ) (rest : List ℕ)
    → frame.header.payload_length ≡ length frame.payload
    → total ≡ 14 + length frame.payload
    → check_crc frame.header total (encode frame) (encode frame ++ rest)
      ≡ emits (with_crc frame) rest
unfolding check_crc
check_crc-encode frame total rest agrees e =
    let h = header_bytes frame in
    let p = frame.payload in
    let c = u16_bytes (frame_crc frame) in
    let whole : encode frame ≡ (h ++ p) ++ c = encode-bytes frame in
    let size : total - 2 ≡ length (h ++ p) = omega (arith, length-append h p) in
    let tail : drop (total - 2) (encode frame) ≡ c =
      ap (drop (total - 2)) whole ∙ drop-append_eq (total - 2) (h ++ p) c size in
    let front : take (total - 2) (encode frame) ≡ h ++ p =
      ap (take (total - 2)) whole ∙ take-append_eq (total - 2) (h ++ p) c size in
    let body : take frame.header.payload_length (drop 12 (encode frame)) ≡ p =
      ap (λ l. take frame.header.payload_length (drop 12 l)) (encode-bytes frame)
      ∙ take-append_eq frame.header.payload_length p c agrees in
    let left : drop total (encode frame ++ rest) ≡ rest =
      drop-append_eq total (encode frame) rest (omega (arith, length-encode frame)) in
    let (r, got) = crc-Reads frame in ground (arith, tail, front, body, left, got)

pub parse_frame-encode :
    (max_frame_size : ℕ) (frame : Frame) (rest : List ℕ)
    → IsSendable max_frame_size frame
    → parse_frame max_frame_size (encode frame ++ rest) ≡ emits (with_crc frame) rest
unfolding parse_frame parse_checked parse_body
parse_frame-encode m frame rest v =
    let b = encode frame ++ rest in
    let total : ℕ = 12 + frame.header.payload_length + 2 in
    let size : length b ≡ 14 + length frame.payload + length rest =
      length-append (encode frame) rest ∙ ap (λ k. k + length rest) (length-encode frame) in
    let head : take 12 b ≡ header_bytes frame =
      ap (λ l. take 12 (l ++ rest)) (encode-bytes frame) in
    let (r, got, u) = read_header-Reads m frame v (new_reader (header_bytes frame)) [] refl in
    let cut : take total b ≡ encode frame =
      take-append_eq total (encode frame) rest (omega (arith, length-encode frame)) in
    rw
      (
        le→ltb (length b) 14 (omega arith),
        head,
        got,
        check_header_sendable m frame v,
        parse_frame,
        le→ltb (length b) total (omega arith),
        cut,
      )
      (check_crc-encode frame total rest v.length_agrees (omega arith))

resync-encode :
    (frame : Frame) (rest : List ℕ) → resync_to_magic (encode frame ++ rest) ≡ encode frame ++ rest
resync-encode frame rest = rw (encode-bytes frame) (resync_magic _)
