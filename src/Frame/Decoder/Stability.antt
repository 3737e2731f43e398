-- ===== src/Frame/Decoder/Stability.antt =====
-- One round of the decoder: it never throws, it takes a byte at least unless it waits, and it does
-- not change when more bytes stand behind those that it looked at.
use axtp_ts_runtime.Common.{
  ℕ, ◌+◌, ◌-◌, ◌≤◌, ◌<◌, List, ◌++◌, length, take, drop, returns, ltb, ◌≡◌, ap, ◌⊎◌, inl, inr,
  arith, take-append_le, drop-append_le, length-take, length-drop, length-append, ltb→le, le→ltb,
  Bool-cases,
}
use axtp_ts_runtime.Io.Reader.{ByteReader, remaining, new_reader, read_u16_strict}
use axtp_ts_runtime.Io.Reader.Totality.{
  Takes, >>=-Takes, pure-Takes, read_u8-Takes, read_u8_strict-Takes, read_u16_strict-Takes,
}
use axtp_ts_runtime.Model.{FrameHeader}
use axtp_ts_runtime.Frame.Decoder.{
  HeaderFields, read_header, check_header, Parsed, waits, rejects, emits, crashes, check_crc,
  parse_body, parse_checked, parse_frame,
}

read_header-Takes : Takes read_header 12
unfolding read_header
read_header-Takes = >>=-Takes _ _ 1 11 read_u8-Takes λ m₀. >>=-Takes _ _ 1 10 read_u8-Takes λ m₁.
    >>=-Takes _ _ 1 9 read_u8_strict-Takes λ version.
      >>=-Takes _ _ 1 8 read_u8_strict-Takes λ payload_type.
        >>=-Takes _ _ 2 6 read_u16_strict-Takes λ payload_length.
          >>=-Takes _ _ 1 5 read_u8_strict-Takes λ source_id.
            >>=-Takes _ _ 1 4 read_u8_strict-Takes λ destination_id.
              >>=-Takes _ _ 2 2 read_u16_strict-Takes λ message_id.
                >>=-Takes _ _ 1 1 read_u8_strict-Takes
                  λ frame_index. >>=-Takes _ _ 1 0 read_u8_strict-Takes λ frame_count. pure-Takes _

remaining-new : (xs : List ℕ) → remaining (new_reader xs) ≡ length xs
unfolding remaining
remaining-new xs = omega arith

pub read_header_total :
    (buffer : List ℕ)
    → 14 ≤ length buffer
    → (h : HeaderFields) × (r : ByteReader) × (read_header (new_reader (take 12 buffer))
        ≡ returns (h, r))
read_header_total buffer long =
    let (h, r, e, u) =
      read_header-Takes (new_reader (take 12 buffer))
        (omega (arith, remaining-new (take 12 buffer), length-take 12 buffer)) in
    (h, r, e)

pub read_crc_total :
    (n : ℕ) (bytes : List ℕ)
    → n + 2 ≤ length bytes
    → (crc : ℕ) × (r : ByteReader) × (read_u16_strict (new_reader (drop n bytes))
        ≡ returns (crc, r))
read_crc_total n bytes long =
    let (crc, r, e, u) =
      read_u16_strict-Takes (new_reader (drop n bytes))
        (omega (arith, remaining-new (drop n bytes), length-drop n bytes)) in
    (crc, r, e)

-- More bytes behind what a round leaves.
abbrev pub extend : Parsed → List ℕ → Parsed
extend waits ys = waits
extend (rejects code rest) ys = rejects code (rest ++ ys)
extend (emits frame rest) ys = emits frame (rest ++ ys)
extend (crashes e) ys = crashes e

-- A round that does not wait leaves fewer bytes than there were, and does not throw.
abbrev pub Shrinks : ℕ → Parsed → Type 0
Shrinks n waits = Unit {0}
Shrinks n (rejects code rest) = length rest < n
Shrinks n (emits frame rest) = length rest < n
Shrinks n (crashes e) = ⊥

check_crc-Shrinks :
    (h : FrameHeader) (buffer : List ℕ)
    → 12 + h.payload_length + 2 ≤ length buffer
    → Shrinks
        (length buffer)
        (check_crc h (12 + h.payload_length + 2) (take (12 + h.payload_length + 2) buffer) buffer)
unfolding check_crc
check_crc-Shrinks h buffer long =
    let total : ℕ = 12 + h.payload_length + 2 in
    let (crc, r, e) =
      read_crc_total (total - 2) (take total buffer) (omega (arith, length-take total buffer)) in
    ground (arith, e, length-drop total buffer, length-drop 1 buffer)

check_crc-append :
    (h : FrameHeader) (buffer ys bytes : List ℕ)
    → 12 + h.payload_length + 2 ≤ length buffer
    → check_crc h (12 + h.payload_length + 2) bytes (buffer ++ ys)
      ≡ extend (check_crc h (12 + h.payload_length + 2) bytes buffer) ys
unfolding check_crc
check_crc-append h buffer ys bytes long = ground (
  arith,
  drop-append_le 1 buffer ys (omega arith),
  drop-append_le (12 + h.payload_length + 2) buffer ys (omega arith),
)

-- `parse_checked` behind a header that passed or failed its checks.
parse_checked-Shrinks :
    (c : ℕ ⊎ FrameHeader) (buffer : List ℕ)
    → 14 ≤ length buffer
    → Shrinks (length buffer) (parse_checked c buffer)
unfolding parse_checked parse_body
parse_checked-Shrinks (inl code) buffer long = omega (arith, length-drop 1 buffer)
parse_checked-Shrinks (inr h) buffer long =
    elim (Bool-cases (ltb (length buffer) (12 + h.payload_length + 2))) [
      | inl short ↦ rw short tt
      | inr enough ↦ rw enough (check_crc-Shrinks h buffer (ltb→le _ _ enough))
    ]

pub parse_frame-Shrinks :
    (max_frame_size : ℕ) (buffer : List ℕ)
    → Shrinks (length buffer) (parse_frame max_frame_size buffer)
unfolding parse_frame
parse_frame-Shrinks m buffer = elim (Bool-cases (ltb (length buffer) 14)) [
  | inl short ↦ rw short tt
  | inr enough ↦
      let long = ltb→le (length buffer) 14 enough in
      let (h, r, e) = read_header_total buffer long in
      rw (enough, e, parse_frame) (parse_checked-Shrinks (check_header m h) buffer long)
]

parse_checked-append :
    (c : ℕ ⊎ FrameHeader) (buffer ys : List ℕ)
    → 14 ≤ length buffer
    → (parse_checked c buffer ≡ waits)
      ⊎ (parse_checked c (buffer ++ ys) ≡ extend (parse_checked c buffer) ys)
unfolding parse_checked parse_body
parse_checked-append (inl code) buffer ys long =
    inr (ap (rejects code) (drop-append_le 1 buffer ys (omega arith)))
parse_checked-append (inr h) buffer ys long =
    let total : ℕ = 12 + h.payload_length + 2 in
    elim (Bool-cases (ltb (length buffer) total)) [
      | inl short ↦ inl (rw short)
      | inr enough ↦
          let fits = ltb→le (length buffer) total enough in
          inr (
            rw
              (
                enough,
                le→ltb (length (buffer ++ ys)) total (omega (arith, length-append buffer ys)),
                take-append_le total buffer ys fits,
              )
              (check_crc-append h buffer ys (take total buffer) fits))
    ]

-- A round that does not wait for more bytes is the same with more bytes behind the buffer.
pub parse_frame-append :
    (max_frame_size : ℕ) (buffer ys : List ℕ)
    → (parse_frame max_frame_size buffer ≡ waits)
      ⊎ (parse_frame max_frame_size (buffer ++ ys) ≡ extend (parse_frame max_frame_size buffer) ys)
unfolding parse_frame
parse_frame-append m buffer ys = elim (Bool-cases (ltb (length buffer) 14)) [
  | inl short ↦ inl (rw short)
  | inr enough ↦
      let long = ltb→le (length buffer) 14 enough in
      let (h, r, e) = read_header_total buffer long in
      rw
        (
          enough,
          le→ltb (length (buffer ++ ys)) 14 (omega (arith, length-append buffer ys)),
          take-append_le 12 buffer ys (omega arith),
          e,
          parse_frame,
        )
        (parse_checked-append (check_header m h) buffer ys long)
]
