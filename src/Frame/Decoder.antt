-- ===== src/Frame/Decoder.antt =====
-- src/protocol/codec/frame.ts, class FrameDecoder. The decoder's callbacks may change what it
-- reads next (`setMaxFrameSize`), so the frame limit is read from the state `S` of what stands
-- behind it, and each callback is a function on that state.
pub mod Resync
pub mod Stability
pub mod Chunking
pub mod RoundTrip
pub mod Delivery
pub mod Soundness
pub mod Characterisation
pub mod Invariant
use axtp_ts_runtime.Common.{
  ℕ, zero, suc, ◌+◌, ◌-◌, List, [], ◌∷◌, ◌++◌, Option, none, some, ◌==◌, ltb, leb, not, ◌&&◌, ◌||◌,
  if◌then◌else◌, length, take, drop, Result, returns, throws, ◌⊎◌, inl, inr,
}
use axtp_ts_runtime.Io.Reader.{
  Exn, Read, pure, ◌>>=◌, new_reader, read_u8, read_u8_strict, read_u16_strict,
}
use axtp_ts_runtime.Io.Crc.{crc16}
use axtp_ts_runtime.Model.{FrameHeader, Frame}
use axtp_ts_runtime.Model.ErrorCode
use axtp_ts_runtime.Frame.{
  magic_0, magic_1, axtp_version_1, standard_frame_header_size, standard_frame_crc_size,
  to_payload_type,
}

-- Drops bytes until the buffer begins with the magic; a last byte that may begin it stays.
pub resync_to_magic : List ℕ → List ℕ
resync_to_magic [] = []
resync_to_magic (x ∷ []) = if x == magic_0 then x ∷ [] else []
resync_to_magic (x ∷ y ∷ rest) =
    if x == magic_0 && y == magic_1 then x ∷ y ∷ rest else resync_to_magic (y ∷ rest)

-- The local variables that parseLoop reads from the header, before they are checked.
pub record HeaderFields : Type 0 where
  pub version : ℕ
  pub payload_type : ℕ
  pub payload_length : ℕ
  pub source_id : ℕ
  pub destination_id : ℕ
  pub message_id : ℕ
  pub frame_index : ℕ
  pub frame_count : ℕ

pub read_header : Read HeaderFields
read_header = do
  m₀ ← read_u8
  m₁ ← read_u8
  version ← read_u8_strict
  payload_type ← read_u8_strict
  payload_length ← read_u16_strict
  source_id ← read_u8_strict
  destination_id ← read_u8_strict
  message_id ← read_u16_strict
  frame_index ← read_u8_strict
  frame_count ← read_u8_strict
  pure (record {
    version = version;
    payload_type = payload_type;
    payload_length = payload_length;
    source_id = source_id;
    destination_id = destination_id;
    message_id = message_id;
    frame_index = frame_index;
    frame_count = frame_count;
  })

-- The checks of the header, in the source's order: an error code, or the narrowed header.
pub check_header : ℕ → HeaderFields → ℕ ⊎ FrameHeader
unfolding to_payload_type
check_header max_frame_size h =
    if not (h.version == axtp_version_1)
    then inl ErrorCode.frame_version_unsupported
    else elim (to_payload_type h.payload_type) [
      | none ↦ inl ErrorCode.frame_payload_type_invalid
      | some t ↦
          if h.frame_count == 0 || leb h.frame_count h.frame_index
          then inl ErrorCode.frame_fragment_invalid
          else if ltb max_frame_size
              (h.payload_length + standard_frame_header_size + standard_frame_crc_size)
          then inl ErrorCode.frame_too_large
          else inr (record {
            version = h.version;
            payload_type = t;
            payload_length = h.payload_length;
            source_id = h.source_id;
            destination_id = h.destination_id;
            message_id = h.message_id;
            frame_index = h.frame_index;
            frame_count = h.frame_count;
          })
    ]

-- One round of parseLoop behind the resync: it waits, drops one byte and goes on, or emits.
pub data Parsed : Type 0 where
  waits : Parsed
  rejects : ℕ → List ℕ → Parsed
  emits : Frame → List ℕ → Parsed
  crashes : Exn → Parsed

pub check_crc : FrameHeader → ℕ → List ℕ → List ℕ → Parsed
check_crc header total_size frame_bytes buffer =
    elim (read_u16_strict (new_reader (drop (total_size - standard_frame_crc_size) frame_bytes))) [
      | throws e ↦ crashes e
      | returns (expected, _) ↦
          if expected == crc16 (take (total_size - standard_frame_crc_size) frame_bytes)
          then emits
              (record {
                header = header;
                payload = take header.payload_length (drop standard_frame_header_size frame_bytes);
                crc16 = expected;
              })
              (drop total_size buffer)
          else rejects ErrorCode.frame_crc_error (drop 1 buffer)
    ]

pub parse_body : FrameHeader → List ℕ → Parsed
unfolding check_crc
parse_body header buffer =
    let total_size = standard_frame_header_size + header.payload_length + standard_frame_crc_size in
    if ltb (length buffer) total_size
    then waits
    else check_crc header total_size (take total_size buffer) buffer

pub parse_checked : ℕ ⊎ FrameHeader → List ℕ → Parsed
unfolding parse_body
parse_checked (inl code) buffer = rejects code (drop 1 buffer)
parse_checked (inr header) buffer = parse_body header buffer

pub parse_frame : ℕ → List ℕ → Parsed
unfolding parse_checked
parse_frame max_frame_size buffer =
    if ltb (length buffer) (standard_frame_header_size + standard_frame_crc_size)
    then waits
    else elim (read_header (new_reader (take standard_frame_header_size buffer))) [
      | throws e ↦ crashes e
      | returns (h, _) ↦ parse_checked (check_header max_frame_size h) buffer
    ]

-- What stands behind the decoder: the limit that it reads, and its two callbacks.
pub record Sink (S : Type 0) : Type 0 where
  pub max_frame_size : S → ℕ
  pub on_frame : Frame → S → S
  pub on_error : ℕ → S → S

module _ {S : Type 0} (sink : Sink S) where
  -- The `while (true)` of parseLoop, on fuel: each round but the last takes a byte at least.
  unfoldable pub parse_loop : ℕ → List ℕ → S → Result Exn (List ℕ × S)
  unfolding resync_to_magic parse_frame read_header check_header
  parse_loop zero buffer s = returns (buffer, s)
  parse_loop (suc fuel) buffer s =
      elim (parse_frame (sink.max_frame_size s) (resync_to_magic buffer)) [
        | waits ↦ returns (resync_to_magic buffer, s)
        | rejects code rest ↦ parse_loop fuel rest (sink.on_error code s)
        | emits frame rest ↦ parse_loop fuel rest (sink.on_frame frame s)
        | crashes e ↦ throws e
      ]

  unfoldable pub on_bytes : List ℕ → List ℕ → S → Result Exn (List ℕ × S)
  on_bytes buffer bytes s = let all = buffer ++ bytes in parse_loop (suc (length all)) all s
