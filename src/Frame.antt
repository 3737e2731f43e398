-- ===== src/Frame.antt =====
-- src/protocol/codec/frame.ts: the constants, isPayloadType and FrameEncoder. The decoder, the
-- fragmenter and the reassembler are the modules below.
pub mod Decoder
pub mod Fragmenter
pub mod Reassembler
use axtp_ts_runtime.Common.{ℕ, List, [], ◌∷◌, ◌++◌, Option, none, some, ◌==◌, if◌then◌else◌, length}
use axtp_ts_runtime.Io.Writer.{ByteWriter, new_writer, write_u8, write_u16, write_bytes}
use axtp_ts_runtime.Io.Crc.{crc16}
use axtp_ts_runtime.Model.{PayloadType, payload_type_code, FrameHeader, Frame}

abbrev pub magic_0 : ℕ
magic_0 = 0x41

abbrev pub magic_1 : ℕ
magic_1 = 0x58

abbrev pub axtp_version_1 : ℕ
axtp_version_1 = 0x01

abbrev pub standard_frame_header_size : ℕ
standard_frame_header_size = 12

abbrev pub standard_frame_crc_size : ℕ
standard_frame_crc_size = 2

-- isPayloadType, with the narrowed value.
pub to_payload_type : ℕ → Option PayloadType
to_payload_type value =
    if value == 0x01
    then some PayloadType.control
    else if value == 0x02
    then some PayloadType.rpc
    else if value == 0x03
    then some PayloadType.stream
    else none

-- The part of a frame that the checksum covers. Each write is a method call on the same writer.
pub write_partial : Frame → ByteWriter
unfolding write_u8 write_u16 write_bytes payload_type_code
write_partial frame = write_bytes frame.payload (
    write_u8 h.frame_count (
      write_u8 h.frame_index (
        write_u16 h.message_id (
          write_u8 h.destination_id (
            write_u8 h.source_id (
              write_u16 (length frame.payload) (
                write_u8 (payload_type_code h.payload_type)
                  (write_u8 h.version (write_u8 magic_1 (write_u8 magic_0 new_writer))))))))))
  where
    open frame use {header as h}

unfoldable pub encode : Frame → List ℕ
unfolding write_partial
encode frame =
    let writer = write_partial frame in
    let partial = writer.values in (write_u16 (crc16 partial) writer).values
