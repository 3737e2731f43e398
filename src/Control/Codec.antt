-- ===== src/Control/Codec.antt =====
-- src/protocol/codec/control.ts: the header (opcode, id, status) and the TLVs of a CONTROL message.
pub mod Tlv
pub mod RoundTrip
use axtp_ts_runtime.Common.{
  ℕ, zero, suc, ◌+◌, min, max, List, [], Option, none, some, length, ◌==◌, if◌then◌else◌, Result,
  returns, throws,
}
use axtp_ts_runtime.Io.Writer.{ByteWriter, new_writer, write_u8, write_u16, write_u32}
use axtp_ts_runtime.Io.Reader.{
  Exn, ByteReader, Read, pure, ◌>>=◌, new_reader, remaining, is_empty, read_u8, read_u16,
  read_bytes, read_u8_strict, read_u16_strict, read_u32_strict,
}
use axtp_ts_runtime.Model.ControlOpcode

-- ControlTlvTag
abbrev pub max_frame_size_tag : ℕ
max_frame_size_tag = 0x04

abbrev pub supported_payload_types_tag : ℕ
supported_payload_types_tag = 0x07

abbrev pub supported_rpc_encodings_tag : ℕ
supported_rpc_encodings_tag = 0x08

abbrev pub heartbeat_interval_ms_tag : ℕ
heartbeat_interval_ms_tag = 0x0a

abbrev pub ack_mode_tag : ℕ
ack_mode_tag = 0x0b

abbrev pub selected_rpc_encoding_tag : ℕ
selected_rpc_encoding_tag = 0x1e

-- Partial<NegotiationParams>: each field may be missing.
pub record PartialParams : Type 0 where
  pub max_frame_size : Option ℕ
  pub supported_payload_types : Option ℕ
  pub supported_rpc_encodings : Option ℕ
  pub heartbeat_interval_ms : Option ℕ
  pub ack_mode : Option ℕ
  pub selected_rpc_encoding : Option ℕ

abbrev pub no_params : PartialParams
no_params = record {
  max_frame_size = none;
  supported_payload_types = none;
  supported_rpc_encodings = none;
  heartbeat_interval_ms = none;
  ack_mode = none;
  selected_rpc_encoding = none;
}

-- A finite, whole number of milliseconds, as a ℕ is.
unfoldable pub clamp_heartbeat_interval : ℕ → ℕ
clamp_heartbeat_interval ms = max 500 (min 60000 ms)

-- The width is 1, 2 or 4.
unfoldable pub write_tlv : ℕ → ℕ → ℕ → ByteWriter → ByteWriter
unfolding write_u8 write_u16 write_u32
write_tlv tag value width w =
    let head = write_u8 width (write_u8 tag w) in
    if width == 1
    then write_u8 value head
    else if width == 2
    then write_u16 value head
    else write_u32 value head

-- `if (tlv.field !== undefined) writeTlv(writer, tag, tlv.field, width)`
unfoldable pub write_optional : ℕ → Option ℕ → ℕ → ByteWriter → ByteWriter
unfolding write_tlv
write_optional tag none width w = w
write_optional tag (some value) width w = write_tlv tag value width w

unfoldable pub write_params : PartialParams → ByteWriter → ByteWriter
unfolding write_optional
write_params p w = write_optional selected_rpc_encoding_tag p.selected_rpc_encoding 1 (
    write_optional ack_mode_tag p.ack_mode 1 (
      write_optional heartbeat_interval_ms_tag p.heartbeat_interval_ms 2 (
        write_optional supported_rpc_encodings_tag p.supported_rpc_encodings 1 (
          write_optional supported_payload_types_tag p.supported_payload_types 1
            (write_optional max_frame_size_tag p.max_frame_size 2 w)))))

-- Without a TLV argument the source writes no TLV, as for one with no field.
unfoldable pub encode_control : ℕ → ℕ → ℕ → PartialParams → List ℕ
unfolding write_params write_u8 write_u16
encode_control opcode control_id status_code tlv =
    (write_params tlv
      (write_u16 status_code (write_u16 control_id (write_u8 opcode new_writer)))).values

unfoldable pub encode_open : ℕ → PartialParams → List ℕ
encode_open control_id params = encode_control ControlOpcode.open_link control_id 0 params

unfoldable pub encode_accept : ℕ → PartialParams → List ℕ
encode_accept control_id params = encode_control ControlOpcode.accept control_id 0 params

unfoldable pub encode_rejected_accept : ℕ → ℕ → List ℕ
encode_rejected_accept control_id status_code =
    encode_control ControlOpcode.accept control_id status_code no_params

unfoldable pub encode_heartbeat : ℕ → List ℕ
encode_heartbeat control_id = encode_control ControlOpcode.heartbeat control_id 0 no_params

unfoldable pub encode_heartbeat_ack : ℕ → List ℕ
encode_heartbeat_ack control_id = encode_control ControlOpcode.heartbeat_ack control_id 0 no_params

unfoldable pub encode_close : ℕ → List ℕ
encode_close control_id = encode_control ControlOpcode.close control_id 0 no_params

unfoldable pub encode_close_ack : ℕ → List ℕ
encode_close_ack control_id = encode_control ControlOpcode.close_ack control_id 0 no_params

-- The tag and the value.
abbrev pub Tlv : Type 0
Tlv = ℕ × ℕ

-- After a skipped value: the next round of the loop, or the end when it was cut short.
unfoldable pub skip_then : Read (Option Tlv) → Option (List ℕ) → Read (Option Tlv)
skip_then next none = pure none
skip_then next (some skipped) = next

unfoldable pub skip_extended : Read (Option Tlv) → Option ℕ → Read (Option Tlv)
unfolding skip_then
skip_extended next none = pure none
skip_extended next (some ext_len) = do skipped ← read_bytes ext_len; skip_then next skipped

-- The body of readTlv's loop behind the reads of tag and length.
unfoldable pub read_value : Read (Option Tlv) → Option ℕ → Option ℕ → Read (Option Tlv)
unfolding skip_then skip_extended
read_value next none len = pure none
read_value next (some tag) none = pure none
read_value next (some tag) (some len) =
    if len == 0xff
    then (do ext_len ← read_u16; skip_extended next ext_len)
    else if len == 1
    then (do v ← read_u8_strict; pure (some (tag, v)))
    else if len == 2
    then (do v ← read_u16_strict; pure (some (tag, v)))
    else if len == 4
    then (do v ← read_u32_strict; pure (some (tag, v)))
    else (do skipped ← read_bytes len; skip_then next skipped)

-- The `while` of readTlv, on fuel: each round takes two bytes at least.
unfoldable pub read_tlv : ℕ → Read (Option Tlv)
unfolding read_value
read_tlv zero = pure none
read_tlv (suc fuel) = λ r.
    if is_empty r
    then returns (none, r)
    else (read_u8 >>= λ tag. read_u8 >>= λ len. read_value (read_tlv fuel) tag len) r

-- The `switch` on the tag; an unknown tag is ignored.
unfoldable pub set_param : Tlv → PartialParams → PartialParams
set_param (tag, value) p =
    if tag == max_frame_size_tag
    then record p { max_frame_size = some value }
    else if tag == supported_payload_types_tag
    then record p { supported_payload_types = some value }
    else if tag == supported_rpc_encodings_tag
    then record p { supported_rpc_encodings = some value }
    else if tag == heartbeat_interval_ms_tag
    then record p { heartbeat_interval_ms = some value }
    else if tag == ack_mode_tag
    then record p { ack_mode = some value }
    else if tag == selected_rpc_encoding_tag
    then record p { selected_rpc_encoding = some value }
    else p

-- The `while` of decodeControl, on fuel: each round takes two bytes at least or ends the loop.
unfoldable pub read_params : ℕ → PartialParams → ByteReader → Result Exn PartialParams
read_params zero p r = returns p
read_params (suc fuel) p r =
    if is_empty r then returns p else elim (read_tlv (suc (remaining r)) r) [
      | throws e ↦ throws e
      | returns (none, r') ↦ returns p
      | returns (some tlv, r') ↦ read_params fuel (set_param tlv p) r'
    ]

pub record ControlPayload : Type 0 where
  pub opcode : ℕ
  pub control_id : ℕ
  pub status_code : ℕ
  pub body : List ℕ
  pub tlv : PartialParams

-- The reads of the header, and the rest: `reader.readBytes(reader.remaining()) ?? new Uint8Array()`.
unfoldable pub read_control : Read (ℕ × ℕ × ℕ × List ℕ)
read_control = do
  opcode ← read_u8_strict
  control_id ← read_u16_strict
  status_code ← read_u16_strict
  tlv_body ← (λ r. read_bytes (remaining r) r)
  pure (opcode, control_id, status_code, elim tlv_body [ none ↦ [] | some bytes ↦ bytes ])

unfoldable pub decode_control : List ℕ → Result Exn ControlPayload
unfolding read_control
decode_control body = elim (read_control (new_reader body)) [
  | throws e ↦ throws e
  | returns ((opcode, control_id, status_code, tlv_body), r) ↦
      elim (read_params (suc (length tlv_body)) no_params (new_reader tlv_body)) [
        | throws e ↦ throws e
        | returns tlv ↦ returns (record {
          opcode = opcode;
          control_id = control_id;
          status_code = status_code;
          body = tlv_body;
          tlv = tlv;
        })
      ]
]
