-- ===== src/Model.antt =====
-- src/protocol/model.ts and the numbers of src/protocol/generated/axtp_ids_generated.ts that the
-- modelled code uses. A code that stands on the wire is a ℕ; `PayloadType` is narrowed by the
-- frame decoder before it is used, and is a data type.
pub mod ErrorCode
pub mod ControlOpcode
pub mod Rpc
pub mod Json
use axtp_ts_runtime.Common.{ℕ, List}

pub data PayloadType : Type 0 where
  control rpc stream : PayloadType

unfoldable pub payload_type_code : PayloadType → ℕ
payload_type_code PayloadType.control = 0x01
payload_type_code PayloadType.rpc = 0x02
payload_type_code PayloadType.stream = 0x03

pub record FrameHeader : Type 0 where
  pub version : ℕ
  pub payload_type : PayloadType
  pub payload_length : ℕ
  pub source_id : ℕ
  pub destination_id : ℕ
  pub message_id : ℕ
  pub frame_index : ℕ
  pub frame_count : ℕ

pub record Frame : Type 0 where
  pub header : FrameHeader
  pub payload : List ℕ
  pub crc16 : ℕ

pub record Message : Type 0 where
  pub message_id : ℕ
  pub payload_type : PayloadType
  pub body : List ℕ
