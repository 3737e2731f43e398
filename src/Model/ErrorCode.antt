-- ===== src/Model/ErrorCode.antt =====
-- src/protocol/generated/axtp_ids_generated.ts, enum ErrorCode: the codes that the modelled code
-- names. A status code from the wire may be any number, so a code is a ℕ.
use axtp_ts_runtime.Common.{ℕ}

abbrev pub success : ℕ
success = 0x0000

abbrev pub not_supported : ℕ
not_supported = 0x0003

abbrev pub invalid_state : ℕ
invalid_state = 0x0004

abbrev pub timeout : ℕ
timeout = 0x0006

abbrev pub frame_version_unsupported : ℕ
frame_version_unsupported = 0x0012

abbrev pub frame_payload_type_invalid : ℕ
frame_payload_type_invalid = 0x0015

abbrev pub frame_crc_error : ℕ
frame_crc_error = 0x0016

abbrev pub frame_fragment_invalid : ℕ
frame_fragment_invalid = 0x0017

abbrev pub frame_fragment_missing : ℕ
frame_fragment_missing = 0x0018

abbrev pub frame_reassembly_timeout : ℕ
frame_reassembly_timeout = 0x0019

abbrev pub frame_too_large : ℕ
frame_too_large = 0x001a

abbrev pub transport_disconnected : ℕ
transport_disconnected = 0x001e

abbrev pub control_payload_invalid : ℕ
control_payload_invalid = 0x0022

abbrev pub control_open_required : ℕ
control_open_required = 0x0024

abbrev pub control_negotiation_failed : ℕ
control_negotiation_failed = 0x0027

abbrev pub rpc_encoding_unsupported : ℕ
rpc_encoding_unsupported = 0x0031

abbrev pub rpc_payload_invalid : ℕ
rpc_payload_invalid = 0x0033

abbrev pub rpc_method_not_found : ℕ
rpc_method_not_found = 0x0036

abbrev pub rpc_execution_failed : ℕ
rpc_execution_failed = 0x003d

abbrev pub rpc_response_timeout : ℕ
rpc_response_timeout = 0x003e

abbrev pub stream_id_invalid : ℕ
stream_id_invalid = 0x0505

abbrev pub stream_already_open : ℕ
stream_already_open = 0x0507

abbrev pub stream_closed : ℕ
stream_closed = 0x0510
