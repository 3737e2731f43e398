-- ===== src/Model/ControlOpcode.antt =====
-- src/protocol/generated/axtp_ids_generated.ts, enum ControlOpcode: the opcodes that the control
-- session handles. The decoder returns the byte that it reads, so an opcode is a ℕ.
use axtp_ts_runtime.Common.{ℕ}

-- `Open`: the bare word is reserved.
abbrev pub open_link : ℕ
open_link = 1

abbrev pub accept : ℕ
accept = 2

abbrev pub heartbeat : ℕ
heartbeat = 4

abbrev pub heartbeat_ack : ℕ
heartbeat_ack = 5

abbrev pub close : ℕ
close = 0x0a

abbrev pub close_ack : ℕ
close_ack = 0x0b
