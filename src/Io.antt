-- ===== src/Io.antt =====
-- src/io: the byte writer, the byte reader and the checksum of io.ts, and the hexadecimal digits of
-- bytes.ts. `Bytes` is a list of numbers; what the code reads from a `Uint8Array` is below 256,
-- `IsByte`.
pub mod Hex
pub mod Writer
pub mod Reader
pub mod Crc
