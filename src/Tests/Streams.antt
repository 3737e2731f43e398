-- ===== src/Tests/Streams.antt =====
-- The STREAM codec of protocol/codec/stream.ts at concrete inputs.
use axtp_ts_runtime.Common.{ℕ, List, [], ◌∷◌, some, returns, ◌≡◌, refl, arith}
use axtp_ts_runtime.Io.Reader.{
  read_u32, read_u32_strict, read_u64, read_u64_strict, read_bytes, read_bytes_strict, byte_at,
}
use axtp_ts_runtime.StreamCodec.{StreamPayload, encode_stream, decode_stream}
use axtp_ts_runtime.StreamCodec.Laws.{decode_stream-encode_stream}

abbrev chunk : StreamPayload
chunk = record {
  stream_id = 7;
  seq_id = 0x01020304;
  cursor = 0x1122334455667788;
  bytes = 9 ∷ 8 ∷ [];
}

abbrev chunk_bytes : List ℕ
chunk_bytes =
    0 ∷ 0 ∷ 0 ∷ 7 ∷ 1 ∷ 2 ∷ 3 ∷ 4 ∷ 0x11 ∷ 0x22 ∷ 0x33 ∷ 0x44 ∷ 0x55 ∷ 0x66 ∷ 0x77 ∷ 0x88 ∷ 9 ∷ 8
    ∷ []

run_encode : encode_stream chunk ≡ chunk_bytes
unfolding encode_stream
run_encode = refl

run_decode : decode_stream chunk_bytes ≡ returns (some chunk)
unfolding decode_stream read_u32 read_u32_strict read_u64 read_u64_strict read_bytes
    read_bytes_strict byte_at
run_decode = refl

decode_stream-encode_stream_example : decode_stream (encode_stream chunk) ≡ returns (some chunk)
decode_stream-encode_stream_example = decode_stream-encode_stream chunk (omega arith)
