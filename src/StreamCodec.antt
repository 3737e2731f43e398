-- ===== src/StreamCodec.antt =====
-- src/protocol/codec/stream.ts: the payload of a STREAM message, 16 bytes of header and the data.
pub mod Laws
use axtp_ts_runtime.Common.{
  ℕ, ◌==◌, ltb, if◌then◌else◌, List, Option, none, some, length, Result, returns, throws,
}
use axtp_ts_runtime.Io.Writer.{new_writer, write_u32, write_u64, write_bytes}
use axtp_ts_runtime.Io.Reader.{
  Exn, Read, pure, ◌>>=◌, ByteReader, new_reader, remaining, read_u32_strict, read_u64_strict,
  read_bytes_strict,
}

pub record StreamPayload : Type 0 where
  pub stream_id : ℕ
  pub seq_id : ℕ
  pub cursor : ℕ
  -- the source's `data`
  pub bytes : List ℕ

abbrev pub stream_header_size : ℕ
stream_header_size = 16

unfoldable pub encode_stream : StreamPayload → List ℕ
unfolding write_u32 write_u64 write_bytes
encode_stream payload =
    let writer =
      write_u64 payload.cursor
        (write_u32 payload.seq_id (write_u32 payload.stream_id new_writer)) in
    (write_bytes payload.bytes writer).values

-- `reader.readBytesStrict(reader.remaining())`
abbrev pub read_rest : Read (List ℕ)
read_rest r = read_bytes_strict (remaining r) r

-- decodeStream from the sequence number on.
pub read_behind_id : ℕ → Read (Option StreamPayload)
read_behind_id stream_id = do
  seq_id ← read_u32_strict
  cursor ← read_u64_strict
  bytes ← read_rest
  pure (some (record { stream_id = stream_id; seq_id = seq_id; cursor = cursor; bytes = bytes }))

pub read_stream : Read (Option StreamPayload)
unfolding read_behind_id
read_stream = do
  stream_id ← read_u32_strict
  if stream_id == 0 then pure none else read_behind_id stream_id

-- What a read returns, without the reader.
abbrev pub result_of {ℓ} : {A : Type ℓ} → Result Exn (A × ByteReader) → Result Exn A
result_of (returns (a, r)) = returns a
result_of (throws e) = throws e

unfoldable pub decode_stream : List ℕ → Result Exn (Option StreamPayload)
unfolding read_stream
decode_stream body =
    if ltb (length body) stream_header_size
    then returns none
    else result_of (read_stream (new_reader body))
