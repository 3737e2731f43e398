-- ===== src/Tests/FrameDecoder.antt =====
-- The frame decoder of protocol/codec/frame.ts at concrete inputs.
use axtp_ts_runtime.Common.{
  ℕ, List, [], ◌∷◌, ◌++◌, take, drop, returns, ◌>>=◌, ◌≡◌, ◌↔◌, refl, arith, ◌<◌, length, All,
}
use axtp_ts_runtime.Io.Reader.{read_u8, read_u8_strict, read_u16, read_u16_strict, byte_at}
use axtp_ts_runtime.Io.Crc.{crc16}
use axtp_ts_runtime.Model.{PayloadType, payload_type_code, Frame}
use axtp_ts_runtime.Frame.{encode, magic_0, magic_1}
use axtp_ts_runtime.Frame.Decoder.{Sink, on_bytes, parse_loop, parse_frame, emits}
use axtp_ts_runtime.Frame.Decoder.Chunking.{Stops, on_bytes-Stops, on_bytes-append}
use axtp_ts_runtime.Frame.Decoder.RoundTrip.{IsSendable, with_crc}
use axtp_ts_runtime.Frame.Decoder.Delivery.{encode_all, on_bytes-encode_all}
use axtp_ts_runtime.Frame.Decoder.Characterisation.{IsEncoded, parse_frame_iff}
use axtp_ts_runtime.Frame.Decoder.Invariant.{Keeps, on_bytes-Keeps}

-- A sink that keeps the frames and the error codes, newest first, under a fixed limit.
abbrev Log : Type 0
Log = List Frame × List ℕ

abbrev log_sink : Sink Log
log_sink = record {
  max_frame_size = λ s. 4096;
  on_frame = λ frame s. (frame ∷ s.0, s.1);
  on_error = λ code s. (s.0, code ∷ s.1);
}

abbrev empty_log : Log
empty_log = ([], [])

abbrev part : ℕ → List ℕ → Frame
part index payload = record {
  header = record {
    version = 1;
    payload_type = PayloadType.rpc;
    payload_length = length payload;
    source_id = 0;
    destination_id = 0;
    message_id = 9;
    frame_index = index;
    frame_count = 2;
  };
  payload = payload;
  crc16 = 0;
}

abbrev first_part : Frame
first_part = part 0 (1 ∷ 2 ∷ 3 ∷ [])

abbrev second_part : Frame
second_part = part 1 (4 ∷ 5 ∷ [])

-- What the encoder writes for `first_part`, behind the magic.
abbrev first_tail : List ℕ
first_tail = 1 ∷ 2 ∷ 0 ∷ 3 ∷ 0 ∷ 0 ∷ 0 ∷ 9 ∷ 0 ∷ 2 ∷ 1 ∷ 2 ∷ 3 ∷ 0xfa ∷ 0xe8 ∷ []

run_first : encode first_part ≡ magic_0 ∷ magic_1 ∷ first_tail
unfolding encode crc16
run_first = refl

-- Behind a byte of noise and a frame with a broken checksum, split inside the good frame.
run_resync :
    (on_bytes log_sink [] (7 ∷ magic_0 ∷ magic_1 ∷ take 13 first_tail) empty_log >>= λ (rest, s).
    on_bytes log_sink rest (0 ∷ 0 ∷ magic_0 ∷ magic_1 ∷ first_tail) s)
    ≡ returns ([], (with_crc first_part ∷ [], 0x16 ∷ []))
unfolding on_bytes parse_loop crc16 read_u8 read_u8_strict read_u16 read_u16_strict byte_at
    payload_type_code
run_resync = refl

first_part-IsSendable : IsSendable 4096 first_part
first_part-IsSendable = omega arith

second_part-IsSendable : IsSendable 4096 second_part
second_part-IsSendable = omega arith

on_bytes-append_example :
    (on_bytes log_sink [] (take 9 first_tail) empty_log >>= λ (rest, s).
    on_bytes log_sink rest (drop 9 first_tail ++ encode second_part) s)
    ≡ on_bytes log_sink []
        (take 9 first_tail ++ (drop 9 first_tail ++ encode second_part))
        empty_log
on_bytes-append_example =
    on_bytes-append log_sink [] (take 9 first_tail) (drop 9 first_tail ++ encode second_part)
      empty_log

on_bytes-Stops_example :
    Stops log_sink (on_bytes log_sink (magic_0 ∷ []) (magic_1 ∷ first_tail) empty_log)
on_bytes-Stops_example = on_bytes-Stops log_sink (magic_0 ∷ []) (magic_1 ∷ first_tail) empty_log

on_bytes-encode_all_example :
    on_bytes log_sink [] (7 ∷ 0x58 ∷ encode_all (first_part ∷ second_part ∷ [])) empty_log
    ≡ returns ([], (with_crc second_part ∷ with_crc first_part ∷ [], []))
on_bytes-encode_all_example =
    on_bytes-encode_all log_sink (7 ∷ 0x58 ∷ []) first_part (second_part ∷ []) empty_log
      (omega arith) (first_part-IsSendable, (second_part-IsSendable, tt))

parse_frame_iff_example :
    (parse_frame 4096 (magic_0 ∷ magic_1 ∷ first_tail) ≡ emits (with_crc first_part) [])
    ↔ IsEncoded 4096 (magic_0 ∷ magic_1 ∷ first_tail) (with_crc first_part) []
parse_frame_iff_example = parse_frame_iff 4096 first_tail (with_crc first_part) [] (omega arith)

-- The invariant that every frame of the log has an index below its count.
abbrev Indexed : Log → Type 0
Indexed s = All (λ frame. frame.header.frame_index < frame.header.frame_count) s.0

on_bytes-Keeps_example :
    Keeps log_sink Indexed
      (λ s frame p v crc_ok. (v.index_below, p))
      (λ s code p. p)
      (on_bytes log_sink [] (magic_0 ∷ magic_1 ∷ first_tail) empty_log)
on_bytes-Keeps_example =
    on_bytes-Keeps log_sink Indexed (λ s frame p v crc_ok. (v.index_below, p)) (λ s code p. p) []
      (magic_0 ∷ magic_1 ∷ first_tail) empty_log tt (omega arith) tt
