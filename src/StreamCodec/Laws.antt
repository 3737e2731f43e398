-- ===== src/StreamCodec/Laws.antt =====
-- The STREAM codec: what is encoded is decoded, and which bodies are refused.
use mathlib.Core.List.{append-nil}
use axtp_ts_runtime.Common.{
  ℕ, ◌+◌, ◌^◌, ◌≤◌, ◌<◌, ◌==◌, ltb, List, [], ◌++◌, Option, none, some, length, returns, ◌≡◌, ◌⊎◌,
  inl, inr, false, refl, sym, ap, ◌∙◌, arith, Bool-cases, ==→eq,
}
use axtp_ts_runtime.Io.Writer.{u32_bytes, big_endian, write_u32, write_u64, write_bytes}
use axtp_ts_runtime.Io.Reader.{
  ByteReader, ◌>>=◌, new_reader, remaining, read_u32_strict, read_bytes_strict,
}
use axtp_ts_runtime.Io.Reader.Laws.{
  unread, read_u32_strict-Reads, read_u64_strict-Reads, read_bytes_strict-Reads, length-unread,
}
use axtp_ts_runtime.Io.Reader.Totality.{read_u32_strict-Takes, read_u64_strict-Takes}
use axtp_ts_runtime.StreamCodec.{
  StreamPayload, encode_stream, decode_stream, read_stream, read_behind_id, read_rest, result_of,
}

-- The numbers that the fields of the header hold; stream 0 is no stream.
pub record IsStreamPayload (p : StreamPayload) : Type 0 where
  pub id_some : 1 ≤ p.stream_id
  pub id_word : p.stream_id < 2 ^ 32
  pub seq_word : p.seq_id < 2 ^ 32
  pub cursor_word : p.cursor < 2 ^ 64

encode_stream-bytes :
    (p : StreamPayload)
    → encode_stream p
      ≡ u32_bytes p.stream_id ++ (u32_bytes p.seq_id ++ (big_endian 8 p.cursor ++ p.bytes))
unfolding encode_stream write_u32 write_u64 write_bytes
encode_stream-bytes p = refl

-- The rest is all that is left, so it is read with nothing behind it.
read_rest_all :
    (bs : List ℕ) (r : ByteReader)
    → unread r ≡ bs
    → (r' : ByteReader) × (read_rest r ≡ returns (bs, r'))
unfolding read_bytes_strict
read_rest_all bs r e =
    let (r', got, left) = read_bytes_strict-Reads bs r [] (e ∙ sym (append-nil bs)) in
    let size : remaining r ≡ length bs = length-unread r ∙ ap length e in
    (r', ap (λ n. read_bytes_strict n r) size ∙ got)

-- A payload whose fields fit, encoded and decoded again, is the same payload.
pub decode_stream-encode_stream :
    (p : StreamPayload) → IsStreamPayload p → decode_stream (encode_stream p) ≡ returns (some p)
unfolding decode_stream read_stream read_behind_id
decode_stream-encode_stream p v =
    let body = encode_stream p in
    let (r₁, e₁, u₁) =
      read_u32_strict-Reads p.stream_id v.id_word (new_reader body) _ (encode_stream-bytes p) in
    let (r₂, e₂, u₂) = read_u32_strict-Reads p.seq_id v.seq_word r₁ _ u₁ in
    let (r₃, e₃, u₃) = read_u64_strict-Reads p.cursor v.cursor_word r₂ _ u₂ in
    let (r₄, e₄) = read_rest_all p.bytes r₃ u₃ in
    let id : (p.stream_id == 0) ≡ false = ground (arith, v.id_some) in
    let long : ltb (length body) 16 ≡ false = ground (arith, ap length (encode_stream-bytes p)) in
    let behind : read_behind_id p.stream_id r₁ ≡ returns (some p, r₄) =
      rw (e₂, ◌>>=◌) (rw (e₃, ◌>>=◌) (rw (e₄, ◌>>=◌) refl)) in
    let all : read_stream (new_reader body) ≡ returns (some p, r₄) =
      rw (e₁, ◌>>=◌) (rw id behind) in
    rw long (ap result_of all)

read_rest_total :
    (r : ByteReader)
    → (bs : List ℕ) × (r' : ByteReader) × (read_rest r ≡ returns (bs, r'))
      × (length bs ≡ remaining r)
read_rest_total r =
    let (r', e) = read_rest_all (unread r) r refl in (unread r, r', e, sym (length-unread r))

-- What decodeStream may answer: nothing, for a body under 16 bytes or of stream 0, or a payload
-- whose data is all but the header.
abbrev pub Decoded : List ℕ → Option StreamPayload → Type 0
Decoded body none =
    (length body < 16) ⊎ ((r : ByteReader) × (read_u32_strict (new_reader body) ≡ returns (0, r)))
Decoded body (some p) = (1 ≤ p.stream_id) × (length body ≡ 16 + length p.bytes)

-- Any body is decoded without a throw, although the code behind the length check reads with the
-- strict reads: it is refused when it is shorter than the header or its stream id is 0, and else
-- its data is all that follows the header.
pub decode_stream_total :
    (body : List ℕ) → (o : Option StreamPayload) × (decode_stream body ≡ returns o) × Decoded body o
unfolding decode_stream read_stream read_behind_id
decode_stream_total body = elim (Bool-cases (ltb (length body) 16)) [
  | inl short ↦ (none, rw short refl, inl (ground (arith, short)))
  | inr long ↦
      let r₀ = new_reader body in
      let size : remaining r₀ ≡ length body = length-unread r₀ in
      let (id, r₁, e₁, u₁) = read_u32_strict-Takes r₀ (ground (arith, long, size)) in
      elim (Bool-cases (id == 0)) [
        | inl zero_id ↦
            let at_zero = ==→eq id 0 zero_id in
            let all : read_stream r₀ ≡ returns (none, r₁) = rw (e₁, ◌>>=◌) (rw zero_id refl) in
            (none, rw long (ap result_of all), inr (r₁, e₁ ∙ ap (λ n. returns (n, r₁)) at_zero))
        | inr some_id ↦
            let (seq, r₂, e₂, u₂) = read_u32_strict-Takes r₁ (ground (arith, long, size, u₁)) in
            let (cursor, r₃, e₃, u₃) =
              read_u64_strict-Takes r₂ (ground (arith, long, size, u₁, u₂)) in
            let (bs, r₄, e₄, u₄) = read_rest_total r₃ in
            let p : StreamPayload = record {
              stream_id = id;
              seq_id = seq;
              cursor = cursor;
              bytes = bs;
            } in
            let behind : read_behind_id id r₁ ≡ returns (some p, r₄) =
              rw (e₂, ◌>>=◌) (rw (e₃, ◌>>=◌) (rw (e₄, ◌>>=◌) refl)) in
            let all : read_stream r₀ ≡ returns (some p, r₄) = rw (e₁, ◌>>=◌) (rw some_id behind) in
            (
              some p,
              rw long (ap result_of all),
              (ground (arith, some_id), ground (arith, long, size, u₁, u₂, u₃, u₄)),
            )
      ]
]
