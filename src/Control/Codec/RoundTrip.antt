-- ===== src/Control/Codec/RoundTrip.antt =====
-- A CONTROL message written by encodeControl is read back by decodeControl.
use mathlib.Core.List.{append_assoc, append-nil}
use axtp_ts_runtime.Common.{
  ℕ, suc, ◌^◌, ◌%◌, ◌<◌, List, [], ◌++◌, Option, length, returns, ◌≡◌, refl, sym, ap, ◌∙◌, subst,
  arith,
}
use axtp_ts_runtime.Io.Writer.{ByteWriter, u8_bytes, u16_bytes, write_u8, write_u16}
use axtp_ts_runtime.Io.Reader.{◌>>=◌, new_reader, remaining, read_bytes}
use axtp_ts_runtime.Io.Reader.Laws.{
  length-unread, read_u8_strict-Reads, read_u16_strict-Reads, read_bytes-Reads,
}
use axtp_ts_runtime.Control.Codec.{
  PartialParams, no_params, ControlPayload, write_optional, write_params, encode_control,
  read_control, decode_control, set_param, max_frame_size_tag, supported_payload_types_tag,
  supported_rpc_encodings_tag, heartbeat_interval_ms_tag, ack_mode_tag, selected_rpc_encoding_tag,
}
use axtp_ts_runtime.Control.Codec.Tlv.{
  Width, size, byte, word, Fits, optional_bytes, write_optional-bytes, Steps, Steps-append, put,
  put-Steps, read_params_end,
}

-- Every parameter that is there fits the width that the encoder writes it in.
pub record FitWire (p : PartialParams) : Type 0 where
  pub max_frame_size : Fits word p.max_frame_size
  pub supported_payload_types : Fits byte p.supported_payload_types
  pub supported_rpc_encodings : Fits byte p.supported_rpc_encodings
  pub heartbeat_interval_ms : Fits word p.heartbeat_interval_ms
  pub ack_mode : Fits byte p.ack_mode
  pub selected_rpc_encoding : Fits byte p.selected_rpc_encoding

abbrev pub params_bytes : PartialParams → List ℕ
params_bytes p =
    optional_bytes max_frame_size_tag word p.max_frame_size
    ++ (optional_bytes supported_payload_types_tag byte p.supported_payload_types
        ++ (optional_bytes supported_rpc_encodings_tag byte p.supported_rpc_encodings
            ++ (optional_bytes heartbeat_interval_ms_tag word p.heartbeat_interval_ms
                ++ (optional_bytes ack_mode_tag byte p.ack_mode
                    ++ optional_bytes selected_rpc_encoding_tag byte p.selected_rpc_encoding))))

nested :
    (h a b c d e f : List ℕ)
    → (((((h ++ a) ++ b) ++ c) ++ d) ++ e) ++ f ≡ h ++ (a ++ (b ++ (c ++ (d ++ (e ++ f)))))
nested h a b c d e f = simp append_assoc

-- The field after those that are written already.
write_next :
    (tag : ℕ) (w : Width) (o : Option ℕ) (writer : ByteWriter) {written : List ℕ}
    → tag % 256 ≡ tag
    → writer.values ≡ written
    → (write_optional tag o (size w) writer).values ≡ written ++ optional_bytes tag w o
write_next tag w o writer h e =
    write_optional-bytes tag w o writer h ∙ ap (λ l. l ++ optional_bytes tag w o) e

write_params-bytes :
    (p : PartialParams) (w : ByteWriter) → (write_params p w).values ≡ w.values ++ params_bytes p
unfolding write_params
write_params-bytes p w =
    let w₁ = write_optional max_frame_size_tag p.max_frame_size 2 w in
    let w₂ = write_optional supported_payload_types_tag p.supported_payload_types 1 w₁ in
    let w₃ = write_optional supported_rpc_encodings_tag p.supported_rpc_encodings 1 w₂ in
    let w₄ = write_optional heartbeat_interval_ms_tag p.heartbeat_interval_ms 2 w₃ in
    let w₅ = write_optional ack_mode_tag p.ack_mode 1 w₄ in
    let e₁ = write_optional-bytes max_frame_size_tag word p.max_frame_size w refl in
    let e₂ = write_next supported_payload_types_tag byte p.supported_payload_types w₁ refl e₁ in
    let e₃ = write_next supported_rpc_encodings_tag byte p.supported_rpc_encodings w₂ refl e₂ in
    let e₄ = write_next heartbeat_interval_ms_tag word p.heartbeat_interval_ms w₃ refl e₃ in
    let e₅ = write_next ack_mode_tag byte p.ack_mode w₄ refl e₄ in
    write_next selected_rpc_encoding_tag byte p.selected_rpc_encoding w₅ refl e₅
    ∙ nested w.values _ _ _ _ _ _

encode_control-bytes :
    (opcode control_id status_code : ℕ) (p : PartialParams)
    → encode_control opcode control_id status_code p
      ≡ u8_bytes opcode ++ (u16_bytes control_id ++ (u16_bytes status_code ++ params_bytes p))
unfolding encode_control write_u8 write_u16
encode_control-bytes opcode control_id status_code p = write_params-bytes p _

-- The parameters put one after the other into none are the parameters.
put_all :
    (a b c d e f : Option ℕ)
    → put selected_rpc_encoding_tag f (
        put ack_mode_tag e (
          put heartbeat_interval_ms_tag d (
            put supported_rpc_encodings_tag c
              (put supported_payload_types_tag b (put max_frame_size_tag a no_params)))))
      ≡ record {
        max_frame_size = a;
        supported_payload_types = b;
        supported_rpc_encodings = c;
        heartbeat_interval_ms = d;
        ack_mode = e;
        selected_rpc_encoding = f;
      }
unfolding set_param
put_all a b c d e f = ground arith

params-Steps : (p : PartialParams) → FitWire p → Steps (params_bytes p) no_params p
params-Steps p h = subst (Steps (params_bytes p) no_params) (put_all a b c d e f) (
    Steps-append (optional_bytes max_frame_size_tag word a) _ _ _ _
      (put-Steps max_frame_size_tag word a no_params h.max_frame_size)
      (Steps-append (optional_bytes supported_payload_types_tag byte b) _ _ _ _
        (put-Steps supported_payload_types_tag byte b _ h.supported_payload_types)
        (Steps-append (optional_bytes supported_rpc_encodings_tag byte c) _ _ _ _
          (put-Steps supported_rpc_encodings_tag byte c _ h.supported_rpc_encodings)
          (Steps-append (optional_bytes heartbeat_interval_ms_tag word d) _ _ _ _
            (put-Steps heartbeat_interval_ms_tag word d _ h.heartbeat_interval_ms)
            (Steps-append (optional_bytes ack_mode_tag byte e) _ _ _ _
              (put-Steps ack_mode_tag byte e _ h.ack_mode)
              (put-Steps selected_rpc_encoding_tag byte f _ h.selected_rpc_encoding))))))
  where
    open p use {
      max_frame_size as a, supported_payload_types as b, supported_rpc_encodings as c,
      heartbeat_interval_ms as d, ack_mode as e, selected_rpc_encoding as f,
    }

-- What decodeControl makes of the bytes of a header and parameters.
abbrev pub control_payload : ℕ → ℕ → ℕ → PartialParams → ControlPayload
control_payload opcode control_id status_code p = record {
  opcode = opcode;
  control_id = control_id;
  status_code = status_code;
  body = params_bytes p;
  tlv = p;
}

-- An opcode of a byte, an id and a status of two bytes and parameters that fit their widths, any
-- of which may be missing, are decoded as they were encoded.
pub decode_control-encode_control :
    (opcode control_id status_code : ℕ) (p : PartialParams)
    → opcode < 256
    → control_id < 2 ^ 16
    → status_code < 2 ^ 16
    → FitWire p
    → decode_control (encode_control opcode control_id status_code p)
      ≡ returns (control_payload opcode control_id status_code p)
unfolding decode_control read_control
decode_control-encode_control opcode control_id status_code p h₁ h₂ h₃ fit =
    let body = encode_control opcode control_id status_code p in
    let (r₁, e₁, u₁) =
      read_u8_strict-Reads opcode h₁ (new_reader body) _
        (encode_control-bytes opcode control_id status_code p) in
    let (r₂, e₂, u₂) = read_u16_strict-Reads control_id h₂ r₁ _ u₁ in
    let (r₃, e₃, u₃) = read_u16_strict-Reads status_code h₃ r₂ _ u₂ in
    let (r₄, e₄, u₄) =
      read_bytes-Reads (params_bytes p) r₃ [] (u₃ ∙ sym (append-nil (params_bytes p))) in
    let size : remaining r₃ ≡ length (params_bytes p) = length-unread r₃ ∙ ap length u₃ in
    let e₄' = ap (λ n. read_bytes n r₃) size ∙ e₄ in
    let got : read_control (new_reader body)
        ≡ returns ((opcode, control_id, status_code, params_bytes p), r₄) =
      rw (e₁, ◌>>=◌) (rw (e₂, ◌>>=◌) (rw (e₃, ◌>>=◌) (rw (e₄', ◌>>=◌) refl))) in
    let (fuel, r, steps, left, enough) =
      params-Steps p fit (suc (length (params_bytes p))) (new_reader (params_bytes p)) []
        (sym (append-nil (params_bytes p))) (omega arith) in
    rw (got, decode_control) (rw (steps ∙ read_params_end fuel p r left) refl)
