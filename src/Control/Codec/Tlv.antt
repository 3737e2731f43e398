-- ===== src/Control/Codec/Tlv.antt =====
-- One TLV written and read again, and the loop of decodeControl over a list of them.
use mathlib.Core.List.{append_assoc, append-nil}
use axtp_ts_runtime.Common.{
  ℕ, zero, suc, ◌%◌, ◌^◌, ◌<◌, List, [], ◌∷◌, ◌++◌, false, Option, none, some, length, returns, ◌≡◌,
  refl, sym, ap, ◌∙◌, arith, length-append,
}
use axtp_ts_runtime.Io.Writer.{ByteWriter, u8_bytes, u16_bytes, write_u8, write_u16, write_u32}
use axtp_ts_runtime.Io.Reader.{ByteReader, ◌>>=◌, remaining, is_empty}
use axtp_ts_runtime.Io.Reader.Laws.{
  unread, Reads, length-unread, read_u8-Reads, read_u8_strict-Reads, read_u16_strict-Reads,
}
use axtp_ts_runtime.Control.Codec.{
  PartialParams, write_tlv, write_optional, read_value, read_tlv, read_params, set_param,
}

-- The widths that the encoder uses: one byte, or two.
pub data Width : Type 0 where
  byte word : Width

abbrev pub size : Width → ℕ
size byte = 1
size word = 2

abbrev pub bound : Width → ℕ
bound byte = 256
bound word = 2 ^ 16

abbrev pub value_bytes : Width → ℕ → List ℕ
value_bytes byte v = u8_bytes v
value_bytes word v = u16_bytes v

abbrev pub tlv_bytes : ℕ → Width → ℕ → List ℕ
tlv_bytes tag w v = tag ∷ size w ∷ value_bytes w v

abbrev pub optional_bytes : ℕ → Width → Option ℕ → List ℕ
optional_bytes tag w none = []
optional_bytes tag w (some v) = tlv_bytes tag w v

-- The value fits the width, if there is one.
abbrev pub Fits : Width → Option ℕ → Type 0
Fits w none = Unit
Fits w (some v) = v < bound w

pub write_optional-bytes :
    (tag : ℕ) (w : Width) (o : Option ℕ) (writer : ByteWriter)
    → tag % 256 ≡ tag
    → (write_optional tag o (size w) writer).values ≡ writer.values ++ optional_bytes tag w o
unfolding write_optional write_tlv write_u8 write_u16 write_u32
write_optional-bytes tag w none writer h = sym (append-nil writer.values)
write_optional-bytes tag byte (some v) writer h =
    ap (λ t. ((writer.values ++ (t ∷ [])) ++ (1 ∷ [])) ++ u8_bytes v) h
    ∙ append_assoc (writer.values ++ (tag ∷ [])) (1 ∷ []) (u8_bytes v)
    ∙ append_assoc writer.values (tag ∷ []) (1 ∷ u8_bytes v)
write_optional-bytes tag word (some v) writer h =
    ap (λ t. ((writer.values ++ (t ∷ [])) ++ (2 ∷ [])) ++ u16_bytes v) h
    ∙ append_assoc (writer.values ++ (tag ∷ [])) (2 ∷ []) (u16_bytes v)
    ∙ append_assoc writer.values (tag ∷ []) (2 ∷ u16_bytes v)

not_empty : (r : ByteReader) (x : ℕ) (rest : List ℕ) → unread r ≡ x ∷ rest → is_empty r ≡ false
unfolding is_empty
not_empty r x rest e = ground (arith, length-unread r, ap length e)

pub read_tlv-Reads :
    (fuel tag : ℕ) (w : Width) (v : ℕ)
    → v < bound w
    → Reads (read_tlv (suc fuel)) (tlv_bytes tag w v) (some (tag, v))
unfolding read_tlv read_value
read_tlv-Reads fuel tag byte v h r rest e =
    let (r₁, e₁, u₁) = read_u8-Reads tag r (1 ∷ (u8_bytes v ++ rest)) e in
    let (r₂, e₂, u₂) = read_u8-Reads 1 r₁ (u8_bytes v ++ rest) u₁ in
    let (r₃, e₃, u₃) = read_u8_strict-Reads v h r₂ rest u₂ in
    (
      r₃,
      rw (not_empty r tag (1 ∷ (u8_bytes v ++ rest)) e)
          (rw (e₁, ◌>>=◌) (rw (e₂, ◌>>=◌) (rw (e₃, ◌>>=◌) refl))),
      u₃,
    )
read_tlv-Reads fuel tag word v h r rest e =
    let (r₁, e₁, u₁) = read_u8-Reads tag r (2 ∷ (u16_bytes v ++ rest)) e in
    let (r₂, e₂, u₂) = read_u8-Reads 2 r₁ (u16_bytes v ++ rest) u₁ in
    let (r₃, e₃, u₃) = read_u16_strict-Reads v h r₂ rest u₂ in
    (
      r₃,
      rw (not_empty r tag (2 ∷ (u16_bytes v ++ rest)) e)
          (rw (e₁, ◌>>=◌) (rw (e₂, ◌>>=◌) (rw (e₃, ◌>>=◌) refl))),
      u₃,
    )

-- The loop takes the bytes `bs` and comes from the parameters `p` to `q`, with fuel for the rest.
abbrev pub Steps : List ℕ → PartialParams → PartialParams → Type 0
Steps bs p q =
    (fuel : ℕ) (r : ByteReader) (rest : List ℕ)
    → unread r ≡ bs ++ rest
    → length (unread r) < fuel
    → (fuel' : ℕ) × (r' : ByteReader) × (read_params fuel p r ≡ read_params fuel' q r')
      × (unread r' ≡ rest)
      × (length (unread r') < fuel')

pub Steps-append :
    (bs cs : List ℕ) (p q s : PartialParams) → Steps bs p q → Steps cs q s → Steps (bs ++ cs) p s
Steps-append bs cs p q s h k fuel r rest e enough =
    let (f₁, r₁, e₁, u₁, n₁) = h fuel r (cs ++ rest) (e ∙ append_assoc bs cs rest) enough in
    let (f₂, r₂, e₂, u₂, n₂) = k f₁ r₁ rest u₁ n₁ in (f₂, r₂, e₁ ∙ e₂, u₂, n₂)

-- What one optional TLV changes.
abbrev pub put : ℕ → Option ℕ → PartialParams → PartialParams
put tag none p = p
put tag (some v) p = set_param (tag, v) p

pub put-Steps :
    (tag : ℕ) (w : Width) (o : Option ℕ) (p : PartialParams)
    → Fits w o
    → Steps (optional_bytes tag w o) p (put tag o p)
unfolding read_params
put-Steps tag w none p h fuel r rest e enough = (fuel, r, refl, e, enough)
put-Steps tag w (some v) p h zero r rest e enough = absurd (omega (arith, enough))
put-Steps tag w (some v) p h (suc fuel) r rest e enough =
    let (r', got, left) = read_tlv-Reads (remaining r) tag w v h r rest e in
    (
      fuel,
      r',
      rw (not_empty r tag (size w ∷ (value_bytes w v ++ rest)) e) (rw got refl),
      left,
      omega (arith, enough, ap length e, ap length left, length-append (value_bytes w v) rest),
    )

pub read_params_end :
    (fuel : ℕ) (p : PartialParams) (r : ByteReader)
    → unread r ≡ []
    → read_params fuel p r ≡ returns p
unfolding read_params is_empty
read_params_end zero p r e = refl
read_params_end (suc fuel) p r e = ground (arith, length-unread r, ap length e)
