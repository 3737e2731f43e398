-- ===== src/Io/Reader.antt =====
-- src/io/io.ts, class ByteReader. The reader's state is the data and the cursor; `Read A` is code
-- that moves the cursor, returns an `A` (an `Option` where the source returns `undefined`) and
-- may throw. For bytes `|` of shifted bytes is their sum.
pub mod Laws
pub mod Totality
pub mod Inversion
use axtp_ts_runtime.Common.{
  ℕ, zero, suc, ◌+◌, ◌-◌, ◌*◌, ◌%◌, ◌^◌, List, ◌∷◌, Bool, Option, none, some, length, take, drop,
  get_or, leb, ◌==◌, if◌then◌else◌, Result, returns, throws,
}

-- `throw new Error("ByteReader: unexpected EOF ...")`
pub data Exn : Type 0 where
  unexpected_eof : Exn

pub record ByteReader : Type 0 where
  -- the source's `data`
  pub bytes : List ℕ
  pub cursor : ℕ

abbrev pub new_reader : List ℕ → ByteReader
new_reader bytes = record { bytes = bytes; cursor = 0 }

abbrev pub Read {ℓ} : Type ℓ → Type ℓ
Read A = ByteReader → Result Exn (A × ByteReader)

abbrev pub pure {ℓ} : {A : Type ℓ} → A → Read A
pure a r = returns (a, r)

infixl 5 ◌>>=◌
abbrev pub ◌>>=◌ {ℓ κ} : {A : Type ℓ} {B : Type κ} → Read A → (A → Read B) → Read B
◌>>=◌ m f r = elim (m r) [ returns (a, r') ↦ f a r' | throws e ↦ throws e ]

unfoldable pub remaining : ByteReader → ℕ
remaining r = length r.bytes - r.cursor

unfoldable pub has_remaining : ℕ → ByteReader → Bool
unfolding remaining
has_remaining count r = leb count (remaining r)

unfoldable pub is_empty : ByteReader → Bool
unfolding remaining
is_empty r = remaining r == 0

-- `this.data[this.cursor + i]`, which is read below the end only.
unfoldable pub byte_at : ByteReader → ℕ → ℕ
byte_at r i = get_or r.bytes (r.cursor + i) 0

abbrev pub advance : ℕ → ByteReader → ByteReader
advance n r = record r { cursor = r.cursor + n }

-- The guard, the value and the move that the readers share.
guarded {ℓ} : {A : Type ℓ} → ℕ → (ByteReader → A) → Read (Option A)
unfolding has_remaining
guarded size value r =
    if has_remaining size r then returns (some (value r), advance size r) else returns (none, r)

unfoldable pub read_u8 : Read (Option ℕ)
unfolding guarded
read_u8 = guarded 1 λ r. byte_at r 0

unfoldable pub read_u16 : Read (Option ℕ)
unfolding guarded
read_u16 = guarded 2 λ r. (byte_at r 0 * 2 ^ 8 + byte_at r 1) % 2 ^ 16

unfoldable pub read_u32 : Read (Option ℕ)
unfolding guarded
read_u32 =
    guarded 4 λ r.
      (byte_at r 0 * 2 ^ 24 + byte_at r 1 * 2 ^ 16 + byte_at r 2 * 2 ^ 8 + byte_at r 3) % 2 ^ 32

-- `for (let shift = 56n; shift >= 0n; shift -= 8n) value |= BigInt(byte) << shift`, `i` bytes on.
unfoldable pub big_endian_value : ℕ → ℕ → ByteReader → ℕ
big_endian_value zero i r = 0
big_endian_value (suc rounds) i r =
    byte_at r i * 2 ^ (8 * rounds) + big_endian_value rounds (suc i) r

unfoldable pub read_u64 : Read (Option ℕ)
unfolding guarded big_endian_value
read_u64 = guarded 8 (big_endian_value 8 0)

unfoldable pub read_bytes : ℕ → Read (Option (List ℕ))
unfolding guarded
read_bytes size = guarded size λ r. take size (drop r.cursor r.bytes)

-- The strict variants throw where the others return `undefined`.
abbrev or_throw {ℓ} : {A : Type ℓ} → Option A → Read A
or_throw none r = throws unexpected_eof
or_throw (some a) r = returns (a, r)

unfoldable pub read_u8_strict : Read ℕ
read_u8_strict = do v ← read_u8; or_throw v

unfoldable pub read_u16_strict : Read ℕ
read_u16_strict = do v ← read_u16; or_throw v

unfoldable pub read_u32_strict : Read ℕ
read_u32_strict = do v ← read_u32; or_throw v

unfoldable pub read_u64_strict : Read ℕ
read_u64_strict = do v ← read_u64; or_throw v

unfoldable pub read_bytes_strict : ℕ → Read (List ℕ)
read_bytes_strict size = do v ← read_bytes size; or_throw v
