-- ===== src/Io/Writer.antt =====
-- src/io/io.ts, class ByteWriter. The writer's state is the array `values`; a number is a ℕ. For
-- a non-negative integer `value & 0xff` is `value % 256` and `(value >> k) & 0xff` is
-- `value / 2 ^ k % 256` for k up to 24: the conversion to int32 keeps the lowest 32 bits.
use axtp_ts_runtime.Common.{ℕ, zero, suc, ◌/◌, ◌*◌, ◌%◌, ◌^◌, ◌<◌, List, [], ◌∷◌, ◌++◌, All}

abbrev pub IsByte : ℕ → Type 0
IsByte b = b < 256

abbrev pub AreBytes : List ℕ → Type 0
AreBytes = All IsByte

pub record ByteWriter : Type 0 where
  pub values : List ℕ

abbrev pub new_writer : ByteWriter
new_writer = record { values = [] }

-- `this.values.push(...)`
abbrev push : List ℕ → ByteWriter → ByteWriter
push bytes w = record { values = w.values ++ bytes }

abbrev pub u8_bytes : ℕ → List ℕ
u8_bytes value = (value % 256) ∷ []

abbrev pub u16_bytes : ℕ → List ℕ
u16_bytes value = (value / 2 ^ 8 % 256) ∷ (value % 256) ∷ []

abbrev pub u32_bytes : ℕ → List ℕ
u32_bytes value =
    (value / 2 ^ 24 % 256) ∷ (value / 2 ^ 16 % 256) ∷ (value / 2 ^ 8 % 256) ∷ (value % 256) ∷ []

unfoldable pub write_u8 : ℕ → ByteWriter → ByteWriter
write_u8 value w = push (u8_bytes value) w

unfoldable pub write_u16 : ℕ → ByteWriter → ByteWriter
write_u16 value w = push (u16_bytes value) w

unfoldable pub write_u32 : ℕ → ByteWriter → ByteWriter
write_u32 value w = push (u32_bytes value) w

-- `for (let shift = 56n; shift >= 0n; shift -= 8n)`: the rounds left, `shift` being 8 bits less
-- for each round done.
abbrev pub big_endian : ℕ → ℕ → List ℕ
big_endian zero value = []
big_endian (suc rounds) value = (value / 2 ^ (8 * rounds) % 256) ∷ big_endian rounds value

unfoldable pub write_u64 : ℕ → ByteWriter → ByteWriter
write_u64 value w = push (big_endian 8 value) w

unfoldable pub write_bytes : List ℕ → ByteWriter → ByteWriter
write_bytes bytes w = push bytes w
