-- ===== src/Io/Crc.antt =====
-- src/io/io.ts, crc16CcittFalse. `crc` and a shifted byte are below 2 ^ 24, so no operation meets
-- the sign bit of an int32.
use Prim.Native.Nat.{bit_and, bit_xor}
use axtp_ts_runtime.Common.{
  ℕ, zero, suc, ◌*◌, ◌%◌, ◌^◌, ◌<◌, List, [], ◌∷◌, ◌==◌, if◌then◌else◌, ◌≡◌, refl, arith,
}

-- One round of the inner loop.
crc_bit : ℕ → ℕ
crc_bit crc =
    if bit_and crc 0x8000 == 0
    then crc * 2 ^ 1 % 0x10000
    else bit_xor (crc * 2 ^ 1) 0x1021 % 0x10000

-- `for (let bit = 0; bit < 8; bit += 1)`, by the rounds left.
crc_bits : ℕ → ℕ → ℕ
unfolding crc_bit
crc_bits zero crc = crc
crc_bits (suc rounds) crc = crc_bits rounds (crc_bit crc)

crc_loop : ℕ → List ℕ → ℕ
unfolding crc_bits
crc_loop crc [] = crc
crc_loop crc (byte ∷ bytes) = crc_loop (crc_bits 8 (bit_xor crc (byte * 2 ^ 8))) bytes

unfoldable pub crc16 : List ℕ → ℕ
unfolding crc_loop
crc16 bytes = crc_loop 0xffff bytes

crc_bits-lt : (rounds crc : ℕ) → crc_bits (suc rounds) crc < 0x10000
unfolding crc_bits
crc_bits-lt zero crc = ground arith
crc_bits-lt (suc rounds) crc = crc_bits-lt rounds (crc_bit crc)

crc_loop-lt : (crc : ℕ) (bytes : List ℕ) → crc < 0x10000 → crc_loop crc bytes < 0x10000
unfolding crc_loop
crc_loop-lt crc [] h = h
crc_loop-lt crc (byte ∷ bytes) h =
    crc_loop-lt (crc_bits 8 (bit_xor crc (byte * 2 ^ 8))) bytes
      (crc_bits-lt 7 (bit_xor crc (byte * 2 ^ 8)))

pub crc16-lt : (bytes : List ℕ) → crc16 bytes < 0x10000
unfolding crc16
crc16-lt bytes = crc_loop-lt 0xffff bytes (omega arith)

-- The check value of CRC-16/CCITT-FALSE: the checksum of "123456789".
crc16_check : crc16 (0x31 ∷ 0x32 ∷ 0x33 ∷ 0x34 ∷ 0x35 ∷ 0x36 ∷ 0x37 ∷ 0x38 ∷ 0x39 ∷ []) ≡ 0x29b1
unfolding crc16
crc16_check = refl
