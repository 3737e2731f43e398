-- ===== src/Io/Hex.antt =====
-- src/io/bytes.ts, hexToBytes and bytesToHex. A text is the list of its UTF-16 code units.
pub mod RoundTrip
use axtp_ts_runtime.Common.{
  ℕ, zero, suc, ◌+◌, ◌-◌, ◌*◌, ◌/◌, ◌%◌, List, [], ◌∷◌, ◌++◌, Option, none, some, Bool, true, false,
  ◌==◌, ◌&&◌, ◌||◌, ltb, leb, if◌then◌else◌, length, replicate, Result, returns, throws,
}
use axtp_ts_runtime.Model.Rpc.{Text}

-- Number.prototype.toString(16)
abbrev pub hex_char : ℕ → ℕ
hex_char n = if ltb n 10 then b'0' + n else 87 + n

unfoldable pub hex_digits : ℕ → ℕ → Text
hex_digits zero n = hex_char n ∷ []
hex_digits (suc fuel) n =
    let higher = hex_digits fuel (n / 16) in
    if ltb n 16 then hex_char n ∷ [] else higher ++ (hex_char (n % 16) ∷ [])

-- Each digit divides `n` by 16, so `n` steps are enough.
unfoldable pub to_string_16 : ℕ → Text
unfolding hex_digits
to_string_16 n = hex_digits n n

-- String.prototype.padStart with "0"
abbrev pub pad_start : ℕ → Text → Text
pad_start width s = replicate (width - length s) b'0' ++ s

-- `b.toString(16).padStart(2, "0")`
unfoldable pub hex_of : ℕ → Text
unfolding to_string_16
hex_of b = pad_start 2 (to_string_16 b)

unfoldable pub bytes_to_hex : List ℕ → Text
unfolding hex_of
bytes_to_hex [] = []
bytes_to_hex (b ∷ bytes) = hex_of b ++ bytes_to_hex bytes

-- The characters of the class `\s`.
abbrev pub is_space : ℕ → Bool
is_space c =
    (leb 9 c && leb c 13)
    || (c == 32)
    || (c == 0xA0)
    || (c == 0x1680)
    || (leb 0x2000 c && leb c 0x200A)
    || (c == 0x2028)
    || (c == 0x2029)
    || (c == 0x202F)
    || (c == 0x205F)
    || (c == 0x3000)
    || (c == 0xFEFF)

unfoldable pub without_spaces : Text → Text
without_spaces [] = []
without_spaces (c ∷ cs) = let kept = without_spaces cs in if is_space c then kept else c ∷ kept

unfoldable pub digit_value : ℕ → Option ℕ
digit_value c =
    if leb b'0' c && leb c b'9'
    then some (c - b'0')
    else if leb b'a' c && leb c b'f'
    then some (c - 87)
    else if leb b'A' c && leb c b'F'
    then some (c - 55)
    else none

abbrev or_zero : Option ℕ → ℕ
or_zero none = 0
or_zero (some n) = n

abbrev second_digit : ℕ → Option ℕ → ℕ
second_digit high none = high
second_digit high (some low) = high * 16 + low

-- What a cell of the Uint8Array holds after Number.parseInt(two characters, 16): a text with no
-- digit is NaN, which is written as 0; a minus sign wraps; what follows a digit and is none is dropped.
unfoldable pub parse_pair : ℕ → ℕ → ℕ
unfolding digit_value
parse_pair a b = elim (digit_value a) [
  | some high ↦ second_digit high (digit_value b)
  | none ↦
      if a == b'+'
      then or_zero (digit_value b)
      else if a == b'-'
      then (256 - or_zero (digit_value b)) % 256
      else 0
]

unfoldable pub parse_pairs : Text → List ℕ
unfolding parse_pair
parse_pairs [] = []
parse_pairs (a ∷ []) = []
parse_pairs (a ∷ b ∷ rest) = parse_pair a b ∷ parse_pairs rest

pub data HexError : Type 0 where
  odd_length : HexError

unfoldable pub hex_to_bytes : Text → Result HexError (List ℕ)
unfolding without_spaces parse_pairs
hex_to_bytes hex =
    let normalized = without_spaces hex in
    if length normalized % 2 == 0 then returns (parse_pairs normalized) else throws odd_length
