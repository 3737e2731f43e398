-- ===== src/Io/Hex/RoundTrip.antt =====
-- bytesToHex writes two digits for a byte, and hexToBytes reads the bytes back.
use mathlib.Core.Path.{ap₂}
use mathlib.Core.List.{append_assoc}
use axtp_ts_runtime.Common.{
  ℕ, ◌/◌, ◌%◌, ◌<◌, ◌≡◌, refl, ap, sym, List, [], ◌∷◌, ◌++◌, Bool, true, false, ◌==◌, ◌&&◌, not,
  length, arith, returns, ==→eq, all_below, all_below_lem, left_true, right_true, false_of_not,
}
use axtp_ts_runtime.Model.Rpc.{same_text, same_text→eq}
use axtp_ts_runtime.Io.Writer.{AreBytes}
use axtp_ts_runtime.Io.Hex.{
  hex_char, hex_digits, to_string_16, hex_of, bytes_to_hex, is_space, without_spaces, digit_value,
  parse_pair, parse_pairs, hex_to_bytes,
}

two_digits_test : ℕ → Bool
unfolding hex_of
two_digits_test n = same_text (hex_of n) (hex_char (n / 16) ∷ hex_char (n % 16) ∷ [])

every_two_digits : all_below 256 two_digits_test ≡ true
unfolding two_digits_test all_below hex_of to_string_16 hex_digits
every_two_digits = refl

hex_of_two : (n : ℕ) → n < 256 → hex_of n ≡ hex_char (n / 16) ∷ hex_char (n % 16) ∷ []
unfolding two_digits_test
hex_of_two n h =
    same_text→eq (hex_of n) (hex_char (n / 16) ∷ hex_char (n % 16) ∷ [])
      (all_below_lem 256 two_digits_test every_two_digits n h)

pair_test : ℕ → Bool
unfolding parse_pair
pair_test n =
    (parse_pair (hex_char (n / 16)) (hex_char (n % 16)) == n)
    && not (is_space (hex_char (n / 16)))
    && not (is_space (hex_char (n % 16)))

every_pair : all_below 256 pair_test ≡ true
unfolding pair_test all_below parse_pair digit_value
every_pair = refl

module _ (n : ℕ) (byte : n < 256) where
  pair_facts : pair_test n ≡ true
  pair_facts = all_below_lem 256 pair_test every_pair n byte

  parse_pair_lem : parse_pair (hex_char (n / 16)) (hex_char (n % 16)) ≡ n
  unfolding pair_test
  parse_pair_lem = ==→eq _ n (left_true _ _ (left_true _ _ pair_facts))

  high_not_space : is_space (hex_char (n / 16)) ≡ false
  unfolding pair_test
  high_not_space = false_of_not _ (right_true _ _ (left_true _ _ pair_facts))

  low_not_space : is_space (hex_char (n % 16)) ≡ false
  unfolding pair_test
  low_not_space = false_of_not _ (right_true _ _ pair_facts)

without_spaces-bytes_to_hex :
    (bytes : List ℕ) → AreBytes bytes → without_spaces (bytes_to_hex bytes) ≡ bytes_to_hex bytes
unfolding without_spaces bytes_to_hex
without_spaces-bytes_to_hex [] h = refl
without_spaces-bytes_to_hex (b ∷ bytes) (byte, h) = rw (hex_of_two b byte) (
    rw (high_not_space b byte) (
      rw (low_not_space b byte) (
        ap (λ t. hex_char (b / 16) ∷ hex_char (b % 16) ∷ t) (without_spaces-bytes_to_hex bytes h))))

parse_pairs-bytes_to_hex :
    (bytes : List ℕ) → AreBytes bytes → parse_pairs (bytes_to_hex bytes) ≡ bytes
unfolding parse_pairs bytes_to_hex
parse_pairs-bytes_to_hex [] h = refl
parse_pairs-bytes_to_hex (b ∷ bytes) (byte, h) =
    rw (hex_of_two b byte) (ap₂ ◌∷◌ (parse_pair_lem b byte) (parse_pairs-bytes_to_hex bytes h))

even-bytes_to_hex : (bytes : List ℕ) → AreBytes bytes → length (bytes_to_hex bytes) % 2 ≡ 0
unfolding bytes_to_hex
even-bytes_to_hex [] h = omega arith
even-bytes_to_hex (b ∷ bytes) (byte, h) =
    rw (hex_of_two b byte) (omega (arith, even-bytes_to_hex bytes h))

pub hex_to_bytes-bytes_to_hex :
    (bytes : List ℕ) → AreBytes bytes → hex_to_bytes (bytes_to_hex bytes) ≡ returns bytes
unfolding hex_to_bytes
hex_to_bytes-bytes_to_hex bytes h =
    rw (without_spaces-bytes_to_hex bytes h)
      (rw (even-bytes_to_hex bytes h) (ap returns (parse_pairs-bytes_to_hex bytes h)))

pub bytes_to_hex-append : (a b : List ℕ) → bytes_to_hex (a ++ b) ≡ bytes_to_hex a ++ bytes_to_hex b
unfolding bytes_to_hex
bytes_to_hex-append [] b = refl
bytes_to_hex-append (x ∷ a) b =
    rw (bytes_to_hex-append a b) (sym (append_assoc (hex_of x) (bytes_to_hex a) (bytes_to_hex b)))
