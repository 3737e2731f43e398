-- ===== src/EventMasks/Bits.antt =====
-- A mask holds the bits that were set in it, and no other.
use Prim.Native.Nat.{bit_and, bit_or}
use axtp_ts_runtime.Common.{
  ℕ, zero, suc, ◌-◌, ◌/◌, ◌%◌, ◌^◌, ◌<◌, ◌≡◌, refl, List, [], ◌∷◌, Bool, true, false, not, ◌==◌,
  ◌&&◌, ◌||◌, ltb, if◌then◌else◌, length, get_or, set, replicate, arith, inl, inr, Bool-cases,
  all_below, all_below_lem, left_true, right_true, false_of_not, ◌∙◌, ap, ltb→lt,
}
use axtp_ts_runtime.Io.Writer.{AreBytes}
use axtp_ts_runtime.EventMasks.{max_bit, mask_length, set_bit, set_bits, domain_mask, test_bit}

same_bool : Bool → Bool → Bool
same_bool true b = b
same_bool false b = not b

same_bool→eq : (a b : Bool) → same_bool a b ≡ true → a ≡ b
unfolding same_bool
same_bool→eq true true h = refl
same_bool→eq true false h = absurd (cc h)
same_bool→eq false true h = absurd (cc h)
same_bool→eq false false h = refl

has_bit : ℕ → ℕ → Bool
has_bit byte j = not (bit_and byte (2 ^ j) == 0)

byte_test : ℕ → ℕ → ℕ → Bool
byte_test byte k j = same_bool (has_bit (bit_or byte (2 ^ k)) j) ((k == j) || has_bit byte j)

byte_tests : ℕ → Bool
byte_tests byte = all_below 8 (λ k. ltb (bit_or byte (2 ^ k)) 256 && all_below 8 (byte_test byte k))

every_byte : all_below 256 byte_tests ≡ true
unfolding all_below byte_tests byte_test has_bit same_bool
every_byte = refl

module _ (byte k : ℕ) (is_byte : byte < 256) (k_lt : k < 8) where
  byte_facts : (ltb (bit_or byte (2 ^ k)) 256 && all_below 8 (byte_test byte k)) ≡ true
  unfolding byte_tests
  byte_facts =
      all_below_lem 8 (λ k. ltb (bit_or byte (2 ^ k)) 256 && all_below 8 (byte_test byte k))
        (all_below_lem 256 byte_tests every_byte byte is_byte) k k_lt

  bit_or-lt : bit_or byte (2 ^ k) < 256
  bit_or-lt = ltb→lt _ _ (left_true _ _ byte_facts)

  has_bit-bit_or : (j : ℕ) → j < 8 → has_bit (bit_or byte (2 ^ k)) j ≡ ((k == j) || has_bit byte j)
  unfolding byte_test
  has_bit-bit_or j j_lt =
      same_bool→eq _ _ (all_below_lem 8 (byte_test byte k) (right_true _ _ byte_facts) j j_lt)

get_or-set :
    (m : List ℕ) (i j v : ℕ)
    → i < length m
    → get_or (set m i v) j 0 ≡ (if i == j then v else get_or m j 0)
get_or-set [] i j v h = absurd (omega (arith, h))
get_or-set (x ∷ m) zero zero v h = refl
get_or-set (x ∷ m) zero (suc j) v h = ground arith
get_or-set (x ∷ m) (suc i) zero v h = ground arith
get_or-set (x ∷ m) (suc i) (suc j) v h = ground (arith, get_or-set m i j v)

length-set : (m : List ℕ) (i v : ℕ) → length (set m i v) ≡ length m
length-set [] i v = refl
length-set (x ∷ m) zero v = refl
length-set (x ∷ m) (suc i) v = omega (arith, length-set m i v)

set-AreBytes : (m : List ℕ) (i v : ℕ) → AreBytes m → v < 256 → AreBytes (set m i v)
set-AreBytes [] i v h byte = tt
set-AreBytes (x ∷ m) zero v (b, h) byte = (byte, h)
set-AreBytes (x ∷ m) (suc i) v (b, h) byte = (b, set-AreBytes m i v h byte)

get_or-byte : (m : List ℕ) (i : ℕ) → AreBytes m → get_or m i 0 < 256
get_or-byte [] i h = omega arith
get_or-byte (x ∷ m) zero (b, h) = b
get_or-byte (x ∷ m) (suc i) (b, h) = get_or-byte m i h

mask_byte : List ℕ → ℕ → ℕ
mask_byte mask bit =
    if ltb (bit / 8) (length mask) then get_or mask (length mask - 1 - bit / 8) 0 else 0

mask_byte-lt : (mask : List ℕ) (bit : ℕ) → AreBytes mask → mask_byte mask bit < 256
unfolding mask_byte
mask_byte-lt mask bit h = ground (arith, get_or-byte mask (length mask - 1 - bit / 8) h)

-- The two bits are one exactly when their bytes and their places in the byte are.
same_bit : (a b : ℕ) → (a == b) ≡ ((a / 8 == b / 8) && (a % 8 == b % 8))
same_bit a b = ground arith

module _ (len : ℕ) (mask : List ℕ) (bit : ℕ) (fits : bit / 8 < len) (size : length mask ≡ len)
    (bytes : AreBytes mask) where
  length-set_bit : length (set_bit len mask bit) ≡ len
  unfolding set_bit
  length-set_bit = length-set mask _ _ ∙ size

  set_bit-AreBytes : AreBytes (set_bit len mask bit)
  unfolding set_bit
  set_bit-AreBytes =
      set-AreBytes mask _ _ bytes
        (bit_or-lt _ (bit % 8) (get_or-byte mask (len - 1 - bit / 8) bytes) (omega arith))

  mask_byte-set_bit :
      (other : ℕ)
      → mask_byte (set_bit len mask bit) other ≡ (
          if bit / 8 == other / 8
          then bit_or (mask_byte mask other) (2 ^ (bit % 8))
          else mask_byte mask other)
  unfolding mask_byte set_bit
  mask_byte-set_bit other =
      let i : ℕ = len - 1 - bit / 8 in
      let v : ℕ = bit_or (get_or mask i 0) (2 ^ (bit % 8)) in
      rw (length-set mask i v) (rw size (ground (arith, get_or-set mask i (len - 1 - other / 8) v)))

  test_bit-set_bit :
      (other : ℕ) → test_bit (set_bit len mask bit) other ≡ ((bit == other) || test_bit mask other)
  unfolding test_bit has_bit mask_byte
  test_bit-set_bit other = ap (λ b. has_bit b (other % 8)) (mask_byte-set_bit other) ∙ split_bit
    where
      split_bit :
          has_bit
            (if bit / 8 == other / 8
              then bit_or (mask_byte mask other) (2 ^ (bit % 8))
              else mask_byte mask other)
            (other % 8)
          ≡ ((bit == other) || has_bit (mask_byte mask other) (other % 8))
      split_bit = rw (same_bit bit other) (elim (Bool-cases (bit / 8 == other / 8)) [
        | inl same ↦ rw same (
            has_bit-bit_or (mask_byte mask other) (bit % 8) (mask_byte-lt mask other bytes)
              (omega arith) (other % 8) (omega arith))
        | inr differs ↦ rw differs refl
      ])

abbrev pub member : ℕ → List ℕ → Bool
member bit [] = false
member bit (b ∷ bits) = (b == bit) || member bit bits

Fit : ℕ → List ℕ → Type 0
Fit len [] = Unit
Fit len (b ∷ bits) = (b / 8 < len) × Fit len bits

module _ (len : ℕ) where
  set_bits_lem :
      (mask bits : List ℕ) (other : ℕ)
      → length mask ≡ len
      → AreBytes mask
      → Fit len bits
      → (length (set_bits len mask bits) ≡ len)
        × AreBytes (set_bits len mask bits)
        × (test_bit (set_bits len mask bits) other ≡ (member other bits || test_bit mask other))
  unfolding set_bits Fit
  set_bits_lem mask [] other size bytes fit = (size, bytes, refl)
  set_bits_lem mask (b ∷ bits) other size bytes (fits, fit) =
      let o =
        set_bits_lem (set_bit len mask b) bits other (length-set_bit len mask b fits size bytes)
          (set_bit-AreBytes len mask b fits size bytes) fit in
      (
        o.0,
        o.1,
        o.2
            ∙ ap (λ t. member other bits || t) (test_bit-set_bit len mask b fits size bytes other)
            ∙ swap (member other bits) (b == other) _,
      )
    where
      swap : (a c d : Bool) → (a || (c || d)) ≡ ((c || a) || d)
      swap true true d = refl
      swap true false d = refl
      swap false true d = refl
      swap false false d = refl

max_bit-Fit : (len : ℕ) (bits : List ℕ) → max_bit bits / 8 < len → Fit len bits
unfolding Fit
max_bit-Fit len [] h = tt
max_bit-Fit len (b ∷ bits) h = (omega (arith, h), max_bit-Fit len bits (omega (arith, h)))

abbrev zeros : ℕ → List ℕ
zeros n = replicate n 0

get_or-zeros : (n i : ℕ) → get_or (zeros n) i 0 ≡ 0
get_or-zeros zero i = refl
get_or-zeros (suc n) zero = refl
get_or-zeros (suc n) (suc i) = get_or-zeros n i

length-zeros : (n : ℕ) → length (zeros n) ≡ n
length-zeros zero = refl
length-zeros (suc n) = omega (arith, length-zeros n)

zeros-AreBytes : (n : ℕ) → AreBytes (zeros n)
zeros-AreBytes zero = tt
zeros-AreBytes (suc n) = (omega arith, zeros-AreBytes n)

no_bit : ℕ → Bool
unfolding has_bit
no_bit j = not (has_bit 0 j)

no_bits : all_below 8 no_bit ≡ true
unfolding no_bit has_bit all_below
no_bits = refl

test_bit-zeros : (n other : ℕ) → test_bit (zeros n) other ≡ false
unfolding test_bit no_bit has_bit
test_bit-zeros n other =
    let byte : ℕ =
      if ltb (other / 8) (length (zeros n))
      then get_or (zeros n) (length (zeros n) - 1 - other / 8) 0
      else 0 in
    let is_zero : byte ≡ 0 = ground (arith, get_or-zeros n (length (zeros n) - 1 - other / 8)) in
    rw is_zero (false_of_not _ (all_below_lem 8 no_bit no_bits (other % 8) (omega arith)))

max_bit-fits : (bits : List ℕ) → max_bit bits / 8 < mask_length bits
unfolding mask_length
max_bit-fits bits = omega arith

or_false : (a : Bool) → (a || false) ≡ a
or_false true = refl
or_false false = refl

-- The mask of a domain is as long as its length says, of bytes, and holds exactly the domain's bits.
pub domain_mask_lem :
    (bits : List ℕ) (other : ℕ)
    → (length (domain_mask bits) ≡ mask_length bits)
      × AreBytes (domain_mask bits)
      × (test_bit (domain_mask bits) other ≡ member other bits)
unfolding domain_mask
domain_mask_lem bits other =
    let len = mask_length bits in
    let o =
      set_bits_lem len (zeros len) bits other (length-zeros len) (zeros-AreBytes len)
        (max_bit-Fit len bits (max_bit-fits bits)) in
    (o.0, o.1, o.2 ∙ rw (test_bit-zeros len other) (or_false (member other bits)))
