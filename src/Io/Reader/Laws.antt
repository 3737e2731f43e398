-- ===== src/Io/Reader/Laws.antt =====
-- The reader seen as the list of the bytes that it has not read.
use mathlib.Core.List.{append_assoc}
use axtp_ts_runtime.Common.{
  ℕ, ◌+◌, ◌*◌, ◌/◌, ◌%◌, ◌^◌, ◌<◌, List, [], ◌∷◌, ◌++◌, Option, none, some, length, take, drop,
  get_or, returns, throws, ◌≡◌, refl, sym, ap, ◌∙◌, arith, drop-drop, get_or-drop, length-drop,
  length-append, drop-append, take-append,
}
use axtp_ts_runtime.Io.Reader.{
  ByteReader, Read, unexpected_eof, advance, remaining, has_remaining, byte_at, guarded, read_u8,
  read_u16, read_u32, read_u64, read_bytes, read_u8_strict, read_u16_strict, read_u32_strict,
  read_u64_strict, read_bytes_strict, big_endian_value, ◌>>=◌, pure, or_throw,
}
use axtp_ts_runtime.Io.Writer.{IsByte, u8_bytes, u16_bytes, u32_bytes, big_endian}

abbrev pub unread : ByteReader → List ℕ
unread r = drop r.cursor r.bytes

pub length-unread : (r : ByteReader) → remaining r ≡ length (unread r)
unfolding remaining
length-unread r = sym (length-drop r.cursor r.bytes)

pub byte_at-unread : (r : ByteReader) (i : ℕ) → byte_at r i ≡ get_or (unread r) i 0
unfolding byte_at
byte_at-unread r i = sym (get_or-drop r.cursor i r.bytes 0)

pub unread-advance : (n : ℕ) (r : ByteReader) → unread (advance n r) ≡ drop n (unread r)
unread-advance n r = sym (drop-drop r.cursor n r.bytes)

-- `m` reads the bytes `bs` and returns `a`, whatever follows them.
abbrev pub Reads {ℓ} : {A : Type ℓ} → Read A → List ℕ → A → Type ℓ
Reads m bs a =
    (r : ByteReader) (rest : List ℕ)
    → unread r ≡ bs ++ rest
    → (r' : ByteReader) × (m r ≡ returns (a, r')) × (unread r' ≡ rest)

-- One read after another.
pub >>=-Reads {ℓ κ} :
    {A : Type ℓ} {B : Type κ} (m : Read A) (f : A → Read B) (bs cs : List ℕ) (a : A) (b : B)
    → Reads m bs a
    → Reads (f a) cs b
    → Reads (m >>= f) (bs ++ cs) b
>>=-Reads m f bs cs a b hm hf r rest e =
    let (r₁, e₁, u₁) = hm r (cs ++ rest) (e ∙ append_assoc bs cs rest) in
    let (r₂, e₂, u₂) = hf r₁ rest u₁ in (r₂, rw (e₁, ◌>>=◌) e₂, u₂)

pub pure-Reads {ℓ} : {A : Type ℓ} (a : A) → Reads (pure a) [] a
pure-Reads a r rest e = (r, refl, e)

guarded-Reads {ℓ} :
    {A : Type ℓ} (value : ByteReader → A) (bs : List ℕ) (a : A)
    → ((r : ByteReader) (rest : List ℕ) → unread r ≡ bs ++ rest → value r ≡ a)
    → Reads (guarded (length bs) value) bs (some a)
unfolding guarded has_remaining
guarded-Reads value bs a h r rest e = (
  advance (length bs) r,
  ground (arith, h r rest e, length-unread r, ap length e, length-append bs rest),
  unread-advance (length bs) r ∙ ap (drop (length bs)) e ∙ drop-append bs rest,
)

guarded_short {ℓ} :
    {A : Type ℓ} (size : ℕ) (value : ByteReader → A) (r : ByteReader)
    → length (unread r) < size
    → guarded size value r ≡ returns (none, r)
unfolding guarded has_remaining
guarded_short size value r h = ground (arith, length-unread r)

abbrev at : (r : ByteReader) (i : ℕ) {bs : List ℕ} → unread r ≡ bs → byte_at r i ≡ get_or bs i 0
at r i e = byte_at-unread r i ∙ ap (λ l. get_or l i 0) e

pub read_u8-Reads : (b : ℕ) → Reads read_u8 (b ∷ []) (some b)
unfolding read_u8
read_u8-Reads b = guarded-Reads _ (b ∷ []) b (λ r rest e. at r 0 e)

pub read_u16-Reads :
    (a b : ℕ) → IsByte a → IsByte b → Reads read_u16 (a ∷ b ∷ []) (some (a * 2 ^ 8 + b))
unfolding read_u16
read_u16-Reads a b ha hb =
    guarded-Reads _ (a ∷ b ∷ []) (a * 2 ^ 8 + b) (λ r rest e. omega (arith, at r 0 e, at r 1 e))

pub read_u32-Reads :
    (a b c d : ℕ)
    → IsByte a
    → IsByte b
    → IsByte c
    → IsByte d
    → Reads read_u32 (a ∷ b ∷ c ∷ d ∷ []) (some (a * 2 ^ 24 + b * 2 ^ 16 + c * 2 ^ 8 + d))
unfolding read_u32
read_u32-Reads a b c d ha hb hc hd =
    guarded-Reads _ (a ∷ b ∷ c ∷ d ∷ []) (a * 2 ^ 24 + b * 2 ^ 16 + c * 2 ^ 8 + d)
      (λ r rest e. omega (arith, at r 0 e, at r 1 e, at r 2 e, at r 3 e))

pub read_bytes-Reads : (bs : List ℕ) → Reads (read_bytes (length bs)) bs (some bs)
unfolding read_bytes
read_bytes-Reads bs =
    guarded-Reads _ bs bs (λ r rest e. ap (take (length bs)) e ∙ take-append bs rest)

-- A strict read of what the plain read finds.
strict-Reads {ℓ} :
    {A : Type ℓ} (m : Read (Option A)) (bs : List ℕ) (a b : A)
    → a ≡ b
    → Reads m bs (some a)
    → Reads (m >>= λ v. or_throw v) bs b
strict-Reads m bs a b p h r rest e =
    let (r', e', u) = h r rest e in (r', rw (e', ◌>>=◌) (ap (λ x. returns (x, r')) p), u)

-- What the writer writes, the strict reads return.
pub read_u8_strict-Reads : (v : ℕ) → IsByte v → Reads read_u8_strict (u8_bytes v) v
unfolding read_u8_strict
read_u8_strict-Reads v h =
    strict-Reads read_u8 (u8_bytes v) (v % 256) v (omega arith) (read_u8-Reads (v % 256))

pub read_u16_strict-Reads : (v : ℕ) → v < 2 ^ 16 → Reads read_u16_strict (u16_bytes v) v
unfolding read_u16_strict
read_u16_strict-Reads v h =
    strict-Reads read_u16 (u16_bytes v) _ v (omega arith)
      (read_u16-Reads (v / 2 ^ 8 % 256) (v % 256) (omega arith) (omega arith))

pub read_u32_strict-Reads : (v : ℕ) → v < 2 ^ 32 → Reads read_u32_strict (u32_bytes v) v
unfolding read_u32_strict
read_u32_strict-Reads v h = strict-Reads read_u32 (u32_bytes v) _ v (omega arith) (
    read_u32-Reads (v / 2 ^ 24 % 256) (v / 2 ^ 16 % 256) (v / 2 ^ 8 % 256) (v % 256) (omega arith)
      (omega arith) (omega arith) (omega arith))

u64_digits :
    (v : ℕ)
    → v < 2 ^ 64
    → v / 2 ^ 56 % 256 * 2 ^ 56
        + (v / 2 ^ 48 % 256 * 2 ^ 48
            + (v / 2 ^ 40 % 256 * 2 ^ 40
                + (v / 2 ^ 32 % 256 * 2 ^ 32
                    + (v / 2 ^ 24 % 256 * 2 ^ 24
                        + (v / 2 ^ 16 % 256 * 2 ^ 16
                            + (v / 2 ^ 8 % 256 * 2 ^ 8 + (v / 2 ^ 0 % 256 * 2 ^ 0 + 0)))))))
      ≡ v
u64_digits v h = omega arith

pub read_u64_strict-Reads : (v : ℕ) → v < 2 ^ 64 → Reads read_u64_strict (big_endian 8 v) v
unfolding read_u64_strict read_u64
read_u64_strict-Reads v h = strict-Reads read_u64 (big_endian 8 v) v v refl (
    guarded-Reads (big_endian_value 8 0) (big_endian 8 v) v
      λ r rest e. simp (big_endian_value, byte_at-unread, e) (u64_digits v h))

pub read_bytes_strict-Reads : (bs : List ℕ) → Reads (read_bytes_strict (length bs)) bs bs
unfolding read_bytes_strict
read_bytes_strict-Reads bs =
    strict-Reads (read_bytes (length bs)) bs bs bs refl (read_bytes-Reads bs)

-- A strict read throws where too few bytes are left.
strict_short {ℓ} :
    {A : Type ℓ} (size : ℕ) (value : ByteReader → A) (r : ByteReader)
    → length (unread r) < size
    → (guarded size value >>= λ v. or_throw v) r ≡ throws unexpected_eof
strict_short size value r h = rw (guarded_short size value r h, ◌>>=◌)

pub read_u8_strict_short :
    (r : ByteReader) → length (unread r) < 1 → read_u8_strict r ≡ throws unexpected_eof
unfolding read_u8_strict read_u8
read_u8_strict_short r h = strict_short 1 (λ q. byte_at q 0) r h

pub read_u16_strict_short :
    (r : ByteReader) → length (unread r) < 2 → read_u16_strict r ≡ throws unexpected_eof
unfolding read_u16_strict read_u16
read_u16_strict_short r h = strict_short 2 (λ q. (byte_at q 0 * 2 ^ 8 + byte_at q 1) % 2 ^ 16) r h

pub read_u8_strict_byte : (b : ℕ) → Reads read_u8_strict (b ∷ []) b
unfolding read_u8_strict
read_u8_strict_byte b = strict-Reads read_u8 (b ∷ []) b b refl (read_u8-Reads b)

pub read_u16_strict_bytes :
    (a b : ℕ) → IsByte a → IsByte b → Reads read_u16_strict (a ∷ b ∷ []) (a * 2 ^ 8 + b)
unfolding read_u16_strict
read_u16_strict_bytes a b ha hb =
    strict-Reads read_u16 (a ∷ b ∷ []) _ _ refl (read_u16-Reads a b ha hb)
