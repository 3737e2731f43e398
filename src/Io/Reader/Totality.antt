-- ===== src/Io/Reader/Totality.antt =====
-- When the reads succeed: a strict read throws only where too few bytes are left.
use axtp_ts_runtime.Common.{ℕ, ◌+◌, ◌-◌, ◌≤◌, some, returns, ◌≡◌, refl, arith}
use axtp_ts_runtime.Io.Reader.{
  ByteReader, Read, pure, ◌>>=◌, advance, remaining, has_remaining, guarded, read_u8, read_u16,
  read_u32, read_u64, read_u8_strict, read_u16_strict, read_u32_strict, read_u64_strict, or_throw,
}

-- `m` succeeds wherever `n` bytes are left, and takes these.
abbrev pub Takes {ℓ} : {A : Type ℓ} → Read A → ℕ → Type ℓ
Takes {A} m n =
    (r : ByteReader)
    → n ≤ remaining r
    → (a : A) × (r' : ByteReader) × (m r ≡ returns (a, r')) × (remaining r' ≡ remaining r - n)

pub >>=-Takes {ℓ κ} :
    {A : Type ℓ} {B : Type κ} (m : Read A) (f : A → Read B) (n k : ℕ)
    → Takes m n
    → ((a : A) → Takes (f a) k)
    → Takes (m >>= f) (n + k)
>>=-Takes m f n k hm hf r h =
    let (a, r₁, e₁, u₁) = hm r (omega arith) in
    let (b, r₂, e₂, u₂) = hf a r₁ (omega arith) in (b, r₂, rw (e₁, ◌>>=◌) e₂, omega arith)

pub pure-Takes {ℓ} : {A : Type ℓ} (a : A) → Takes (pure a) 0
pure-Takes a r h = (a, r, refl, omega arith)

guarded-Takes {ℓ} : {A : Type ℓ} (n : ℕ) (value : ByteReader → A) → Takes (guarded n value) n
unfolding guarded has_remaining remaining
guarded-Takes n value r h = (some (value r), advance n r, ground arith, omega arith)

strict-Takes {ℓ} :
    {A : Type ℓ} (n : ℕ) (value : ByteReader → A) → Takes (guarded n value >>= λ v. or_throw v) n
unfolding guarded has_remaining remaining
strict-Takes n value r h = (value r, advance n r, ground arith, omega arith)

pub read_u8-Takes : Takes read_u8 1
unfolding read_u8
read_u8-Takes = guarded-Takes 1 _

pub read_u8_strict-Takes : Takes read_u8_strict 1
unfolding read_u8_strict read_u8
read_u8_strict-Takes = strict-Takes 1 _

pub read_u16_strict-Takes : Takes read_u16_strict 2
unfolding read_u16_strict read_u16
read_u16_strict-Takes = strict-Takes 2 _

pub read_u32_strict-Takes : Takes read_u32_strict 4
unfolding read_u32_strict read_u32
read_u32_strict-Takes = strict-Takes 4 _

pub read_u64_strict-Takes : Takes read_u64_strict 8
unfolding read_u64_strict read_u64
read_u64_strict-Takes = strict-Takes 8 _
