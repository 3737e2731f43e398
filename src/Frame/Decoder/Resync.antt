-- ===== src/Frame/Decoder/Resync.antt =====
-- The search for the magic: what it keeps, and that it may be done before more bytes arrive.
use axtp_ts_runtime.Common.{
  ℕ, ◌≤◌, List, [], ◌∷◌, ◌++◌, length, ◌≡◌, ◌≢◌, All, refl, ap, arith, ◌==◌, ◌&&◌, Bool-cases, inl,
  inr,
}
use axtp_ts_runtime.Frame.{magic_0, magic_1}
use axtp_ts_runtime.Frame.Decoder.{resync_to_magic}

pub length-resync_le : (xs : List ℕ) → length (resync_to_magic xs) ≤ length xs
unfolding resync_to_magic
length-resync_le [] = omega arith
length-resync_le (x ∷ []) = ground arith
length-resync_le (x ∷ y ∷ rest) = ground (arith, length-resync_le (y ∷ rest))

-- A buffer that begins with the magic stays.
pub resync_magic :
    (rest : List ℕ) → resync_to_magic (magic_0 ∷ magic_1 ∷ rest) ≡ magic_0 ∷ magic_1 ∷ rest
unfolding resync_to_magic
resync_magic rest = refl

pub resync-append :
    (xs ys : List ℕ) → resync_to_magic (resync_to_magic xs ++ ys) ≡ resync_to_magic (xs ++ ys)
unfolding resync_to_magic
resync-append [] ys = refl
resync-append (x ∷ []) [] = ground arith
resync-append (x ∷ []) (y ∷ ys) = ground arith
resync-append (x ∷ y ∷ rest) ys = ground (arith, resync-append (y ∷ rest) ys)

pub resync_idempotent : (xs : List ℕ) → resync_to_magic (resync_to_magic xs) ≡ resync_to_magic xs
unfolding resync_to_magic
resync_idempotent [] = refl
resync_idempotent (x ∷ []) = ground arith
resync_idempotent (x ∷ y ∷ rest) = ground (arith, resync_idempotent (y ∷ rest))

-- Two bytes that the search kept are the magic, so more bytes behind them change nothing.
pub resync-append_found :
    (xs ys : List ℕ)
    → 2 ≤ length (resync_to_magic xs)
    → resync_to_magic (resync_to_magic xs ++ ys) ≡ resync_to_magic xs ++ ys
unfolding resync_to_magic
resync-append_found [] ys h = absurd (omega arith)
resync-append_found (x ∷ []) ys h = ground arith
resync-append_found (x ∷ y ∷ rest) ys h = ground (arith, resync-append_found (y ∷ rest) ys)

-- Bytes that cannot begin the magic are skipped.
pub resync_noise :
    (noise xs : List ℕ)
    → All (λ b. b ≢ magic_0) noise
    → resync_to_magic (noise ++ xs) ≡ resync_to_magic xs
unfolding resync_to_magic
resync_noise [] xs h = refl
resync_noise (x ∷ []) [] h = ground (arith, h.0)
resync_noise (x ∷ []) (y ∷ ys) h = ground (arith, h.0)
resync_noise (x ∷ y ∷ rest) ys h = ground (arith, h.0, resync_noise (y ∷ rest) ys h.1)

pub resync_found :
    (xs : List ℕ)
    → 2 ≤ length (resync_to_magic xs)
    → (rest : List ℕ) × (resync_to_magic xs ≡ magic_0 ∷ magic_1 ∷ rest)
unfolding resync_to_magic
resync_found [] h = absurd (omega arith)
resync_found (x ∷ []) h = absurd (ground arith)
resync_found (x ∷ y ∷ rest) h = elim (Bool-cases (x == magic_0 && y == magic_1)) [
  | inl found ↦ (rest, ground arith)
  | inr other ↦ rw other (resync_found (y ∷ rest) (rw other at h))
]

-- What the search keeps is a back part of the input.
pub resync_suffix : (xs : List ℕ) → (skipped : List ℕ) × (xs ≡ skipped ++ resync_to_magic xs)
unfolding resync_to_magic
resync_suffix [] = ([], refl)
resync_suffix (x ∷ []) = elim (Bool-cases (x == magic_0)) [
  | inl found ↦ ([], rw found)
  | inr other ↦ (x ∷ [], rw other)
]
resync_suffix (x ∷ y ∷ rest) = elim (Bool-cases (x == magic_0 && y == magic_1)) [
  | inl found ↦ ([], rw found)
  | inr other ↦
      let (skipped, e) = resync_suffix (y ∷ rest) in (x ∷ skipped, rw other (ap (◌∷◌ x) e))
]
