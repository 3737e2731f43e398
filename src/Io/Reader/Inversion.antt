-- ===== src/Io/Reader/Inversion.antt =====
-- What a strict read that returned must have found.
use axtp_ts_runtime.Common.{
  ℕ, ◌/◌, ◌%◌, ◌^◌, ◌<◌, List, [], ◌∷◌, ◌++◌, Option, Result, returns, throws, ◌≡◌, refl, sym, ap,
  ◌∙◌, subst, arith,
}
use axtp_ts_runtime.Io.Writer.{AreBytes, u8_bytes, u16_bytes}
use axtp_ts_runtime.Io.Reader.{
  ByteReader, Read, Exn, ◌>>=◌, read_u8, read_u8_strict, read_u16_strict, read_u8,
}
use axtp_ts_runtime.Io.Reader.Laws.{
  unread, read_u8-Reads, read_u8_strict_short, read_u16_strict_short, read_u8_strict_byte,
  read_u16_strict_bytes,
}

-- A bind that returned, taken apart.
pub >>=-elim {ℓ κ μ} :
    {A : Type ℓ} {B : Type κ} {X : Type μ} (m : Read A) (f : A → Read B) {r : ByteReader} {b : B}
    {r'' : ByteReader}
    → (m >>= f) r ≡ returns (b, r'')
    → ((a : A) (r' : ByteReader) → m r ≡ returns (a, r') → f a r' ≡ returns (b, r'') → X)
    → X
>>=-elim {A} {X} m f {r} e use_parts = go (m r) refl
  where
    go : (x : Result Exn (A × ByteReader)) → m r ≡ x → X
    go (returns (a, r')) p = use_parts a r' p (sym (rw (p, ◌>>=◌) refl) ∙ e)
    go (throws x) p = absurd (cc (p, e))

-- `m` returned, so the bytes that it took are those that the writer writes for the value.
abbrev pub Wrote : Read ℕ → (ℕ → List ℕ) → ℕ → Type 0
Wrote m enc bound =
    (r : ByteReader) (a : ℕ) (r' : ByteReader)
    → AreBytes (unread r)
    → m r ≡ returns (a, r')
    → (unread r ≡ enc a ++ unread r') × AreBytes (unread r') × (a < bound)

-- Two outcomes of the same read are the same.
same_outcome :
    {x : Result Exn (ℕ × ByteReader)} {a b : ℕ} {r s : ByteReader}
    → x ≡ returns (a, r)
    → x ≡ returns (b, s)
    → (a ≡ b) × (r ≡ s)
same_outcome p q = (cc, cc)

pub read_u8_strict-Wrote : Wrote read_u8_strict u8_bytes 256
read_u8_strict-Wrote r a r' bytes e = go (unread r) refl
  where
    go :
        (xs : List ℕ)
        → unread r ≡ xs
        → (unread r ≡ u8_bytes a ++ unread r') × AreBytes (unread r') × (a < 256)
    go [] u = cc (read_u8_strict_short r (rw u (omega arith)), e)
    go (b ∷ rest) u =
        let (s, got, left) = read_u8_strict_byte b r rest u in
        let (same, moved) = same_outcome got e in
        let h : AreBytes (b ∷ rest) = subst AreBytes u bytes in
        let digits : b ≡ a % 256 = omega arith in
        let after : rest ≡ unread r' = sym left ∙ ap unread moved in
        (
          u ∙ ap (λ x. x ∷ rest) digits ∙ ap (λ l. (a % 256) ∷ l) after,
          subst AreBytes after h.1,
          omega arith,
        )

pub read_u16_strict-Wrote : Wrote read_u16_strict u16_bytes (2 ^ 16)
read_u16_strict-Wrote r a r' bytes e = go (unread r) refl
  where
    go :
        (xs : List ℕ)
        → unread r ≡ xs
        → (unread r ≡ u16_bytes a ++ unread r') × AreBytes (unread r') × (a < 2 ^ 16)
    go [] u = cc (read_u16_strict_short r (rw u (omega arith)), e)
    go (b ∷ []) u = cc (read_u16_strict_short r (rw u (omega arith)), e)
    go (b ∷ c ∷ rest) u =
        let h : AreBytes (b ∷ c ∷ rest) = subst AreBytes u bytes in
        let (s, got, left) = read_u16_strict_bytes b c h.0 h.1.0 r rest u in
        let (same, moved) = same_outcome got e in
        let high : b ≡ a / 2 ^ 8 % 256 = omega arith in
        let low : c ≡ a % 256 = omega arith in
        let after : rest ≡ unread r' = sym left ∙ ap unread moved in
        (
          u
              ∙ ap (λ x. x ∷ c ∷ rest) high
              ∙ ap (λ x. (a / 2 ^ 8 % 256) ∷ x ∷ rest) low
              ∙ ap (λ l. u16_bytes a ++ l) after,
          subst AreBytes after h.1.1,
          omega arith,
        )

pub returns-injective {ℓ} :
    {A : Type ℓ} {a b : A} → ◌≡◌ {A = Result Exn A} (returns a) (returns b) → a ≡ b
returns-injective e = cc

pub read_u8-unread :
    (b : ℕ) (rest : List ℕ) (r : ByteReader) {a : Option ℕ} {r' : ByteReader}
    → unread r ≡ b ∷ rest
    → read_u8 r ≡ returns (a, r')
    → unread r' ≡ rest
read_u8-unread b rest r u e =
    let (s, got, left) = read_u8-Reads b r rest u in
    ap (λ p. unread (p.1)) (returns-injective (sym e ∙ got)) ∙ left
