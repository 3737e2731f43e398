-- ===== src/EventMasks/Walk.antt =====
-- The loop over the entries finds the mask of a domain in what computeEventMasks has written.
use axtp_ts_runtime.Common.{
  ℕ, zero, suc, ◌<◌, ◌≤◌, ◌≡◌, refl, sym, ap, ◌∙◌, List, [], ◌∷◌, ◌++◌, none, some, Bool, true,
  false, ◌==◌, ◌&&◌, ◌||◌, if◌then◌else◌, length, length-append, arith, inl, inr, Bool-cases, ==→eq,
  Option-cases, take-append_eq, drop-append_eq,
}
use axtp_ts_runtime.Common.Maps.{lookup}
use axtp_ts_runtime.Io.Writer.{AreBytes}
use axtp_ts_runtime.Io.Hex.{bytes_to_hex}
use axtp_ts_runtime.Io.Hex.RoundTrip.{bytes_to_hex-append}
use axtp_ts_runtime.EventMasks.{
  Groups, keys, sort_insert, sort, mask_length, domain_mask, encode_domain, encode_domains,
  test_bit, find_domain,
}
use axtp_ts_runtime.EventMasks.Bits.{member, domain_mask_lem}
use axtp_ts_runtime.EventMasks.Groups.{in_bits, AreSmall}

member-sort_insert :
    (d k : ℕ) (ks : List ℕ) → member d (sort_insert k ks) ≡ ((k == d) || member d ks)
unfolding sort_insert
member-sort_insert d k [] = refl
member-sort_insert d k (x ∷ ks) = ground (arith, member-sort_insert d k ks)

member-sort : (d : ℕ) (ks : List ℕ) → member d (sort ks) ≡ member d ks
unfolding sort
member-sort d [] = refl
member-sort d (k ∷ ks) =
    member-sort_insert d k (sort ks) ∙ ap (λ t. (k == d) || t) (member-sort d ks)

member-keys :
    (d bit : ℕ) (groups : Groups)
    → (member d (keys groups) && in_bits bit (lookup d groups)) ≡ in_bits bit (lookup d groups)
unfolding lookup
member-keys d bit [] = refl
member-keys d bit ((k, bits) ∷ groups) = elim (Bool-cases (k == d)) [
  | inl same ↦ rw same refl
  | inr differs ↦ rw differs (member-keys d bit groups)
]

pub member-sort-keys :
    (d bit : ℕ) (groups : Groups)
    → (member d (sort (keys groups)) && in_bits bit (lookup d groups))
      ≡ in_bits bit (lookup d groups)
member-sort-keys d bit groups = rw (member-sort d (keys groups)) (member-keys d bit groups)

abbrev pub encoded : Groups → List ℕ → List ℕ
encoded groups [] = []
encoded groups (d ∷ ds) = encode_domain groups d ++ encoded groups ds

pub encode_domains-encoded :
    (groups : Groups) (ds : List ℕ)
    → encode_domains false groups ds ≡ bytes_to_hex (encoded groups ds)
unfolding encode_domains bytes_to_hex
encode_domains-encoded groups [] = refl
encode_domains-encoded groups (d ∷ ds) =
    ap (λ t. bytes_to_hex (encode_domain groups d) ++ t) (encode_domains-encoded groups ds)
    ∙ sym (bytes_to_hex-append (encode_domain groups d) (encoded groups ds))

AreBytes-append : (a b : List ℕ) → AreBytes a → AreBytes b → AreBytes (a ++ b)
AreBytes-append [] b h k = k
AreBytes-append (x ∷ a) b (byte, h) k = (byte, AreBytes-append a b h k)

encode_domain-none :
    (groups : Groups) (d : ℕ) → lookup d groups ≡ none → encode_domain groups d ≡ []
unfolding encode_domain
encode_domain-none groups d e = rw (e, encode_domain) refl

encode_domain-some :
    (groups : Groups) (d : ℕ) (bits : List ℕ)
    → lookup d groups ≡ some bits
    → encode_domain groups d ≡ d ∷ mask_length bits ∷ domain_mask bits
unfolding encode_domain
encode_domain-some groups d bits e = rw (e, encode_domain) refl

encode_domain-AreBytes :
    (groups : Groups) (d : ℕ) → AreSmall groups → AreBytes (encode_domain groups d)
unfolding mask_length
encode_domain-AreBytes groups d small = elim (Option-cases (lookup d groups)) [
  | inl absent ↦ rw (encode_domain-none groups d absent) tt
  | inr (bits, found) ↦
      let h = small d bits found in
      rw (encode_domain-some groups d bits found)
        (h.0, (omega (arith, h.1), (domain_mask_lem bits 0).1))
]

pub encoded-AreBytes :
    (groups : Groups) (ds : List ℕ) → AreSmall groups → AreBytes (encoded groups ds)
encoded-AreBytes groups [] small = tt
encoded-AreBytes groups (d ∷ ds) small =
    AreBytes-append (encode_domain groups d) (encoded groups ds)
      (encode_domain-AreBytes groups d small) (encoded-AreBytes groups ds small)

find_domain_entry :
    (fuel dom len : ℕ) (mask rest : List ℕ) (domain bit : ℕ)
    → length mask ≡ len
    → 0 < len
    → find_domain (suc fuel) domain bit (dom ∷ len ∷ (mask ++ rest))
      ≡ (if dom == domain then test_bit mask bit else find_domain fuel domain bit rest)
unfolding find_domain
find_domain_entry fuel dom len [] rest domain bit size pos = absurd (omega (arith, size, pos))
find_domain_entry fuel dom len (m ∷ mask) rest domain bit size pos =
    rw (take-append_eq len (m ∷ mask) rest (sym size))
      (rw (drop-append_eq len (m ∷ mask) rest (sym size)) refl)

mask_length_pos : (bits : List ℕ) → 0 < mask_length bits
unfolding mask_length
mask_length_pos bits = omega arith

and_false : (a b : Bool) → (a && false) ≡ (b && false)
and_false true true = refl
and_false true false = refl
and_false false true = refl
and_false false false = refl

module _ (groups : Groups) (domain bit : ℕ) where
  -- What the loop finds in the entries of these domains.
  Finds : List ℕ → ℕ → Type 0
  Finds ds fuel =
      find_domain fuel domain bit (encoded groups ds)
      ≡ (member domain ds && in_bits bit (lookup domain groups))

  skip_absent :
      (d : ℕ) (ds : List ℕ) (fuel : ℕ)
      → lookup d groups ≡ none
      → Finds ds fuel
      → Finds (d ∷ ds) fuel
  unfolding Finds
  skip_absent d ds fuel absent later = elim (Bool-cases (d == domain)) [
    | inl same ↦
        let gone : lookup domain groups ≡ none = rw (==→eq d domain same) at absent in
        rw (encode_domain-none groups d absent) (later ∙ rw gone (and_false (member domain ds) _))
    | inr differs ↦ rw (encode_domain-none groups d absent) (rw differs later)
  ]

  pass_entry :
      (d : ℕ) (ds : List ℕ) (fuel : ℕ) (bits : List ℕ)
      → lookup d groups ≡ some bits
      → Finds ds fuel
      → Finds (d ∷ ds) (suc fuel)
  unfolding Finds
  pass_entry d ds fuel bits found later =
      let m = domain_mask_lem bits bit in
      rw (encode_domain-some groups d bits found) (
        find_domain_entry fuel d (mask_length bits) (domain_mask bits) (encoded groups ds) domain
          bit m.0 (mask_length_pos bits)
        ∙ elim (Bool-cases (d == domain)) [
          | inl same ↦
              let here : lookup domain groups ≡ some bits = rw (==→eq d domain same) at found in
              rw same (rw here m.2)
          | inr differs ↦ rw differs later
        ])

-- The loop, over the entries of these domains, is the lookup of one of them.
pub find_domain-encoded :
    (groups : Groups) (ds : List ℕ) (fuel domain bit : ℕ)
    → length (encoded groups ds) ≤ fuel
    → find_domain fuel domain bit (encoded groups ds)
      ≡ (member domain ds && in_bits bit (lookup domain groups))
unfolding Finds find_domain
find_domain-encoded groups [] zero domain bit enough = refl
find_domain-encoded groups [] (suc fuel) domain bit enough = refl
find_domain-encoded groups (d ∷ ds) zero domain bit enough = elim (Option-cases (lookup d groups)) [
  | inl absent ↦ skip_absent groups domain bit d ds zero absent (
      find_domain-encoded groups ds zero domain bit
        (rw (encode_domain-none groups d absent) at enough))
  | inr (bits, found) ↦
      absurd (omega (arith, (rw (encode_domain-some groups d bits found) at enough)))
]
find_domain-encoded groups (d ∷ ds) (suc fuel) domain bit enough =
    elim (Option-cases (lookup d groups)) [
      | inl absent ↦ skip_absent groups domain bit d ds (suc fuel) absent (
          find_domain-encoded groups ds (suc fuel) domain bit
            (rw (encode_domain-none groups d absent) at enough))
      | inr (bits, found) ↦
          let e : suc (suc (length (domain_mask bits ++ encoded groups ds))) ≤ suc fuel =
            rw (encode_domain-some groups d bits found) at enough in
          pass_entry groups domain bit d ds fuel bits found (
            find_domain-encoded groups ds fuel domain bit
              (omega (arith, e, length-append (domain_mask bits) (encoded groups ds))))
    ]
