-- ===== src/EventMasks/Groups.antt =====
-- The loop over the names: a domain's bits are those of the names that are asked for.
use axtp_ts_runtime.Common.{
  ℕ, ◌<◌, ◌≡◌, refl, ap, ◌∙◌, List, [], ◌∷◌, ◌++◌, Option, none, some, Bool, true, false, ◌==◌,
  ◌&&◌, ◌||◌, if◌then◌else◌, arith, inl, inr, Bool-cases, ==→eq,
}
use axtp_ts_runtime.Common.Maps.{lookup, lookup-insert}
use axtp_ts_runtime.Model.Rpc.{Text}
use axtp_ts_runtime.Broker.{text_lookup, text_member}
use axtp_ts_runtime.Registry.Entry.{RegistryEntry}
use axtp_ts_runtime.EventMasks.{
  EventProperty, own, inherited, missing, own_or, event_property, inherited_names, domain_id,
  Groups, or_empty_bits, add_entry, by_domain, max_bit,
}
use axtp_ts_runtime.EventMasks.Bits.{member}

abbrev pub in_bits : ℕ → Option (List ℕ) → Bool
in_bits bit none = false
in_bits bit (some bits) = member bit bits

abbrev pub asks_entry : ℕ → ℕ → EventProperty → Bool
asks_entry domain bit (own e) = (domain_id e == domain) && (e.bit_offset == bit)
asks_entry domain bit inherited = false
asks_entry domain bit missing = false

-- One of the names has this bit of this domain.
abbrev pub asked : List (Text × RegistryEntry) → ℕ → ℕ → List Text → Bool
asked registry domain bit [] = false
asked registry domain bit (name ∷ names) =
    asks_entry domain bit (event_property registry name) || asked registry domain bit names

member-append :
    (bit b : ℕ) (bits : List ℕ) → member bit (bits ++ (b ∷ [])) ≡ ((b == bit) || member bit bits)
member-append bit b [] = refl
member-append bit b (x ∷ bits) = ground (arith, member-append bit b bits)

in_bits-or_empty_bits :
    (bit : ℕ) (o : Option (List ℕ)) → member bit (or_empty_bits o) ≡ in_bits bit o
in_bits-or_empty_bits bit none = refl
in_bits-or_empty_bits bit (some bits) = refl

in_bits-add_entry :
    (o : EventProperty) (groups : Groups) (domain bit : ℕ)
    → in_bits bit (lookup domain (add_entry o groups))
      ≡ (asks_entry domain bit o || in_bits bit (lookup domain groups))
in_bits-add_entry missing groups domain bit = refl
in_bits-add_entry inherited groups domain bit =
    rw (lookup-insert 0 domain (or_empty_bits (lookup 0 groups)) groups)
      (elim (Bool-cases (0 == domain)) [
        | inl same ↦ rw same (
            in_bits-or_empty_bits bit (lookup 0 groups)
            ∙ ap (λ d. in_bits bit (lookup d groups)) (==→eq 0 domain same))
        | inr differs ↦ rw differs refl
      ])
in_bits-add_entry (own e) groups domain bit =
    let d : ℕ = domain_id e in
    let bits : List ℕ = or_empty_bits (lookup d groups) ++ (e.bit_offset ∷ []) in
    rw (lookup-insert d domain bits groups) (elim (Bool-cases (d == domain)) [
      | inl same ↦ rw same (
          rw (member-append bit e.bit_offset (or_empty_bits (lookup d groups)))
            (rw (in_bits-or_empty_bits bit (lookup d groups)) (rw (==→eq d domain same) refl)))
      | inr differs ↦ rw differs refl
    ])

pub in_bits-by_domain :
    (registry : List (Text × RegistryEntry)) (names : List Text) (groups : Groups) (domain bit : ℕ)
    → in_bits bit (lookup domain (by_domain registry names groups))
      ≡ (asked registry domain bit names || in_bits bit (lookup domain groups))
unfolding by_domain
in_bits-by_domain registry [] groups domain bit = refl
in_bits-by_domain registry (name ∷ names) groups domain bit =
    let o = event_property registry name in
    in_bits-by_domain registry names (add_entry o groups) domain bit
    ∙ ap (λ t. asked registry domain bit names || t) (in_bits-add_entry o groups domain bit)
    ∙ or_swap (asked registry domain bit names) (asks_entry domain bit o) _
  where
    or_swap : (a c d : Bool) → (a || (c || d)) ≡ ((c || a) || d)
    or_swap true true d = refl
    or_swap true false d = refl
    or_swap false true d = refl
    or_swap false false d = refl

-- A domain is a byte, and its bits fit into a mask of at most 255 bytes.
abbrev pub AreSmall : Groups → Type 0
AreSmall groups =
    (domain : ℕ) (bits : List ℕ)
    → lookup domain groups ≡ some bits
    → (domain < 256) × (max_bit bits < 2040)

-- Every bit of a registry is below 2040.
abbrev pub HasSmallOffsets : List (Text × RegistryEntry) → Type 0
HasSmallOffsets registry =
    (name : Text) (e : RegistryEntry) → text_lookup name registry ≡ some e → e.bit_offset < 2040

max_bit-append :
    (bits : List ℕ) (b : ℕ) → max_bit bits < 2040 → b < 2040 → max_bit (bits ++ (b ∷ [])) < 2040
max_bit-append [] b h below = omega (arith, below)
max_bit-append (x ∷ bits) b h below =
    omega (arith, h, max_bit-append bits b (omega (arith, h)) below)

max_bit-or_empty_bits :
    (domain : ℕ) (groups : Groups) (o : Option (List ℕ))
    → lookup domain groups ≡ o
    → AreSmall groups
    → max_bit (or_empty_bits o) < 2040
max_bit-or_empty_bits domain groups none e small = omega arith
max_bit-or_empty_bits domain groups (some bits) e small = (small domain bits e).1

add_entry-AreSmall :
    (o : EventProperty) (groups : Groups)
    → ((e : RegistryEntry) → o ≡ own e → e.bit_offset < 2040)
    → AreSmall groups
    → AreSmall (add_entry o groups)
add_entry-AreSmall missing groups h small domain bits found = small domain bits found
add_entry-AreSmall inherited groups h small domain bits found =
    let old : List ℕ = or_empty_bits (lookup 0 groups) in
    let found' : (if 0 == domain then some old else lookup domain groups) ≡ some bits =
      rw (lookup-insert 0 domain old groups) at found in
    elim (Bool-cases (0 == domain)) [
      | inl same ↦
          let e' : some old ≡ some bits = rw same at found' in
          let is_old : old ≡ bits = cc e' in
          let below : max_bit old < 2040 =
            max_bit-or_empty_bits 0 groups (lookup 0 groups) refl small in
          (ground (arith, same), rw is_old at below)
      | inr differs ↦ small domain bits (rw differs at found')
    ]
add_entry-AreSmall (own e) groups h small domain bits found =
    let d : ℕ = domain_id e in
    let added : List ℕ = or_empty_bits (lookup d groups) ++ (e.bit_offset ∷ []) in
    let found' : (if d == domain then some added else lookup domain groups) ≡ some bits =
      rw (lookup-insert d domain added groups) at found in
    elim (Bool-cases (d == domain)) [
      | inl same ↦
          let e' : some added ≡ some bits = rw same at found' in
          let is_added : added ≡ bits = cc e' in
          let below : max_bit added < 2040 =
            max_bit-append (or_empty_bits (lookup d groups)) e.bit_offset
              (max_bit-or_empty_bits d groups (lookup d groups) refl small) (h e refl) in
          (ground (arith, same), rw is_added at below)
      | inr differs ↦ small domain bits (rw differs at found')
    ]

own-entry :
    (registry : List (Text × RegistryEntry)) (name : Text) (e : RegistryEntry)
    → event_property registry name ≡ own e
    → text_lookup name registry ≡ some e
unfolding event_property
own-entry registry name e is_own =
    by_lookup (text_member name inherited_names) (text_lookup name registry) is_own
  where
    by_lookup : (b : Bool) (o : Option RegistryEntry) → own_or b o ≡ own e → o ≡ some e
    by_lookup b (some f) h = cc h
    by_lookup true none h = absurd (cc h)
    by_lookup false none h = absurd (cc h)

pub by_domain-AreSmall :
    (registry : List (Text × RegistryEntry)) (names : List Text) (groups : Groups)
    → HasSmallOffsets registry
    → AreSmall groups
    → AreSmall (by_domain registry names groups)
unfolding by_domain
by_domain-AreSmall registry [] groups offsets small = small
by_domain-AreSmall registry (name ∷ names) groups offsets small =
    by_domain-AreSmall registry names (add_entry (event_property registry name) groups) offsets (
      add_entry-AreSmall (event_property registry name) groups
        (λ e is_own. offsets name e (own-entry registry name e is_own)) small)
