-- ===== src/EventMasks.antt =====
-- src/types/registry.ts, computeEventMasks and isEventSubscribed: the events that a peer asks for,
-- as hexadecimal digits. An entry is a domain, the length of a mask and the mask, last byte first.
-- The registry is an argument, a list in place of the object EVENT_REGISTRY. An object has what its
-- prototype has, too ("toString" and the like), and the code looks a name up among both.
pub mod Bits
pub mod Groups
pub mod Walk
pub mod Subscribed
use Prim.Native.Nat.{bit_and, bit_or}
use axtp_ts_runtime.Common.{
  ℕ, zero, suc, ◌+◌, ◌-◌, ◌/◌, ◌%◌, ◌^◌, max, List, [], ◌∷◌, ◌++◌, Option, none, some, Bool, true,
  false, not, ◌==◌, ◌&&◌, ◌||◌, ltb, leb, if◌then◌else◌, length, take, drop, get_or, set, replicate,
  map, Result, returns, ◌>>=◌,
}
use axtp_ts_runtime.Common.Maps.{lookup, insert}
use axtp_ts_runtime.Model.Rpc.{Text}
use axtp_ts_runtime.Model.Json.{units}
use axtp_ts_runtime.Broker.{text_lookup, text_member}
use axtp_ts_runtime.Registry.Entry.{RegistryEntry}
use axtp_ts_runtime.Io.Hex.{HexError, bytes_to_hex, hex_to_bytes}

-- `(entry.id >> 8) & 0xff`
abbrev pub domain_id : RegistryEntry → ℕ
domain_id e = e.id / 256 % 256

abbrev pub Groups : Type 0
Groups = List (ℕ × List ℕ)

abbrev or_empty_bits : Option (List ℕ) → List ℕ
or_empty_bits none = []
or_empty_bits (some bits) = bits

-- The property names of Object.prototype.
abbrev pub inherited_names : List Text
inherited_names =
    units "constructor"
    ∷ units "__defineGetter__"
    ∷ units "__defineSetter__"
    ∷ units "hasOwnProperty"
    ∷ units "__lookupGetter__"
    ∷ units "__lookupSetter__"
    ∷ units "isPrototypeOf"
    ∷ units "propertyIsEnumerable"
    ∷ units "toString"
    ∷ units "valueOf"
    ∷ units "__proto__"
    ∷ units "toLocaleString"
    ∷ []

-- `EVENT_REGISTRY[name]`: an entry, something inherited, whose `id` and `bitOffset` are undefined,
-- or undefined.
pub data EventProperty : Type 0 where
  own : RegistryEntry → EventProperty
  inherited missing : EventProperty

abbrev pub own_or : Bool → Option RegistryEntry → EventProperty
own_or b (some e) = own e
own_or b none = if b then inherited else missing

unfoldable pub event_property : List (Text × RegistryEntry) → Text → EventProperty
event_property registry name = own_or (text_member name inherited_names) (text_lookup name registry)

-- The domain of an undefined id is 0. The undefined bit of something inherited is no number, so it is
-- not among the numbers of the domain; `has_undefined` tells of it.
abbrev pub add_entry : EventProperty → Groups → Groups
add_entry (own e) groups =
    insert (domain_id e) (or_empty_bits (lookup (domain_id e) groups) ++ (e.bit_offset ∷ [])) groups
add_entry inherited groups = insert 0 (or_empty_bits (lookup 0 groups)) groups
add_entry missing groups = groups

-- `byDomain`, after the loop over the names.
unfoldable pub by_domain : List (Text × RegistryEntry) → List Text → Groups → Groups
unfolding lookup insert event_property
by_domain registry [] groups = groups
by_domain registry (name ∷ names) groups =
    by_domain registry names (add_entry (event_property registry name) groups)

abbrev pub is_inherited : EventProperty → Bool
is_inherited inherited = true
is_inherited _ = false

-- The bits of domain 0 have an undefined one.
unfoldable pub has_undefined : List (Text × RegistryEntry) → List Text → Bool
unfolding event_property
has_undefined registry [] = false
has_undefined registry (name ∷ names) =
    is_inherited (event_property registry name) || has_undefined registry names

-- `[...byDomain.keys()].sort((a, b) => a - b)`
abbrev keys : Groups → List ℕ
keys [] = []
keys ((key, bits) ∷ rest) = key ∷ keys rest

unfoldable pub sort_insert : ℕ → List ℕ → List ℕ
sort_insert k [] = k ∷ []
sort_insert k (x ∷ xs) = if leb k x then k ∷ x ∷ xs else x ∷ sort_insert k xs

unfoldable pub sort : List ℕ → List ℕ
unfolding sort_insert
sort [] = []
sort (k ∷ ks) = sort_insert k (sort ks)

-- `Math.max(...bits)`; there is a bit in each domain.
abbrev max_bit : List ℕ → ℕ
max_bit [] = 0
max_bit (b ∷ bits) = max b (max_bit bits)

-- `Math.max(1, Math.ceil((maxBit + 1) / 8))`
unfoldable pub mask_length : List ℕ → ℕ
mask_length bits = max 1 ((max_bit bits + 1 + 7) / 8)

unfoldable pub set_bit : ℕ → List ℕ → ℕ → List ℕ
set_bit mask_len mask bit =
    let i = mask_len - 1 - bit / 8 in set mask i (bit_or (get_or mask i 0) (2 ^ (bit % 8)))

unfoldable pub set_bits : ℕ → List ℕ → List ℕ → List ℕ
unfolding set_bit
set_bits mask_len mask [] = mask
set_bits mask_len mask (bit ∷ bits) = set_bits mask_len (set_bit mask_len mask bit) bits

unfoldable pub domain_mask : List ℕ → List ℕ
unfolding set_bits
domain_mask bits = set_bits (mask_length bits) (replicate (mask_length bits) 0) bits

unfoldable pub encode_domain : Groups → ℕ → List ℕ
unfolding lookup domain_mask mask_length
encode_domain groups domain = elim (lookup domain groups) [
  | none ↦ []
  | some bits ↦ domain ∷ mask_length bits ∷ domain_mask bits
]

-- With an undefined bit, `maxBit` and `maskLen` are NaN, and the mask is empty.
abbrev pub domain_hex : Bool → Groups → ℕ → Text
domain_hex undefined groups domain =
    if undefined && domain == 0 then units "00NaN" else bytes_to_hex (encode_domain groups domain)

unfoldable pub encode_domains : Bool → Groups → List ℕ → Text
unfolding encode_domain bytes_to_hex
encode_domains undefined groups [] = []
encode_domains undefined groups (domain ∷ domains) =
    domain_hex undefined groups domain ++ encode_domains undefined groups domains

unfoldable pub compute_event_masks : List (Text × RegistryEntry) → List Text → Text
unfolding by_domain encode_domains sort has_undefined
compute_event_masks registry names =
    let groups = by_domain registry names [] in
    encode_domains (has_undefined registry names) groups (sort (keys groups))

-- `(mask[mask.length - 1 - byteIndex] ?? 0) & (1 << bitIndex)` is not 0.
unfoldable pub test_bit : List ℕ → ℕ → Bool
test_bit mask bit =
    let byte =
      if ltb (bit / 8) (length mask) then get_or mask (length mask - 1 - bit / 8) 0 else 0 in
    not (bit_and byte (2 ^ (bit % 8)) == 0)

-- The loop over the entries. Each takes at least two bytes, so the number of bytes is enough fuel.
unfoldable pub find_domain : ℕ → ℕ → ℕ → List ℕ → Bool
unfolding test_bit
find_domain zero domain bit bytes = false
find_domain (suc fuel) domain bit (dom ∷ mask_len ∷ m ∷ rest) =
    let later = find_domain fuel domain bit (drop mask_len (m ∷ rest)) in
    if dom == domain then test_bit (take mask_len (m ∷ rest)) bit else later
find_domain (suc fuel) domain bit (x ∷ y ∷ []) = false
find_domain (suc fuel) domain bit (x ∷ []) = false
find_domain (suc fuel) domain bit [] = false

-- Of something inherited, the byte is that at NaN, which no mask has.
unfoldable entry_is_set : EventProperty → List ℕ → Bool
unfolding find_domain
entry_is_set (own e) bytes = find_domain (length bytes) (domain_id e) e.bit_offset bytes
entry_is_set inherited bytes = false
entry_is_set missing bytes = false

unfoldable pub is_event_subscribed :
    List (Text × RegistryEntry) → Text → Text → Result HexError Bool
unfolding hex_to_bytes entry_is_set find_domain event_property
is_event_subscribed registry name [] = returns false
is_event_subscribed registry name (c ∷ cs) =
    hex_to_bytes (c ∷ cs) >>= (λ bytes. returns (entry_is_set (event_property registry name) bytes))
