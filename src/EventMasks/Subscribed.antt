-- ===== src/EventMasks/Subscribed.antt =====
-- What computeEventMasks writes for a list of names is what isEventSubscribed reads of it.
use axtp_ts_runtime.Common.{
  ℕ, ◌≡◌, refl, sym, ap, ◌∙◌, List, [], ◌∷◌, Option, none, some, Bool, true, false, not, ◌==◌, ◌&&◌,
  ◌||◌, ltb, length, arith, returns, inl, inr, Bool-cases, Option-cases, ltb→lt, eq→==,
}
use axtp_ts_runtime.Common.Maps.{lookup}
use axtp_ts_runtime.Model.Rpc.{Text, same_text, same_text→eq, same_text_self}
use axtp_ts_runtime.Broker.{text_lookup, text_member}
use axtp_ts_runtime.Registry.Entry.{RegistryEntry}
use axtp_ts_runtime.Registry.Events.{event_registry}
use axtp_ts_runtime.Registry.Checks.{holds_all_names, holds_at_name}
use axtp_ts_runtime.Io.Hex.{bytes_to_hex, hex_to_bytes}
use axtp_ts_runtime.Io.Hex.RoundTrip.{hex_to_bytes-bytes_to_hex}
use axtp_ts_runtime.EventMasks.{
  EventProperty, own, inherited, missing, own_or, event_property, inherited_names, has_undefined,
  domain_id, Groups, keys, sort, by_domain, compute_event_masks, find_domain, entry_is_set,
  is_event_subscribed,
}
use axtp_ts_runtime.EventMasks.Groups.{
  asked, asks_entry, in_bits-by_domain, HasSmallOffsets, AreSmall, by_domain-AreSmall,
}
use axtp_ts_runtime.EventMasks.Walk.{
  encoded, encode_domains-encoded, encoded-AreBytes, find_domain-encoded, member-sort-keys,
}

-- One of the names has the event's bit of the event's domain.
abbrev pub asked_entry : List (Text × RegistryEntry) → EventProperty → List Text → Bool
asked_entry registry missing names = false
asked_entry registry inherited names = false
asked_entry registry (own e) names = asked registry (domain_id e) e.bit_offset names

entry_is_set-nothing : (o : EventProperty) → entry_is_set o [] ≡ false
unfolding entry_is_set find_domain
entry_is_set-nothing missing = refl
entry_is_set-nothing inherited = refl
entry_is_set-nothing (own e) = refl

is_event_subscribed_bytes :
    (registry : List (Text × RegistryEntry)) (name hex : Text) (bytes : List ℕ)
    → hex_to_bytes hex ≡ returns bytes
    → is_event_subscribed registry name hex
      ≡ returns (entry_is_set (event_property registry name) bytes)
unfolding is_event_subscribed
is_event_subscribed_bytes registry name [] bytes read =
    let empty : bytes ≡ [] = no_text read in
    rw empty (ap returns (sym (entry_is_set-nothing (event_property registry name))))
  where
    no_text : hex_to_bytes [] ≡ returns bytes → bytes ≡ []
    no_text h = cc h
is_event_subscribed_bytes registry name (c ∷ cs) bytes read = rw read refl

entry_is_set-encoded :
    (registry : List (Text × RegistryEntry)) (names : List Text) (o : EventProperty)
    → let groups = by_domain registry names [] in
      entry_is_set o (encoded groups (sort (keys groups))) ≡ asked_entry registry o names
unfolding entry_is_set lookup
entry_is_set-encoded registry names missing = refl
entry_is_set-encoded registry names inherited = refl
entry_is_set-encoded registry names (own e) =
    let groups : Groups = by_domain registry names [] in
    let ds : List ℕ = sort (keys groups) in
    find_domain-encoded groups ds (length (encoded groups ds)) (domain_id e) e.bit_offset
      (omega arith)
    ∙ member-sort-keys (domain_id e) e.bit_offset groups
    ∙ in_bits-by_domain registry names [] (domain_id e) e.bit_offset
    ∙ or_false (asked registry (domain_id e) e.bit_offset names)
  where
    or_false : (a : Bool) → (a || false) ≡ a
    or_false true = refl
    or_false false = refl

nothing-AreSmall : AreSmall []
unfolding lookup
nothing-AreSmall domain bits found = absurd (cc found)

-- For a registry whose bits are below 2040, and names of which none is an inherited property that is
-- no entry, isEventSubscribed returns, on what computeEventMasks
-- makes of the names, whether one of the names has the event's bit of the event's domain.
pub is_event_subscribed-compute_event_masks :
    (registry : List (Text × RegistryEntry))
    → HasSmallOffsets registry
    → (name : Text) (names : List Text) → has_undefined registry names ≡ false
    → is_event_subscribed registry name (compute_event_masks registry names)
      ≡ returns (asked_entry registry (event_property registry name) names)
unfolding compute_event_masks
is_event_subscribed-compute_event_masks registry offsets name names plain =
    let groups : Groups = by_domain registry names [] in
    let ds : List ℕ = sort (keys groups) in
    let small : AreSmall groups = by_domain-AreSmall registry names [] offsets nothing-AreSmall in
    rw (plain, encode_domains-encoded groups ds)
      (is_event_subscribed_bytes registry name (bytes_to_hex (encoded groups ds))
          (encoded groups ds)
          (hex_to_bytes-bytes_to_hex (encoded groups ds) (encoded-AreBytes groups ds small))
        ∙ ap returns (entry_is_set-encoded registry names (event_property registry name)))

small_offset : Text → RegistryEntry → Bool
small_offset name e = ltb e.bit_offset 2040

event_registry-HasSmallOffsets : HasSmallOffsets event_registry
unfolding small_offset holds_all_names
event_registry-HasSmallOffsets name e found =
    ltb→lt e.bit_offset 2040 (holds_at_name small_offset event_registry name e refl found)

same_place : RegistryEntry → RegistryEntry → Bool
same_place e f = (domain_id f == domain_id e) && (f.bit_offset == e.bit_offset)

apart_from : Text → RegistryEntry → Text → RegistryEntry → Bool
unfolding same_place
apart_from name e other f = same_text other name || not (same_place e f)

apart : Text → RegistryEntry → Bool
unfolding holds_all_names apart_from
apart name e = holds_all_names (apart_from name e) event_registry

events_apart : holds_all_names apart event_registry ≡ true
unfolding apart apart_from same_place holds_all_names
events_apart = refl

-- Two events with the same bit of the same domain have the same name.
event_places :
    (name other : Text) (e f : RegistryEntry)
    → text_lookup name event_registry ≡ some e
    → text_lookup other event_registry ≡ some f
    → same_place e f ≡ true
    → other ≡ name
unfolding apart apart_from
event_places name other e f at_name at_other same =
    let h : (same_text other name || not (same_place e f)) ≡ true =
      holds_at_name (apart_from name e) event_registry other f
        (holds_at_name apart event_registry name e events_apart at_name) at_other in
    same_text→eq other name (first_holds (same_text other name) (same_place e f) h same)
  where
    first_holds : (a b : Bool) → (a || not b) ≡ true → b ≡ true → a ≡ true
    first_holds true b h k = refl
    first_holds false true h k = absurd (cc h)
    first_holds false false h k = absurd (cc k)

same_place_self :
    (name other : Text) (e f : RegistryEntry)
    → text_lookup name event_registry ≡ some e
    → text_lookup other event_registry ≡ some f
    → other ≡ name
    → same_place e f ≡ true
unfolding same_place
same_place_self name other e f at_name at_other same =
    let found : some f ≡ some e = cc (at_name, at_other, same) in
    let one : f ≡ e = cc found in
    rw one (rw (eq→== (domain_id e) (domain_id e) refl) (eq→== e.bit_offset e.bit_offset refl))

asks_nothing : (domain bit : ℕ) (b : Bool) → asks_entry domain bit (own_or b none) ≡ false
asks_nothing domain bit true = refl
asks_nothing domain bit false = refl

asks_entry-event :
    (name other : Text) (e : RegistryEntry)
    → text_lookup name event_registry ≡ some e
    → asks_entry (domain_id e) e.bit_offset (event_property event_registry other)
      ≡ same_text other name
unfolding same_place event_property
asks_entry-event name other e at_name = elim (Option-cases (text_lookup other event_registry)) [
  | inl absent ↦ elim (Bool-cases (same_text other name)) [
    | inl same ↦ absurd (cc (absent, at_name, same_text→eq other name same))
    | inr differs ↦
        rw absent (
          asks_nothing (domain_id e) e.bit_offset (text_member other inherited_names) ∙ sym differs)
  ]
  | inr (f, at_other) ↦ rw at_other (elim (Bool-cases (same_place e f)) [
    | inl same ↦
        same
        ∙ sym (
            ap (λ t. same_text t name) (event_places name other e f at_name at_other same)
            ∙ same_text_self name)
    | inr apart ↦ elim (Bool-cases (same_text other name)) [
      | inl same ↦ absurd (
          cc
            (apart, same_place_self name other e f at_name at_other (same_text→eq other name same)))
      | inr differs ↦ apart ∙ sym differs
    ]
  ])
]

asked-event :
    (name : Text) (names : List Text) (e : RegistryEntry)
    → text_lookup name event_registry ≡ some e
    → asked event_registry (domain_id e) e.bit_offset names ≡ text_member name names
asked-event name [] e found = refl
asked-event name (other ∷ names) e found =
    rw (asks_entry-event name other e found)
      (ap (λ t. same_text other name || t) (asked-event name names e found))

abbrev pub is_registered : Option RegistryEntry → Bool
is_registered none = false
is_registered (some e) = true

-- An event of the registry is subscribed to, by what computeEventMasks makes of a list of names,
-- exactly when its name is in the list; a name that the registry does not have never is, and no call
-- throws. The list may have unknown and repeated names in it, but no name that every object inherits
-- ("toString" and the like).
pub event_mask_names :
    (name : Text) (names : List Text)
    → has_undefined event_registry names ≡ false
    → is_event_subscribed event_registry name (compute_event_masks event_registry names)
      ≡ returns (is_registered (text_lookup name event_registry) && text_member name names)
unfolding event_property
event_mask_names name names plain =
    is_event_subscribed-compute_event_masks event_registry event_registry-HasSmallOffsets name names
      plain
    ∙ ap returns (elim (Option-cases (text_lookup name event_registry)) [
      | inl absent ↦ rw absent (asked_nothing (text_member name inherited_names))
      | inr (e, found) ↦ rw found (asked-event name names e found)
    ])
  where
    asked_nothing : (b : Bool) → asked_entry event_registry (own_or b none) names ≡ false
    asked_nothing true = refl
    asked_nothing false = refl
