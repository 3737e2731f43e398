-- ===== src/Tests/Masks.antt =====
-- The hexadecimal digits of io/bytes.ts, and the registry and the event masks of types/registry.ts,
-- at concrete inputs.
use axtp_ts_runtime.Common.{List, [], ◌∷◌, ◌≡◌, refl, some, true, false, returns, throws}
use axtp_ts_runtime.Common.Maps.{lookup, insert}
use axtp_ts_runtime.Model.Rpc.{Text}
use axtp_ts_runtime.Model.Json.{units}
use axtp_ts_runtime.Io.Hex.{
  hex_of, bytes_to_hex, hex_to_bytes, odd_length, to_string_16, hex_digits, without_spaces,
  parse_pairs, parse_pair, digit_value,
}
use axtp_ts_runtime.Registry.{registry, event_name, names_to_ids, ids_to_names}
use axtp_ts_runtime.Registry.Events.{event_registry}
use axtp_ts_runtime.EventMasks.{
  compute_event_masks, is_event_subscribed, by_domain, has_undefined, event_property,
  encode_domains, encode_domain, sort, sort_insert, mask_length, domain_mask, set_bits, set_bit,
}
use axtp_ts_runtime.EventMasks.Subscribed.{event_mask_names}

long_byte : hex_of 300 ≡ units "12c"
unfolding hex_of to_string_16 hex_digits
long_byte = refl

loose_digits : hex_to_bytes (units "0F g1 1g -1 +a") ≡ returns (15 ∷ 0 ∷ 1 ∷ 255 ∷ 10 ∷ [])
unfolding hex_to_bytes without_spaces parse_pairs parse_pair digit_value
loose_digits = refl

odd_digits : hex_to_bytes (units "00NaN") ≡ throws odd_length
unfolding hex_to_bytes without_spaces
odd_digits = refl

abbrev changed : Text
changed = units "audio.algorithmConfigChanged"

abbrev names : List Text
names = units "cast.castingFailed" ∷ changed ∷ units "device.enrollmentStateChanged" ∷ changed ∷ []

names_mask : compute_event_masks event_registry names ≡ units "010101090101"
unfolding compute_event_masks by_domain has_undefined event_property encode_domains encode_domain
    sort sort_insert mask_length domain_mask set_bits set_bit lookup insert bytes_to_hex hex_of
    to_string_16 hex_digits
names_mask = refl

names_plain : has_undefined event_registry names ≡ false
unfolding has_undefined event_property
names_plain = refl

event_mask_names_example :
    is_event_subscribed event_registry changed (compute_event_masks event_registry names)
    ≡ returns true
event_mask_names_example = event_mask_names changed names names_plain

-- The name of an inherited property leads to digits that are refused.
inherited_mask : compute_event_masks event_registry (units "toString" ∷ []) ≡ units "00NaN"
unfolding compute_event_masks by_domain has_undefined event_property encode_domains sort sort_insert
    lookup insert
inherited_mask = refl

inherited_throws :
    is_event_subscribed event_registry changed
      (compute_event_masks event_registry (units "toString" ∷ []))
    ≡ throws odd_length
unfolding is_event_subscribed hex_to_bytes without_spaces
inherited_throws = rw inherited_mask refl

-- 0x0901 is an event; it is a method, too.
shared_id : event_name 0x0901 registry ≡ some changed
unfolding event_name registry names_to_ids ids_to_names lookup insert
shared_id = refl
