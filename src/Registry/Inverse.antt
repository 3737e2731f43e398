-- ===== src/Registry/Inverse.antt =====
-- The maps of the registry index are inverse to each other.
use axtp_ts_runtime.Common.{
  ℕ, ◌≡◌, refl, List, Option, none, some, ap, ◌↔◌, Bool, true, false, ◌==◌, ◌&&◌, ==→eq, left_true,
  right_true,
}
use axtp_ts_runtime.Common.Maps.{lookup, insert}
use axtp_ts_runtime.Model.Rpc.{Text, same_text, same_text→eq}
use axtp_ts_runtime.Broker.{text_lookup}
use axtp_ts_runtime.Registry.Checks.{holds_all_names, holds_at_name, holds_all_ids, holds_at_id}
use axtp_ts_runtime.Registry.{
  registry, names_to_ids, ids_to_names, method_id, method_name, event_id, event_name,
}

is_text : Text → Option Text → Bool
is_text name none = false
is_text name (some other) = same_text other name

is_text→eq : (name : Text) (o : Option Text) → is_text name o ≡ true → o ≡ some name
unfolding is_text
is_text→eq name none h = absurd (cc h)
is_text→eq name (some other) h = ap some (same_text→eq other name h)

is_number : ℕ → Option ℕ → Bool
is_number id none = false
is_number id (some other) = other == id

is_number→eq : (id : ℕ) (o : Option ℕ) → is_number id o ≡ true → o ≡ some id
unfolding is_number
is_number→eq id none h = absurd (cc h)
is_number→eq id (some other) h = ap some (==→eq other id h)

-- Two maps of which each entry is found, turned around, in the other one.
module _ (ids : List (Text × ℕ)) (names : List (ℕ × Text)) where
  are_inverse : Bool
  unfolding lookup
  are_inverse =
      holds_all_names (λ name id. is_text name (lookup id names)) ids
      && holds_all_ids (λ id name. is_number id (text_lookup name ids)) names

  inverse_maps :
      are_inverse ≡ true
      → (name : Text) (id : ℕ) → (text_lookup name ids ≡ some id) ↔ (lookup id names ≡ some name)
  unfolding are_inverse
  inverse_maps h name id = (
    λ found. is_text→eq name _ (holds_at_name _ ids name id (left_true _ _ h) found),
    λ found. is_number→eq id _ (holds_at_id _ names id name (right_true _ _ h) found),
  )

-- A name has an id in the registry of methods exactly when the id has that name, and the same
-- holds of the events: no two methods share an id, nor do two events.
pub registry_inverse :
    (name : Text) (id : ℕ)
    → ((method_id name registry ≡ some id) ↔ (method_name id registry ≡ some name))
      × ((event_id name registry ≡ some id) ↔ (event_name id registry ≡ some name))
unfolding method_id method_name event_id event_name registry names_to_ids ids_to_names are_inverse
    holds_all_names holds_all_ids is_text is_number lookup insert
registry_inverse name id = (
  inverse_maps registry.method_name_to_id registry.method_id_to_name refl name id,
  inverse_maps registry.event_name_to_id registry.event_id_to_name refl name id,
)
