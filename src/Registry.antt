-- ===== src/Registry.antt =====
-- src/types/registry.ts, class RegistryIndex: names and ids of the generated registries, both ways.
-- The keys of a registry are walked in the order of the source, which `Object.keys` keeps.
pub mod Entry
pub mod Methods
pub mod Events
pub mod Checks
pub mod Inverse
use axtp_ts_runtime.Common.{ℕ, List, [], ◌∷◌, Option}
use axtp_ts_runtime.Common.Maps.{lookup, insert}
use axtp_ts_runtime.Model.Rpc.{Text}
use axtp_ts_runtime.Broker.{text_lookup, text_insert}
use axtp_ts_runtime.Registry.Entry.{RegistryEntry}
use axtp_ts_runtime.Registry.Methods.{method_registry}
use axtp_ts_runtime.Registry.Events.{event_registry}

pub record RegistryIndex : Type 0 where
  pub method_name_to_id : List (Text × ℕ)
  pub method_id_to_name : List (ℕ × Text)
  pub event_name_to_id : List (Text × ℕ)
  pub event_id_to_name : List (ℕ × Text)

-- The two loops of the constructor write a pair of maps each.
unfoldable pub names_to_ids : List (Text × RegistryEntry) → List (Text × ℕ) → List (Text × ℕ)
names_to_ids [] ids = ids
names_to_ids ((name, e) ∷ rest) ids = names_to_ids rest (text_insert name e.id ids)

unfoldable pub ids_to_names : List (Text × RegistryEntry) → List (ℕ × Text) → List (ℕ × Text)
unfolding insert
ids_to_names [] names = names
ids_to_names ((name, e) ∷ rest) names = ids_to_names rest (insert e.id name names)

unfoldable pub registry : RegistryIndex
unfolding names_to_ids ids_to_names
registry = record {
  method_name_to_id = names_to_ids method_registry [];
  method_id_to_name = ids_to_names method_registry [];
  event_name_to_id = names_to_ids event_registry [];
  event_id_to_name = ids_to_names event_registry [];
}

unfoldable pub method_id : Text → RegistryIndex → Option ℕ
method_id name index = text_lookup name index.method_name_to_id

unfoldable pub method_name : ℕ → RegistryIndex → Option Text
unfolding lookup
method_name id index = lookup id index.method_id_to_name

unfoldable pub event_id : Text → RegistryIndex → Option ℕ
event_id name index = text_lookup name index.event_name_to_id

unfoldable pub event_name : ℕ → RegistryIndex → Option Text
unfolding lookup
event_name id index = lookup id index.event_id_to_name
