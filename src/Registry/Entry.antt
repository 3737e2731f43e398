-- ===== src/Registry/Entry.antt =====
-- src/protocol/generated/registry.ts: what the registries hold of a method or an event. The types
-- of its parameters and results are checked by the compiler and absent at run time.
use axtp_ts_runtime.Common.{ℕ}

pub data RegistryStatus : Type 0 where
  stable : RegistryStatus
  draft : RegistryStatus
  mvp : RegistryStatus
  deprecated : RegistryStatus
  reserved : RegistryStatus

pub record RegistryEntry : Type 0 where
  pub id : ℕ
  pub status : RegistryStatus
  pub bit_offset : ℕ

abbrev pub entry : ℕ → RegistryStatus → ℕ → RegistryEntry
entry id status bit_offset = record { id = id; status = status; bit_offset = bit_offset }
