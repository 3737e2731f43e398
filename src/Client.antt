-- ===== src/Client.antt =====
-- src/sdk/client.ts: the client of one connection, with its queues of events and calls.
pub mod State
pub mod Events
pub mod Calls
pub mod Connection
pub mod Runs
pub mod Settled
pub mod Final
