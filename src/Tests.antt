-- ===== src/Tests.antt =====
-- Runs of the modelled code at concrete inputs, and the theorems at such inputs.
mod FrameDecoder
mod Assembling
mod Streams
mod ControlLink
mod Sessions
mod Requests
mod Registry
mod Messages
mod Cores
mod Timers
mod Brokers
mod Endpoints
mod Masks
mod Clients
mod Managers
