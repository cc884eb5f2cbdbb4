-- ===== src/Store.antt =====
-- The durable state of the control plane (src/state/store.ts).
pub mod Model
pub mod Clients
pub mod Sessions
pub mod Targets
pub mod Pairings
pub mod Devices
pub mod Purge
pub mod Calls
pub mod Invariant
pub mod Revocation
pub mod Codes
pub mod Tokens
pub mod DeviceLife
pub mod PairingLife
pub mod Durability
pub mod TargetControls
