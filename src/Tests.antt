-- ===== src/Tests.antt =====
-- Concrete inputs on which the theorems of the other modules apply.
pub mod Limiters
pub mod Payloads
pub mod FullRings
pub mod Hellos
pub mod Routes
pub mod Udp
pub mod Registries
pub mod Policies
pub mod Sessions
pub mod Paths
pub mod RelayPools
pub mod NativeRelays
pub mod Trays
