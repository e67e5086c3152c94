-- ===== src/Relay.antt =====
-- The public relay, pkg/relay.
pub mod Limits
pub mod Udp
pub mod Sni
pub mod Registry
pub mod NativeWireguard
