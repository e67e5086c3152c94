-- ===== src/Relay/Udp.antt =====
-- The UDP-relay tier, pkg/relay/udpsession.go.
pub mod Ports
pub mod Session
pub mod Table
pub mod Frames
pub mod Forward
