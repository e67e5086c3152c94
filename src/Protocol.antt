-- ===== src/Protocol.antt =====
-- The wire protocol, pkg/protocol/protocol.go.
pub mod Capabilities
pub mod Payload
