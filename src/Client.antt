-- ===== src/Client.antt =====
-- The client's view of its data plane, pkg/client.
pub mod TransportState
